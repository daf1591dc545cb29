-- ===== src/Executor.antt =====
-- internal/executor: the HTTP engine and its egress guard, a child for each part of it.
pub mod Egress
pub mod Errors
pub mod Dial
pub mod Text
pub mod Headers
pub mod Request
pub mod Redirect
pub mod Execute
pub mod Guarded
pub mod Trace
