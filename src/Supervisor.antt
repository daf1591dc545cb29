-- ===== src/Supervisor.antt =====
-- internal/supervisor/supervisor.go: the worker process and its updates.
-- The operating system starts and ends processes; an HTTP poll, a reading of the clock and the
-- outcome of a system call are arguments.
pub mod System
pub mod Polling
pub mod Output
pub mod Command
