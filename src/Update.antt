-- ===== src/Update.antt =====
-- internal/update: which release supersedes the running one, how its manifest and its binary are
-- checked, and how the binary is swapped in and rolled back.
pub mod Version
pub mod Manifest
pub mod Swap
pub mod Signing
