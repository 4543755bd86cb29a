-- ===== src/Api.antt =====
-- The HTTP interface: how failures are reported to a caller, who may call, and what the
-- configuration accepts as directories.
pub mod Problem
pub mod Access
pub mod Directories
pub mod Config
