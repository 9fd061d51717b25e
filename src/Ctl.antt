-- ===== src/Ctl.antt =====
-- tonio/_ctl.py: running coroutines side by side.
pub mod Spawn
pub mod Select
pub mod Blocking
pub mod Completed
pub mod Joining
