-- ===== src/Sync.antt =====
-- tonio/_sync.py, with the primitives of src/sync.rs below it.
pub mod Waiters
pub mod Lock
pub mod Semaphore
pub mod Channel
pub mod Unbounded
