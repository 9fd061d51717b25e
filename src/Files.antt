-- ===== src/Files.antt =====
-- tonio/_fs/_file.py and tonio/_fs/_path.py: files and paths whose methods run in a thread.
pub mod Wrapper
pub mod Paths
mod Samples
