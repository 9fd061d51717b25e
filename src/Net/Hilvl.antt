-- ===== src/Net/Hilvl.antt =====
-- tonio/_net/_hilvl.py: opening and serving TCP and Unix sockets. `socket.close` is taken not to
-- fail, but in `_close_all_sockets`, which is written for it.
mod Samples
pub mod Listeners
pub mod Racing
pub mod Serving
pub mod Unix
pub mod Secure
