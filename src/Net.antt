-- ===== src/Net.antt =====
-- tonio/_net: sockets, streams and TLS.
pub mod Address
pub mod Hilvl
pub mod Socket
pub mod Streams
pub mod Tls
