-- ===== src/Server.antt =====
-- src/server: what the server does with connections, streams and datagrams.
pub mod Stream
pub mod Datagram
pub mod Handler
pub mod Config
pub mod Certs
pub mod Listener
pub mod Tests
