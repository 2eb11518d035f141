-- ===== src/Proxy.antt =====
-- src/proxy: how the server forwards TCP streams and UDP packets.
pub mod Tcp
pub mod Udp
pub mod Tests
