-- ===== src/Net.antt =====
-- include/uvpp/net: high-level network owners.
pub mod TcpListener
pub mod PipeListener
pub mod UdpSocket
pub mod PipeConnection
pub mod TcpConnection
pub mod Resolve
