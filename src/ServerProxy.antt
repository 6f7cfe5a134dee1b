-- ===== src/ServerProxy.antt =====
-- src/libtcpserverproxy: the front end, which accepts TCP clients and sends what they write as
-- datagrams to the client proxy, and writes the datagrams that come back to the TCP clients.
pub mod UdpHandler
pub mod Broadcast
pub mod Forwarder
pub mod Forwarding
pub mod SharedBuffer
pub mod ClientHandler
pub mod Registry
pub mod Assembly
pub mod Ended
pub mod Stopping
