-- ===== src/Tcp.antt =====
-- src/libtcp: sessions, the client, the server and its handlers.
pub mod Session
pub mod Effects
pub mod Client
pub mod Messages
pub mod Echo
pub mod Echoes
pub mod Notifying
pub mod Notified
pub mod Notifications
pub mod Departure
pub mod Acceptor
pub mod Accepting
pub mod Server
