-- ===== src/Udp.antt =====
-- src/libudp: the client, the sessions, the server and its echo handler.
pub mod Client
pub mod Session
pub mod Echo
pub mod Server
pub mod Lifetime
pub mod Teardown
