-- ===== src/ClientProxy.antt =====
-- src/libtcpclientproxy: the back end, which receives the datagrams of server proxies and writes
-- their bytes to the TCP server, over one connection for each sender, and sends back what the TCP
-- server writes.
pub mod Binding
pub mod SessionHandler
pub mod Manager
pub mod Handler
pub mod Create
pub mod Delivery
pub mod Input
pub mod Tunnel
pub mod Responses
pub mod Invariant
pub mod Runs
pub mod Assembly
pub mod Quiet
pub mod Destroying
pub mod Spec
pub mod Silence
pub mod View
pub mod Refinement
pub mod Streams
pub mod Isolation
pub mod Streamed
