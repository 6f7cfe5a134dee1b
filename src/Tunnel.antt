-- ===== src/Tunnel.antt =====
-- Both proxies together: from a TCP client of the front end to the TCP server behind the back end.
pub mod Carried
