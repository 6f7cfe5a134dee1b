-- ===== src/Examples.antt =====
-- Runs of the models at concrete inputs, against an operating system that follows a script.
pub mod Scripted
mod Tunnel
mod Server
mod Handlers
mod Checks
mod Threads
pub mod Relay
mod Servers
mod Asking
mod Runners
mod EndToEnd
