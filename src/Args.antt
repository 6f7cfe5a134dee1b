-- ===== src/Args.antt =====
-- src/libargsparser and NotifiableClientArgs.cpp: what a command line says.
pub mod Parser
pub mod Listen
pub mod Flags
pub mod UserInput
pub mod Answers
pub mod Remote
pub mod Configured
pub mod Chosen
pub mod PortCleanup
pub mod Cleanup
