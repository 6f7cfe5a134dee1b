-- ===== src/Programs.antt =====
-- The programs of src and the runner of servers in the background.
pub mod EchoTest
pub mod Background
pub mod Joining
