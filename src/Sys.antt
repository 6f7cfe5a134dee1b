-- ===== src/Sys.antt =====
-- The state and exception monad, and the boundary with ACE and the operating system.
pub mod Exec
pub mod World
pub mod Trace
pub mod Logger
pub mod Loop
