-- ===== src/Runner.antt =====
-- The thread that serves all contexts, and how other threads hand it work (c/src/t2u_runner.c).
pub mod Channel
pub mod Control
pub mod Completion
pub mod Contexts
pub mod Forward
pub mod Race
