-- ===== src/Context.antt =====
-- A context: one UDP socket, its options and the dispatch of what it receives (c/src/t2u_context.c,
-- c/src/t2u.c, c/include/t2u.h).
pub mod Options
pub mod Range
pub mod Dispatch
pub mod Steps
pub mod Lifecycle
