-- ===== src/Consistency.antt =====
-- What holds of the sessions and the rules of a context in every state that the program reaches
-- (c/src/t2u_session.c, c/src/t2u_rule.c, c/src/t2u_context.c).
pub mod Heap
pub mod Tables
pub mod Changes
pub mod Outcomes
pub mod Live
pub mod Data
pub mod Deliver
pub mod Handlers
pub mod Answers
pub mod Handshake
pub mod Connecting
pub mod Requests
pub mod Datagrams
pub mod Served
pub mod Callbacks
pub mod Expiry
pub mod NewRules
pub mod Reach
pub mod Emptied
pub mod Teardown
pub mod Removal
pub mod Closing
