-- ===== src/Session.antt =====
-- A session: one TCP connection carried by the tunnel (c/src/t2u_session.c, c/src/t2u_message.c).
pub mod Lost
pub mod Outgoing
pub mod Partial
pub mod Blocked
pub mod Close
pub mod Incoming
pub mod Answers
pub mod Acks
pub mod Ahead
pub mod Stream
pub mod Tcp
pub mod Window
pub mod Tunnel
pub mod Connect
pub mod Delivery
pub mod Ending
pub mod Established
pub mod Handles
