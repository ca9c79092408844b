-- ===== src/Rbtree.antt =====
-- c/src/t2u_rbtree.c and t2u_rbtree.h: the red-black tree under every table of the program.
pub mod Node
pub mod Insert
pub mod Remove
pub mod Table
pub mod Walk
pub mod Contents
pub mod Entries
pub mod Order
pub mod Shape
pub mod Contract
pub mod Depth
pub mod Dict
