-- ===== src/Rbtree/Dict.antt =====
-- The trees of the program as their users hold them (c/src/t2u_rbtree.h): a tree whose validity is
-- known, so that no call of it can fault. `malloc` is taken to succeed in each insertion. The users
-- see the laws below, not the tree.
mod Defs
mod Laws
pub use Defs.{Ord, Dict}
unfoldable pub use Defs.{init, lookup, insert, remove, root, modify, entries}
pub use Laws.*
