-- ===== src/Rbtree/Contents.antt =====
-- The entries of a tree in order (c/src/t2u_rbtree.c), and the entries round a place in it.
pub mod Insert
pub mod Remove
pub mod Unlink
use t2u.Common.{
  ℕ, zero, suc, ◌≡◌, refl, ap, sym, ◌∙◌, Option, none, some, List, [], ◌∷◌, ◌++◌, append-nil,
  append_assoc, arith, Allows, length, ◌>>=◌,
}
use t2u.Rbtree.Node.{
  RbColor, rb_black, rb_red, RbtreeNode, nil, node, Frame, in_left, in_right, Parents, is_black,
  is_red, get_color, set_color, sibling, parent_color, recolor, plug, rotate_left, rotate_right,
  rotate_parent, get_min,
}
use t2u.Rbtree.Insert.{insert_fixup}
use t2u.Rbtree.Remove.{
  children_black, delete_case6, straighten, delete_case5, delete_case4, delete_case3, delete_case2,
  delete_case1, only_child, replace_node, unlink_node, unlink_next, remove_node,
}

module _ {ℓ κ} {K : Type ℓ} {V : Type κ} where
  abbrev pub to_list : RbtreeNode K V → List (K × V)
  to_list nil = []
  to_list (node c l k v r) = to_list l ++ (k, v) ∷ to_list r

  -- The entries that come before, and after, the place that the parents leave open.
  abbrev pub before : Parents K V → List (K × V)
  before [] = []
  before (in_left c k v r ∷ up) = before up
  before (in_right c l k v ∷ up) = before up ++ (to_list l ++ (k, v) ∷ [])

  abbrev pub after : Parents K V → List (K × V)
  after [] = []
  after (in_left c k v r ∷ up) = (k, v) ∷ to_list r ++ after up
  after (in_right c l k v ∷ up) = after up

  pub to_list-plug :
      (t : RbtreeNode K V) (up : Parents K V)
      → to_list (plug t up) ≡ before up ++ to_list t ++ after up
  to_list-plug t [] = simp append-nil
  to_list-plug t (in_left c k v r ∷ up) = simp (to_list-plug (node c t k v r) up, append_assoc)
  to_list-plug t (in_right c l k v ∷ up) = simp (to_list-plug (node c l k v t) up, append_assoc)

  pub plug-append : (t : RbtreeNode K V) (p q : Parents K V) → plug t (p ++ q) ≡ plug (plug t p) q
  plug-append t [] q = refl
  plug-append t (in_left c k v r ∷ p) q = plug-append (node c t k v r) p q
  plug-append t (in_right c l k v ∷ p) q = plug-append (node c l k v t) p q

  -- Trees with the same entries in one place make trees with the same entries.
  pub to_list-plug_congr :
      (t u : RbtreeNode K V) (up : Parents K V) (es : List (K × V))
      → to_list t ≡ to_list u
      → to_list (plug u up) ≡ es
      → to_list (plug t up) ≡ es
  to_list-plug_congr t u up es e h = rw (to_list-plug t up, e, ← to_list-plug u up) h
