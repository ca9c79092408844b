-- ===== src/Rbtree/Insert.antt =====
-- c/src/t2u_rbtree.c: the loop of `__rbtree_insert` that mends the colours.
use t2u.Common.{Option, none, some, [], ◌∷◌, ◌>>=◌}
use t2u.Rbtree.Node.{
  rb_black, rb_red, RbtreeNode, node, in_left, in_right, Parents, get_color, set_color, plug,
  rotate_left, rotate_right,
}

module _ {ℓ κ} {K : Type ℓ} {V : Type κ} where
  -- The `while` of `__rbtree_insert`. Its rotations leave `parent` black, which ends the loop.
  unfoldable pub insert_fixup : RbtreeNode K V → Parents K V → Option (RbtreeNode K V)
  insert_fixup n [] = some n
  insert_fixup n (in_left rb_black k v r ∷ up) = some (plug n (in_left rb_black k v r ∷ up))
  insert_fixup n (in_right rb_black l k v ∷ up) = some (plug n (in_right rb_black l k v ∷ up))
  insert_fixup n (_ ∷ []) = none
  insert_fixup n (in_left rb_red k v r ∷ in_left c gk gv uncle ∷ up) = elim (get_color uncle) [
    | rb_red ↦ do
      u ← set_color rb_black uncle
      insert_fixup (node rb_red (node rb_black n k v r) gk gv u) up
    | rb_black ↦ do
      g ← rotate_right (node rb_red (node rb_black n k v r) gk gv uncle)
      some (plug g up)
  ]
  insert_fixup n (in_right rb_red l k v ∷ in_left c gk gv uncle ∷ up) = elim (get_color uncle) [
    | rb_red ↦ do
      u ← set_color rb_black uncle
      insert_fixup (node rb_red (node rb_black l k v n) gk gv u) up
    | rb_black ↦ do
      p ← rotate_left (node rb_red l k v n)
      p' ← set_color rb_black p
      g ← rotate_right (node rb_red p' gk gv uncle)
      some (plug g up)
  ]
  insert_fixup n (in_right rb_red l k v ∷ in_right c uncle gk gv ∷ up) = elim (get_color uncle) [
    | rb_red ↦ do
      u ← set_color rb_black uncle
      insert_fixup (node rb_red u gk gv (node rb_black l k v n)) up
    | rb_black ↦ do
      g ← rotate_left (node rb_red uncle gk gv (node rb_black l k v n))
      some (plug g up)
  ]
  insert_fixup n (in_left rb_red k v r ∷ in_right c uncle gk gv ∷ up) = elim (get_color uncle) [
    | rb_red ↦ do
      u ← set_color rb_black uncle
      insert_fixup (node rb_red u gk gv (node rb_black n k v r)) up
    | rb_black ↦ do
      p ← rotate_right (node rb_red n k v r)
      p' ← set_color rb_black p
      g ← rotate_left (node rb_red uncle gk gv p')
      some (plug g up)
  ]
