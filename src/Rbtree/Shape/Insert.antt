-- ===== src/Rbtree/Shape/Insert.antt =====
-- c/src/t2u_rbtree.c, `__rbtree_insert`: the loop ends with no fault and mends the colours.
use t2u.Common.{◌∷◌, [], arith, Ensures}
use t2u.Rbtree.Node.{
  RbColor, rb_black, rb_red, RbtreeNode, nil, node, in_left, in_right, Parents, rotate_left,
  rotate_right, plug,
}
use t2u.Rbtree.Insert.{insert_fixup}
use t2u.Rbtree.Shape.{height, IsShaped, FitsIn, plug-IsShaped}

module _ {ℓ κ} {K : Type ℓ} {V : Type κ} where
  abbrev pub NonNil : RbtreeNode K V → Type 0
  NonNil nil = ⊥
  NonNil (node c l k v r) = Unit

  abbrev IsMended : RbtreeNode K V → Type 0
  IsMended t = IsShaped t × NonNil t

  plug-NonNil :
      (c : RbColor) (l : RbtreeNode K V) (k : K) (v : V) (r : RbtreeNode K V) (up : Parents K V)
      → NonNil (plug (node c l k v r) up)
  plug-NonNil c l k v r [] = tt
  plug-NonNil c l k v r (in_left d j w t ∷ up) = plug-NonNil d (node c l k v r) j w t up
  plug-NonNil c l k v r (in_right d t j w ∷ up) = plug-NonNil d t j w (node c l k v r) up

  plug-IsMended :
      (c : RbColor) (l : RbtreeNode K V) (k : K) (v : V) (r : RbtreeNode K V) (up : Parents K V)
      → IsShaped (node c l k v r)
      → FitsIn (height (node c l k v r)) c up
      → IsMended (plug (node c l k v r) up)
  plug-IsMended c l k v r up s f =
      ((plug-IsShaped (node c l k v r) up (s, f)).0, plug-NonNil c l k v r up)

  -- No read through NULL: a red parent is never the root, and a rotation has what it turns.
  pub insert_fixup-IsMended :
      (l : RbtreeNode K V) (k : K) (v : V) (r : RbtreeNode K V) (up : Parents K V)
      → IsShaped (node rb_red l k v r)
      → FitsIn (height l) rb_black up
      → Ensures IsMended (insert_fixup (node rb_red l k v r) up)
  unfolding insert_fixup rotate_left rotate_right
  insert_fixup-IsMended a x y b [] s f = (s, tt)
  insert_fixup-IsMended a x y b (in_left rb_black k v r ∷ up) s f =
      ground (arith, plug-IsMended rb_black (node rb_red a x y b) k v r up)
  insert_fixup-IsMended a x y b (in_right rb_black l k v ∷ up) s f =
      ground (arith, plug-IsMended rb_black l k v (node rb_red a x y b) up)
  insert_fixup-IsMended a x y b (in_left rb_red k v r ∷ []) s f = absurd (ground arith)
  insert_fixup-IsMended a x y b (in_right rb_red l k v ∷ []) s f = absurd (ground arith)
  insert_fixup-IsMended a x y b
        (in_left rb_red k v r ∷ in_left c gk gv (node rb_red ul uk uv ur) ∷ up) s f =
      ground (
        arith,
        insert_fixup-IsMended (node rb_black (node rb_red a x y b) k v r) gk gv
            (node rb_black ul uk uv ur) up,
      )
  insert_fixup-IsMended a x y b (in_left rb_red k v r ∷ in_left c gk gv nil ∷ up) s f =
      ground (arith, plug-IsMended rb_black (node rb_red a x y b) k v (node rb_red r gk gv nil) up)
  insert_fixup-IsMended a x y b
        (in_left rb_red k v r ∷ in_left c gk gv (node rb_black ul uk uv ur) ∷ up) s f =
      ground (
        arith,
        plug-IsMended rb_black (node rb_red a x y b) k v
            (node rb_red r gk gv (node rb_black ul uk uv ur)) up,
      )
  insert_fixup-IsMended a x y b
        (in_right rb_red l k v ∷ in_left c gk gv (node rb_red ul uk uv ur) ∷ up) s f =
      ground (
        arith,
        insert_fixup-IsMended (node rb_black l k v (node rb_red a x y b)) gk gv
            (node rb_black ul uk uv ur) up,
      )
  insert_fixup-IsMended a x y b (in_right rb_red l k v ∷ in_left c gk gv nil ∷ up) s f =
      ground (arith, plug-IsMended rb_black (node rb_red l k v a) x y (node rb_red b gk gv nil) up)
  insert_fixup-IsMended a x y b
        (in_right rb_red l k v ∷ in_left c gk gv (node rb_black ul uk uv ur) ∷ up) s f =
      ground (
        arith,
        plug-IsMended rb_black (node rb_red l k v a) x y
            (node rb_red b gk gv (node rb_black ul uk uv ur)) up,
      )
  insert_fixup-IsMended a x y b
        (in_right rb_red l k v ∷ in_right c (node rb_red ul uk uv ur) gk gv ∷ up) s f =
      ground (
        arith,
        insert_fixup-IsMended (node rb_black ul uk uv ur) gk gv
            (node rb_black l k v (node rb_red a x y b)) up,
      )
  insert_fixup-IsMended a x y b (in_right rb_red l k v ∷ in_right c nil gk gv ∷ up) s f =
      ground (arith, plug-IsMended rb_black (node rb_red nil gk gv l) k v (node rb_red a x y b) up)
  insert_fixup-IsMended a x y b
        (in_right rb_red l k v ∷ in_right c (node rb_black ul uk uv ur) gk gv ∷ up) s f =
      ground (
        arith,
        plug-IsMended rb_black (node rb_red (node rb_black ul uk uv ur) gk gv l) k v
            (node rb_red a x y b) up,
      )
  insert_fixup-IsMended a x y b
        (in_left rb_red k v r ∷ in_right c (node rb_red ul uk uv ur) gk gv ∷ up) s f =
      ground (
        arith,
        insert_fixup-IsMended (node rb_black ul uk uv ur) gk gv
            (node rb_black (node rb_red a x y b) k v r) up,
      )
  insert_fixup-IsMended a x y b (in_left rb_red k v r ∷ in_right c nil gk gv ∷ up) s f =
      ground (arith, plug-IsMended rb_black (node rb_red nil gk gv a) x y (node rb_red b k v r) up)
  insert_fixup-IsMended a x y b
        (in_left rb_red k v r ∷ in_right c (node rb_black ul uk uv ur) gk gv ∷ up) s f =
      ground (
        arith,
        plug-IsMended rb_black (node rb_red (node rb_black ul uk uv ur) gk gv a) x y
            (node rb_red b k v r) up,
      )
