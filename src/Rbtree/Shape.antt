-- ===== src/Rbtree/Shape.antt =====
-- c/src/t2u_rbtree.c: the red-black rules of a tree, and of the place that a chain of parents
-- leaves open.
pub mod Insert
pub mod Remove
pub mod Unlink
use t2u.Common.{ℕ, suc, ◌≡◌, refl, ◌⊎◌, inl, inr, Ordering, [], ◌∷◌, arith}
use t2u.Rbtree.Node.{
  RbColor, rb_black, rb_red, RbtreeNode, nil, node, Frame, in_left, in_right, Parents, get_color,
  sibling, parent_color, plug,
}
use t2u.Rbtree.Table.{do_lookup}

-- The black height of a node over children of black height `h`.
abbrev pub raise : RbColor → ℕ → ℕ
raise rb_black h = suc h
raise rb_red h = h

-- A red node has black children.
abbrev pub RedOk : RbColor → RbColor → RbColor → Type 0
RedOk rb_black a b = Unit
RedOk rb_red a b = (a ≡ rb_black) × (b ≡ rb_black)

module _ {ℓ κ} {K : Type ℓ} {V : Type κ} where
  abbrev pub height : RbtreeNode K V → ℕ
  height nil = 0
  height (node c l k v r) = raise c (height l)

  abbrev pub IsShaped : RbtreeNode K V → Type 0
  IsShaped nil = Unit
  IsShaped (node c l k v r) =
      IsShaped l × IsShaped r × (height l ≡ height r) × RedOk c (get_color l) (get_color r)

  -- A subtree of this black height and this root colour may stand in the place.
  abbrev pub FitsIn : ℕ → RbColor → Parents K V → Type 0
  FitsIn h c [] = c ≡ rb_black
  FitsIn h c (f ∷ up) =
      IsShaped (sibling f)
      × (height (sibling f) ≡ h)
      × RedOk (parent_color f) c (get_color (sibling f))
      × FitsIn (raise (parent_color f) h) (parent_color f) up

  abbrev pub Fits : RbtreeNode K V → Parents K V → Type 0
  Fits t up = IsShaped t × FitsIn (height t) (get_color t) up

  pub plug-IsShaped :
      (t : RbtreeNode K V) (up : Parents K V)
      → Fits t up
      → IsShaped (plug t up) × (get_color (plug t up) ≡ rb_black)
  plug-IsShaped t [] h = h
  plug-IsShaped t (in_left c k v r ∷ up) h = plug-IsShaped (node c t k v r) up (ground arith)
  plug-IsShaped t (in_right c l k v ∷ up) h = plug-IsShaped (node c l k v t) up (ground arith)

  -- A place for a red subtree takes a black one of the same black height.
  pub FitsIn-black : (h : ℕ) (c : RbColor) (up : Parents K V) → FitsIn h c up → FitsIn h rb_black up
  FitsIn-black h c [] f = refl
  FitsIn-black h rb_black (f ∷ up) fits = fits
  FitsIn-black h rb_red (f ∷ up) fits = ground arith

  pub do_lookup-Fits :
      (cmp : K → K → Ordering) (q : K) (t : RbtreeNode K V) (up : Parents K V)
      → Fits t up
      → Fits (do_lookup cmp q t up).0 (do_lookup cmp q t up).1
  unfolding do_lookup
  do_lookup-Fits cmp q nil up h = h
  do_lookup-Fits cmp q (node c l k v r) up h = ground (
    arith,
    do_lookup-Fits cmp q l (in_left c k v r ∷ up),
    do_lookup-Fits cmp q r (in_right c l k v ∷ up),
  )
