-- ===== src/Rbtree/Depth.antt =====
-- c/src/t2u_rbtree.c: how far a search goes down.
use native.Mathlib.Nat.{pow-suc}
use t2u.Common.{
  ℕ, suc, ◌+◌, ◌*◌, ◌^◌, ◌≤◌, max, ap, Ordering, [], ◌∷◌, arith, length, length-append,
}
use t2u.Rbtree.Node.{
  RbColor, rb_black, rb_red, RbtreeNode, nil, node, in_left, in_right, Parents, get_color,
}
use t2u.Rbtree.Table.{Rbtree, do_lookup}
use t2u.Rbtree.Contents.{to_list}
use t2u.Rbtree.Shape.{height, IsShaped}
use t2u.Rbtree.Contract.{IsValid}

abbrev reds : RbColor → ℕ
reds rb_black = 0
reds rb_red = 1

reds-le-one : (c : RbColor) → reds c ≤ 1
reds-le-one rb_black = omega arith
reds-le-one rb_red = omega arith

module _ {ℓ κ} {K : Type ℓ} {V : Type κ} where
  abbrev pub depth : RbtreeNode K V → ℕ
  depth nil = 0
  depth (node c l k v r) = suc (max (depth l) (depth r))

  depth-le-height : (t : RbtreeNode K V) → IsShaped t → depth t ≤ 2 * height t + reds (get_color t)
  depth-le-height nil s = omega arith
  depth-le-height (node rb_black l k v r) s = omega (
    arith,
    depth-le-height l s.0,
    depth-le-height r s.1,
    reds-le-one (get_color l),
    reds-le-one (get_color r),
  )
  depth-le-height (node rb_red l k v r) s =
      omega (arith, depth-le-height l s.0, depth-le-height r s.1, ap reds s.3.0, ap reds s.3.1)

  pow-height-le-size : (t : RbtreeNode K V) → IsShaped t → 2 ^ height t ≤ length (to_list t) + 1
  pow-height-le-size nil s = omega arith
  pow-height-le-size (node rb_black l k v r) s = omega (
    arith,
    pow-suc 2 (height l),
    ap (λ n. 2 ^ n) s.2,
    pow-height-le-size l s.0,
    pow-height-le-size r s.1,
    length-append (to_list l) ((k, v) ∷ to_list r),
  )
  pow-height-le-size (node rb_red l k v r) s =
      omega (arith, pow-height-le-size l s.0, length-append (to_list l) ((k, v) ∷ to_list r))

  length-do_lookup :
      (cmp : K → K → Ordering) (q : K) (t : RbtreeNode K V) (up : Parents K V)
      → length (do_lookup cmp q t up).1 ≤ length up + depth t
  unfolding do_lookup
  length-do_lookup cmp q nil up = omega arith
  length-do_lookup cmp q (node c l k v r) up = ground (
    arith,
    length-do_lookup cmp q l (in_left c k v r ∷ up),
    length-do_lookup cmp q r (in_right c l k v ∷ up),
  )

  -- In a valid tree a search goes down at most twice the black height, and 2 to the black height is
  -- at most the number of entries plus one.
  pub do_lookup_steps :
      (tree : Rbtree K V) (key : K)
      → IsValid tree
      → (length (do_lookup tree.cmp key tree.root []).1 ≤ 2 * height tree.root)
        × (2 ^ height tree.root ≤ length (to_list tree.root) + 1)
  do_lookup_steps tree key ok = (
    omega (
      arith,
      length-do_lookup tree.cmp key tree.root [],
      depth-le-height tree.root ok.red_black.0,
      ap reds ok.red_black.1,
    ),
    pow-height-le-size tree.root ok.red_black.0,
  )
