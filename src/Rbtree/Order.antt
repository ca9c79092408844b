-- ===== src/Rbtree/Order.antt =====
-- c/src/t2u_rbtree.c: where `do_lookup` stops in a tree whose keys are in order.
use t2u.Common.{◌≡◌, refl, Ordering, [], ◌∷◌, ◌++◌, arith}
use t2u.Rbtree.Node.{RbColor, RbtreeNode, nil, node, in_left, in_right, Parents, plug}
use t2u.Rbtree.Table.{do_lookup, data_of}
use t2u.Rbtree.Contents.{to_list, before, after}
use t2u.Rbtree.Entries.{IsLawful, find, Below, Above, IsSorted, AllKeys-append}
use t2u.Rbtree.Entries.Laws.{
  IsSorted-split, find-Below, find-Above_append, Above-trans, Below-trans,
}

module _ {ℓ κ} {K : Type ℓ} {V : Type κ} (cmp : K → K → Ordering) where
  -- The place lies between the entries with smaller keys and those with greater.
  abbrev pub Brackets : K → Parents K V → Type 0
  Brackets q up = Below cmp q (before up) × Above cmp q (after up)

  abbrev pub HasKey : K → RbtreeNode K V → Type 0
  HasKey q nil = Unit
  HasKey q (node c l k v r) = cmp k q ≡ Ordering.eq

  pub do_lookup-plug :
      (q : K) (t : RbtreeNode K V) (up : Parents K V)
      → plug (do_lookup cmp q t up).0 (do_lookup cmp q t up).1 ≡ plug t up
  unfolding do_lookup
  do_lookup-plug q nil up = refl
  do_lookup-plug q (node c l k v r) up =
      ground (
        arith,
        do_lookup-plug q l (in_left c k v r ∷ up),
        do_lookup-plug q r (in_right c l k v ∷ up),
      )

module _ {ℓ κ} {K : Type ℓ} {V : Type κ} (cmp : K → K → Ordering) (laws : IsLawful cmp) where
  go_right :
      (q : K) (c : RbColor) (l : RbtreeNode K V) (k : K) (v : V) (r : RbtreeNode K V)
      (up : Parents K V)
      → IsSorted cmp (to_list (node c l k v r))
      → cmp k q ≡ Ordering.lt
      → Brackets cmp q up
      → Brackets cmp q (in_right c l k v ∷ up)
  go_right q c l k v r up s e (b, a) =
      let (low, high, _, _) = IsSorted-split cmp laws k v (to_list l) (to_list r) s in
      (
        (AllKeys-append (λ x. cmp x q ≡ Ordering.lt) (before up) (to_list l ++ (k, v) ∷ [])).1 (
          b,
          (AllKeys-append (λ x. cmp x q ≡ Ordering.lt) (to_list l) ((k, v) ∷ [])).1
              (Below-trans cmp laws q k e (to_list l) low, (e, tt)),
        ),
        a,
      )

  go_left :
      (q : K) (c : RbColor) (l : RbtreeNode K V) (k : K) (v : V) (r : RbtreeNode K V)
      (up : Parents K V)
      → IsSorted cmp (to_list (node c l k v r))
      → cmp k q ≡ Ordering.gt
      → Brackets cmp q up
      → Brackets cmp q (in_left c k v r ∷ up)
  go_left q c l k v r up s e (b, a) =
      let (low, high, _, _) = IsSorted-split cmp laws k v (to_list l) (to_list r) s in
      (
        b,
        (
          e,
          (AllKeys-append (λ x. cmp x q ≡ Ordering.gt) (to_list r) (after up)).1
              (Above-trans cmp laws q k e (to_list r) high, a),
        ),
      )

  -- The search ends at the key, or at the place where it belongs.
  pub do_lookup-Brackets :
      (q : K) (t : RbtreeNode K V) (up : Parents K V)
      → IsSorted cmp (to_list t)
      → Brackets cmp q up
      → Brackets cmp q (do_lookup cmp q t up).1 × HasKey cmp q (do_lookup cmp q t up).0
  unfolding do_lookup
  do_lookup-Brackets q nil up s b = (b, tt)
  do_lookup-Brackets q (node c l k v r) up s b =
      let (low, high, sl, sr) = IsSorted-split cmp laws k v (to_list l) (to_list r) s in
      ground (
        arith,
        go_left q c l k v r up s,
        go_right q c l k v r up s,
        do_lookup-Brackets q l (in_left c k v r ∷ up) sl,
        do_lookup-Brackets q r (in_right c l k v ∷ up) sr,
      )

  pub data_of-do_lookup :
      (q : K) (t : RbtreeNode K V) (up : Parents K V)
      → IsSorted cmp (to_list t)
      → data_of (do_lookup cmp q t up).0 ≡ find cmp q (to_list t)
  unfolding do_lookup find
  data_of-do_lookup q nil up s = refl
  data_of-do_lookup q (node c l k v r) up s =
      let (low, high, sl, sr) = IsSorted-split cmp laws k v (to_list l) (to_list r) s in
      ground (
        arith,
        data_of-do_lookup q l (in_left c k v r ∷ up) sl,
        data_of-do_lookup q r (in_right c l k v ∷ up) sr,
        find-Below cmp laws q (to_list l) ((k, v) ∷ to_list r),
        find-Above_append cmp laws q (to_list l) ((k, v) ∷ to_list r),
        laws.eq_of_cmp k q,
        low,
        λ (e : cmp k q ≡ Ordering.lt). Below-trans cmp laws q k e (to_list l) low,
        λ (e : cmp k q ≡ Ordering.gt). Above-trans cmp laws q k e (to_list r) high,
      )
