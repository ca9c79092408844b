-- ===== src/Rbtree/Entries/Laws.antt =====
-- The laws of the sorted list of entries (the contract of c/src/t2u_rbtree.h).
use t2u.Common.{suc, length, ◌≡◌, refl, Ordering, Option, none, some, List, [], ◌∷◌, ◌++◌, arith}
use t2u.Rbtree.Entries.{
  at_key, IsLawful, find, put, drop_key, change, AllKeys, Below, Above, IsSorted, AllKeys-append,
  AllKeys-imp, AllValues,
}

module _ {κ} {V : Type κ} where
  abbrev pub map_some : (V → V) → Option V → Option V
  map_some f none = none
  map_some f (some v) = some (f v)

  abbrev pub or_else : Option V → V → Option V
  or_else none w = some w
  or_else (some v) w = some v

module _ {ℓ κ} {K : Type ℓ} {V : Type κ} (cmp : K → K → Ordering) (laws : IsLawful cmp) where
  pub IsSorted-split :
      (k : K) (v : V) (xs ys : List (K × V))
      → IsSorted cmp (xs ++ (k, v) ∷ ys)
      → Below cmp k xs × Above cmp k ys × IsSorted cmp xs × IsSorted cmp ys
  IsSorted-split k v [] ys s = (tt, s.0, tt, s.1)
  IsSorted-split k v ((j, w) ∷ xs) ys s =
      let (below, above, sx, sy) = IsSorted-split k v xs ys s.1 in
      let (ax, rest) = (AllKeys-append (λ x. cmp x j ≡ Ordering.gt) xs ((k, v) ∷ ys)).0 s.0 in
      ((laws.lt_of_gt k j rest.0, below), above, (ax, sx), sy)

  pub find-Below :
      (q : K) (xs ys : List (K × V)) → Below cmp q xs → find cmp q (xs ++ ys) ≡ find cmp q ys
  unfolding find
  find-Below q [] ys b = refl
  find-Below q ((k, v) ∷ xs) ys b = ground (arith, find-Below q xs ys)

  pub find-Above : (q : K) (xs : List (K × V)) → Above cmp q xs → find cmp q xs ≡ none
  unfolding find
  find-Above q [] a = refl
  find-Above q ((k, v) ∷ xs) a = ground (arith, find-Above q xs)

  pub find-Above_append :
      (q : K) (xs ys : List (K × V)) → Above cmp q ys → find cmp q (xs ++ ys) ≡ find cmp q xs
  unfolding find
  find-Above_append q [] ys a = find-Above q ys a
  find-Above_append q ((k, v) ∷ xs) ys a = ground (arith, find-Above_append q xs ys)

  pub put_between :
      (q : K) (w : V) (xs ys : List (K × V))
      → Below cmp q xs
      → Above cmp q ys
      → put cmp q w (xs ++ ys) ≡ xs ++ (q, w) ∷ ys
  unfolding put
  put_between q w [] [] b a = refl
  put_between q w [] ((k, v) ∷ ys) b a = ground arith
  put_between q w ((k, v) ∷ xs) ys b a = ground (arith, put_between q w xs ys)

  pub put_present :
      (q k : K) (w v : V) (xs ys : List (K × V))
      → Below cmp q xs
      → cmp k q ≡ Ordering.eq
      → put cmp q w (xs ++ (k, v) ∷ ys) ≡ xs ++ (k, v) ∷ ys
  unfolding put
  put_present q k w v [] ys b e = ground arith
  put_present q k w v ((j, u) ∷ xs) ys b e = ground (arith, put_present q k w v xs ys)

  pub drop_key_present :
      (q k : K) (v : V) (xs ys : List (K × V))
      → Below cmp q xs
      → cmp k q ≡ Ordering.eq
      → drop_key cmp q (xs ++ (k, v) ∷ ys) ≡ xs ++ ys
  unfolding drop_key
  drop_key_present q k v [] ys b e = ground arith
  drop_key_present q k v ((j, u) ∷ xs) ys b e = ground (arith, drop_key_present q k v xs ys)

  pub drop_key-Above : (q : K) (xs : List (K × V)) → Above cmp q xs → drop_key cmp q xs ≡ xs
  unfolding drop_key
  drop_key-Above q [] a = refl
  drop_key-Above q ((k, v) ∷ xs) a = ground (arith, drop_key-Above q xs)

  pub drop_key-Below :
      (q : K) (xs ys : List (K × V))
      → Below cmp q xs
      → drop_key cmp q (xs ++ ys) ≡ xs ++ drop_key cmp q ys
  unfolding drop_key
  drop_key-Below q [] ys b = refl
  drop_key-Below q ((k, v) ∷ xs) ys b = ground (arith, drop_key-Below q xs ys)

  AllKeys-put :
      (P : K → Type 0) (q : K) (w : V) (xs : List (K × V))
      → P q
      → AllKeys P xs
      → AllKeys P (put cmp q w xs)
  unfolding put
  AllKeys-put P q w [] p h = (p, tt)
  AllKeys-put P q w ((k, v) ∷ xs) p h = ground (arith, AllKeys-put P q w xs)

  AllKeys-drop_key :
      (P : K → Type 0) (q : K) (xs : List (K × V)) → AllKeys P xs → AllKeys P (drop_key cmp q xs)
  unfolding drop_key
  AllKeys-drop_key P q [] h = tt
  AllKeys-drop_key P q ((k, v) ∷ xs) h = ground (arith, AllKeys-drop_key P q xs)

  pub Above-trans :
      (j k : K) → cmp k j ≡ Ordering.gt → (xs : List (K × V)) → Above cmp k xs → Above cmp j xs
  Above-trans j k g xs =
      AllKeys-imp (λ x. cmp x k ≡ Ordering.gt) (λ x. cmp x j ≡ Ordering.gt) xs
        λ x h. laws.gt_of_lt j x (laws.lt_trans j k x (laws.lt_of_gt k j g) (laws.lt_of_gt x k h))

  pub Below-trans :
      (j k : K) → cmp k j ≡ Ordering.lt → (xs : List (K × V)) → Below cmp k xs → Below cmp j xs
  Below-trans j k g xs =
      AllKeys-imp (λ x. cmp x k ≡ Ordering.lt) (λ x. cmp x j ≡ Ordering.lt) xs
        λ x h. laws.lt_trans x k j h g

  pub put-IsSorted :
      (q : K) (w : V) (xs : List (K × V)) → IsSorted cmp xs → IsSorted cmp (put cmp q w xs)
  unfolding put
  put-IsSorted q w [] s = (tt, tt)
  put-IsSorted q w ((k, v) ∷ xs) s = ground (
    arith,
    put-IsSorted q w xs,
    AllKeys-put (λ x. cmp x k ≡ Ordering.gt) q w xs,
    laws.gt_of_lt k q,
    λ (g : cmp k q ≡ Ordering.gt). Above-trans q k g xs,
  )

  pub drop_key-IsSorted :
      (q : K) (xs : List (K × V)) → IsSorted cmp xs → IsSorted cmp (drop_key cmp q xs)
  unfolding drop_key
  drop_key-IsSorted q [] s = tt
  drop_key-IsSorted q ((k, v) ∷ xs) s =
      ground (arith, drop_key-IsSorted q xs, AllKeys-drop_key (λ x. cmp x k ≡ Ordering.gt) q xs)

  AllKeys-change :
      (P : K → Type 0) (q : K) (f : V → V) (xs : List (K × V))
      → AllKeys P xs
      → AllKeys P (change cmp q f xs)
  unfolding change
  AllKeys-change P q f [] h = tt
  AllKeys-change P q f ((k, v) ∷ xs) h = ground (arith, AllKeys-change P q f xs)

  pub change-IsSorted :
      (q : K) (f : V → V) (xs : List (K × V)) → IsSorted cmp xs → IsSorted cmp (change cmp q f xs)
  unfolding change
  change-IsSorted q f [] s = tt
  change-IsSorted q f ((k, v) ∷ xs) s =
      ground (arith, change-IsSorted q f xs, AllKeys-change (λ x. cmp x k ≡ Ordering.gt) q f xs)

  pub change-Below :
      (q : K) (f : V → V) (xs ys : List (K × V))
      → Below cmp q xs
      → change cmp q f (xs ++ ys) ≡ xs ++ change cmp q f ys
  unfolding change
  change-Below q f [] ys b = refl
  change-Below q f ((k, v) ∷ xs) ys b = ground (arith, change-Below q f xs ys)

  pub change-Above :
      (q : K) (f : V → V) (xs ys : List (K × V))
      → Above cmp q ys
      → change cmp q f (xs ++ ys) ≡ change cmp q f xs ++ ys
  unfolding change
  change-Above q f [] [] a = refl
  change-Above q f [] ((k, v) ∷ ys) a = ground (arith, change-Above q f [] ys)
  change-Above q f ((k, v) ∷ xs) ys a = ground (arith, change-Above q f xs ys)

  -- What a lookup finds after a `put`, and after a `drop_key`.
  pub find-put :
      (q k : K) (w : V) (xs : List (K × V))
      → IsSorted cmp xs
      → find cmp q (put cmp k w xs) ≡ at_key (cmp k q) (or_else (find cmp q xs) w) (find cmp q xs)
  unfolding find put at_key
  find-put q k w [] s = ground arith
  find-put q k w ((j, v) ∷ xs) s = ground (
    arith,
    find-put q k w xs,
    laws.eq_of_cmp j q,
    laws.eq_of_cmp k q,
    laws.eq_of_cmp j k,
    laws.cmp_refl q,
    laws.cmp_refl k,
    find-Above q xs,
    λ (g : cmp j q ≡ Ordering.gt). Above-trans q j g xs,
    laws.lt_of_gt j k,
    laws.gt_of_lt j k,
  )

  pub find-drop_key :
      (q k : K) (xs : List (K × V))
      → IsSorted cmp xs
      → find cmp q (drop_key cmp k xs) ≡ at_key (cmp k q) (none) (find cmp q xs)
  unfolding find drop_key at_key
  find-drop_key q k [] s = ground arith
  find-drop_key q k ((j, v) ∷ xs) s = ground (
    arith,
    find-drop_key q k xs,
    laws.eq_of_cmp j q,
    laws.eq_of_cmp k q,
    laws.eq_of_cmp j k,
    laws.cmp_refl q,
    find-Above q xs,
  )

  pub find-change :
      (q k : K) (f : V → V) (xs : List (K × V))
      → find cmp q (change cmp k f xs)
        ≡ at_key (cmp k q) (map_some f (find cmp q xs)) (find cmp q xs)
  unfolding find change at_key
  find-change q k f [] = ground arith
  find-change q k f ((j, v) ∷ xs) = ground (
    arith,
    find-change q k f xs,
    laws.eq_of_cmp j q,
    laws.eq_of_cmp k q,
    laws.eq_of_cmp j k,
    laws.cmp_refl q,
  )

  pub length-drop_key :
      (q : K) (v : V) (xs : List (K × V))
      → find cmp q xs ≡ some v
      → length xs ≡ suc (length (drop_key cmp q xs))
  unfolding find drop_key
  length-drop_key q v [] e = cc
  length-drop_key q v ((k, w) ∷ xs) e = ground (arith, length-drop_key q v xs)

  -- What holds of each value that is found holds of each value.
  pub find-AllValues :
      (P : V → Type 0) (xs : List (K × V))
      → IsSorted cmp xs
      → ((q : K) (v : V) → find cmp q xs ≡ some v → P v)
      → AllValues P xs
  unfolding find
  find-AllValues P [] s h = tt
  find-AllValues P ((k, v) ∷ xs) s h = (
    h k v (ground (arith, laws.cmp_refl k)),
    find-AllValues P xs s.1
        (λ q u e. h q u (ground (arith, e, laws.eq_of_cmp k q, find-Above k xs s.0))),
  )
