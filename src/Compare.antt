-- ===== src/Compare.antt =====
-- The comparisons that the program gives to its trees: `compare_uint32_ptr`
-- (c/src/t2u_session.c), `compare_uint64_ptr` (c/src/t2u_rule.c) and `compare_name`
-- (c/src/t2u_context.c), with the laws of a table whose keys are numbers.
use t2u.Common.{
  ℕ, ◌≡◌, ◌≢◌, ◌⊎◌, inl, inr, refl, Option, some, Ordering, compare, none, List, [], ◌∷◌, arith,
  ltb, ◌==◌, if◌then◌else◌, ◌∙◌,
}
use t2u.Rbtree.Entries.{at_key, IsLawful}
use t2u.Rbtree.Entries.Laws.{or_else, map_some}
use t2u.Rbtree.Dict
use t2u.Rbtree.Dict.{Ord, Dict}

-- The 32-bit and the 64-bit comparison are the same text over the two types.
unfoldable pub compare_uint_ptr : ℕ → ℕ → Ordering
compare_uint_ptr a b = if ltb b a then Ordering.gt else if ltb a b then Ordering.lt else Ordering.eq

pub compare_uint_ptr-IsLawful : IsLawful compare_uint_ptr
unfolding compare_uint_ptr
compare_uint_ptr-IsLawful = ground arith

instance abbrev pub uint_ord : Ord ℕ
uint_ord = record { cmp = compare_uint_ptr; lawful = compare_uint_ptr-IsLawful }

-- `strcmp` of two texts, without their terminators.
unfoldable pub compare_name : List ℕ → List ℕ → Ordering
compare_name [] [] = Ordering.eq
compare_name [] (b ∷ bs) = Ordering.lt
compare_name (a ∷ as_) [] = Ordering.gt
compare_name (a ∷ as_) (b ∷ bs) = elim (compare a b) [
  | Ordering.lt ↦ Ordering.lt
  | Ordering.eq ↦ compare_name as_ bs
  | Ordering.gt ↦ Ordering.gt
]

compare_name_refl : (a : List ℕ) → compare_name a a ≡ Ordering.eq
unfolding compare_name
compare_name_refl [] = refl
compare_name_refl (a ∷ xs) = ground (arith, compare_name_refl xs)

compare_name_eq : (a b : List ℕ) → compare_name a b ≡ Ordering.eq → a ≡ b
unfolding compare_name
compare_name_eq [] [] e = refl
compare_name_eq [] (b ∷ bs) e = cc
compare_name_eq (a ∷ xs) [] e = cc
compare_name_eq (a ∷ xs) (b ∷ bs) e = ground (arith, compare_name_eq xs bs)

compare_name_lt : (a b : List ℕ) → compare_name a b ≡ Ordering.gt → compare_name b a ≡ Ordering.lt
unfolding compare_name
compare_name_lt [] [] e = cc
compare_name_lt [] (b ∷ bs) e = cc
compare_name_lt (a ∷ xs) [] e = refl
compare_name_lt (a ∷ xs) (b ∷ bs) e = ground (arith, compare_name_lt xs bs)

compare_name_gt : (a b : List ℕ) → compare_name a b ≡ Ordering.lt → compare_name b a ≡ Ordering.gt
unfolding compare_name
compare_name_gt [] [] e = cc
compare_name_gt [] (b ∷ bs) e = refl
compare_name_gt (a ∷ xs) [] e = cc
compare_name_gt (a ∷ xs) (b ∷ bs) e = ground (arith, compare_name_gt xs bs)

compare_name_trans :
    (a b c : List ℕ)
    → compare_name a b ≡ Ordering.lt
    → compare_name b c ≡ Ordering.lt
    → compare_name a c ≡ Ordering.lt
unfolding compare_name
compare_name_trans [] [] c e f = cc
compare_name_trans [] (b ∷ bs) [] e f = cc
compare_name_trans [] (b ∷ bs) (c ∷ cs) e f = refl
compare_name_trans (a ∷ xs) [] c e f = cc
compare_name_trans (a ∷ xs) (b ∷ bs) [] e f = cc
compare_name_trans (a ∷ xs) (b ∷ bs) (c ∷ cs) e f = ground (arith, compare_name_trans xs bs cs)

-- The comparison of service names is a total order whose equal names are equal.
pub compare_name-IsLawful : IsLawful compare_name
compare_name-IsLawful = record {
  cmp_refl = compare_name_refl;
  eq_of_cmp = compare_name_eq;
  lt_of_gt = compare_name_lt;
  gt_of_lt = compare_name_gt;
  lt_trans = compare_name_trans;
}

instance abbrev pub name_ord : Ord (List ℕ)
name_ord = record { cmp = compare_name; lawful = compare_name-IsLawful }

at_key_uint {ℓ} :
    {A : Type ℓ} (k q : ℕ) (x y : A) → at_key (compare_uint_ptr k q) x y ≡ (if k == q then x else y)
unfolding at_key compare_uint_ptr
at_key_uint k q x y = ground arith

-- The laws of a table with numbers for keys.
module _ {ℓ} {V : Type ℓ} (d : Dict ℕ V) (k q : ℕ) where
  pub lookup-insert :
      (v : V)
      → Dict.lookup (Dict.insert d k v) q
        ≡ (if k == q then or_else (Dict.lookup d q) v else Dict.lookup d q)
  lookup-insert v = Dict.lookup-insert d k q v ∙ at_key_uint k q _ _

  pub lookup-remove : Dict.lookup (Dict.remove d k).1 q ≡ (if k == q then none else Dict.lookup d q)
  lookup-remove = Dict.lookup-remove d k q ∙ at_key_uint k q _ _

  pub lookup-modify :
      (f : V → V)
      → Dict.lookup (Dict.modify d k f) q
        ≡ (if k == q then map_some f (Dict.lookup d q) else Dict.lookup d q)
  lookup-modify f = Dict.lookup-modify d k q f ∙ at_key_uint k q _ _

-- Two names are equal, or not.
pub name-cases : (a b : List ℕ) → (a ≡ b) ⊎ (a ≢ b)
name-cases a b = by_result (compare_name a b) refl
  where
    by_result : (o : Ordering) → compare_name a b ≡ o → (a ≡ b) ⊎ (a ≢ b)
    by_result Ordering.eq e = inl (compare_name_eq a b e)
    by_result Ordering.lt e = inr (λ same. ground (arith, e, same, compare_name_refl a))
    by_result Ordering.gt e = inr (λ same. ground (arith, e, same, compare_name_refl a))

-- The law of a table with texts for keys.
module _ {ℓ} {V : Type ℓ} (d : Dict (List ℕ) V) (k q : List ℕ) where
  pub lookup-remove_name_eq : k ≡ q → Dict.lookup (Dict.remove d k).1 q ≡ none
  unfolding at_key
  lookup-remove_name_eq e = Dict.lookup-remove d k q ∙ rw (← e) (rw (compare_name_refl k) refl)

  pub lookup-remove_name_ne : k ≢ q → Dict.lookup (Dict.remove d k).1 q ≡ Dict.lookup d q
  unfolding at_key
  lookup-remove_name_ne n = Dict.lookup-remove d k q ∙ ground (arith, compare_name_eq k q)

  pub lookup-insert_name_eq :
      (v : V) → k ≡ q → Dict.lookup d q ≡ none → Dict.lookup (Dict.insert d k v) q ≡ some v
  unfolding at_key
  lookup-insert_name_eq v e f = Dict.lookup-insert d k q v ∙ ground (arith, compare_name_refl k)

  pub lookup-insert_name_ne : (v : V) → k ≢ q → Dict.lookup (Dict.insert d k v) q ≡ Dict.lookup d q
  unfolding at_key
  lookup-insert_name_ne v n = Dict.lookup-insert d k q v ∙ ground (arith, compare_name_eq k q)

  -- An entry that is there already stays.
  pub lookup-insert_name_old :
      (v u : V) → Dict.lookup d k ≡ some u → Dict.lookup (Dict.insert d k v) q ≡ Dict.lookup d q
  unfolding at_key
  lookup-insert_name_old v u f = Dict.lookup-insert d k q v ∙ ground (arith, compare_name_eq k q)

  pub lookup-insert_name :
      (v : V)
      → (Dict.lookup (Dict.insert d k v) q ≡ Dict.lookup d q)
        ⊎ (Dict.lookup (Dict.insert d k v) q ≡ some v)
  lookup-insert_name v =
      rw (Dict.lookup-insert d k q v) (choose (compare_name k q) (Dict.lookup d q))
    where
      choose :
          (o : Ordering) (x : Option V)
          → (at_key o (or_else x v) x ≡ x) ⊎ (at_key o (or_else x v) x ≡ some v)
      choose Ordering.lt x = inl (unfold at_key in refl)
      choose Ordering.gt x = inl (unfold at_key in refl)
      choose Ordering.eq none = inr (unfold at_key in refl)
      choose Ordering.eq (some u) = inl (unfold at_key in refl)
