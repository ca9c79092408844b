-- ===== src/Rbtree/Entries.antt =====
-- What a table promises, without the tree: a list of entries in the order of the keys
-- (the contract of c/src/t2u_rbtree.h).
pub mod Laws
use t2u.Common.{◌≡◌, ◌↔◌, Ordering, Option, none, some, List, [], ◌∷◌, ◌++◌}

-- The comparison is a strict total order, as the four that the program passes are.
pub record IsLawful {ℓ} {K : Type ℓ} (cmp : K → K → Ordering) : Type ℓ where
  pub cmp_refl : (a : K) → cmp a a ≡ Ordering.eq
  pub eq_of_cmp : (a b : K) → cmp a b ≡ Ordering.eq → a ≡ b
  pub lt_of_gt : (a b : K) → cmp a b ≡ Ordering.gt → cmp b a ≡ Ordering.lt
  pub gt_of_lt : (a b : K) → cmp a b ≡ Ordering.lt → cmp b a ≡ Ordering.gt
  pub lt_trans : (a b c : K) → cmp a b ≡ Ordering.lt → cmp b c ≡ Ordering.lt → cmp a c ≡ Ordering.lt

-- A value at equal keys, and another at keys that differ.
unfoldable pub at_key {ℓ} : {A : Type ℓ} → Ordering → A → A → A
at_key Ordering.eq x y = x
at_key _ x y = y

module _ {ℓ κ} {K : Type ℓ} {V : Type κ} where
  abbrev pub AllKeys : (K → Type 0) → List (K × V) → Type 0
  AllKeys P [] = Unit
  AllKeys P ((k, v) ∷ es) = P k × AllKeys P es

  abbrev pub AllValues : (V → Type 0) → List (K × V) → Type 0
  AllValues P [] = Unit
  AllValues P ((k, v) ∷ es) = P v × AllValues P es

  pub AllKeys-append :
      (P : K → Type 0) (xs ys : List (K × V)) → AllKeys P (xs ++ ys) ↔ (AllKeys P xs × AllKeys P ys)
  AllKeys-append P [] ys = (λ h. (tt, h), λ h. h.1)
  AllKeys-append P ((k, v) ∷ xs) ys = (
    λ h. let (a, b) = (AllKeys-append P xs ys).0 h.1 in ((h.0, a), b),
    λ h. (h.0.0, (AllKeys-append P xs ys).1 (h.0.1, h.1)),
  )

  pub AllKeys-imp :
      (P Q : K → Type 0) (xs : List (K × V)) → ((k : K) → P k → Q k) → AllKeys P xs → AllKeys Q xs
  AllKeys-imp P Q [] f h = tt
  AllKeys-imp P Q ((k, v) ∷ xs) f h = (f k h.0, AllKeys-imp P Q xs f h.1)

module _ {ℓ κ} {K : Type ℓ} {V : Type κ} (cmp : K → K → Ordering) where
  unfoldable pub find : K → List (K × V) → Option V
  find q [] = none
  find q ((k, v) ∷ es) = elim (cmp k q) [ Ordering.eq ↦ some v | _ ↦ find q es ]

  -- A key that is there keeps its entry.
  unfoldable pub put : K → V → List (K × V) → List (K × V)
  put q w [] = (q, w) ∷ []
  put q w ((k, v) ∷ es) = elim (cmp k q) [
    | Ordering.lt ↦ (k, v) ∷ put q w es
    | Ordering.eq ↦ (k, v) ∷ es
    | Ordering.gt ↦ (q, w) ∷ (k, v) ∷ es
  ]

  unfoldable pub drop_key : K → List (K × V) → List (K × V)
  drop_key q [] = []
  drop_key q ((k, v) ∷ es) = elim (cmp k q) [ Ordering.eq ↦ es | _ ↦ (k, v) ∷ drop_key q es ]

  -- A write through the data pointer of an entry.
  unfoldable pub change : K → (V → V) → List (K × V) → List (K × V)
  change q f [] = []
  change q f ((k, v) ∷ es) = elim (cmp k q) [
    | Ordering.eq ↦ (k, f v) ∷ es
    | _ ↦ (k, v) ∷ change q f es
  ]

  abbrev pub Below : K → List (K × V) → Type 0
  Below q = AllKeys (λ k. cmp k q ≡ Ordering.lt)

  abbrev pub Above : K → List (K × V) → Type 0
  Above q = AllKeys (λ k. cmp k q ≡ Ordering.gt)

  abbrev pub IsSorted : List (K × V) → Type 0
  IsSorted [] = Unit
  IsSorted ((k, v) ∷ es) = Above k es × IsSorted es
