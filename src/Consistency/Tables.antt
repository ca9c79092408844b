-- ===== src/Consistency/Tables.antt =====
-- What a table of a rule (c/src/t2u_internal.h) lists after a change of the heap or of the table.
use t2u.Common.{
  ℕ, ◌≡◌, ◌≢◌, ◌⊎◌, inl, inr, Bool, Option, some, arith, ◌==◌, Bool-cases, Ensures, subst,
}
use t2u.Rbtree.Dict
use t2u.Rbtree.Dict.{Dict}
use t2u.Compare.{uint_ord, name_ord, lookup-insert, lookup-remove}
use t2u.World.{Ptr, Session}
use t2u.World.Monad.{update}
use t2u.Consistency.Heap.{IsOf, Lists, IsQuiet, is_connecting}

pub IsQuiet-of_eq : (t u : Session) → t ≡ u → IsQuiet t → IsQuiet u
IsQuiet-of_eq t u e n = subst IsQuiet e n

pub update-cases :
    {A : Type 0} (f : ℕ → Option A) (k : ℕ) (v : A) (q : ℕ) (u : A)
    → update f k (some v) q ≡ some u
    → ((k ≡ q) × (v ≡ u)) ⊎ ((k ≢ q) × (f q ≡ some u))
update-cases f k v q u e = ground arith

pub subst₂ {ℓ κ μ} :
    {A : Type ℓ} {B : Type κ} (C : A → B → Type μ) {a a' : A} {b b' : B}
    → a ≡ a'
    → b ≡ b'
    → C a b
    → C a' b'
subst₂ C {a' = a'} {b = b} e f c = subst (C a') f (subst (λ x. C x b) e c)

module _ (sessions : Ptr → Option Session) (r : Ptr) (table : Dict ℕ Ptr) (b : Bool) (p : Ptr) where
  -- A write that keeps the identity of the session.
  pub Lists-store :
      (s t : Session)
      → sessions p ≡ some s
      → IsOf s.rule s.handle (is_connecting s) t
      → Lists sessions r table b
      → Lists (update sessions p (some t)) r table b
  Lists-store s t e same l h q g = elim (Bool-cases (p == q)) [
    | inl f ↦ ground (arith, l h q g, f)
    | inr f ↦ ground (arith, l h q g, f)
  ]

  -- A write to a place that the table does not list.
  pub Lists-store_other :
      (o : Option Session)
      → ((h : ℕ) → Dict.lookup table h ≢ some p)
      → Lists sessions r table b
      → Lists (update sessions p o) r table b
  Lists-store_other o n l h q g = elim (Bool-cases (p == q)) [
    | inl f ↦ ground (arith, n h, g, f)
    | inr f ↦ ground (arith, l h q g, f)
  ]

  pub Lists-remove : (k : ℕ) → Lists sessions r table b → Lists sessions r (Dict.remove table k).1 b
  Lists-remove k l h q g = ground (arith, lookup-remove table k h, l h q)

  pub Lists-insert :
      (k : ℕ)
      → Ensures (IsOf r k b) (sessions p)
      → Lists sessions r table b
      → Lists sessions r (Dict.insert table k p) b
  Lists-insert k new l h q g = ground (arith, lookup-insert table k h p, l h q)

  -- The table lists a session only under its handle, by the rule and the status of the table.
  pub Lists-only :
      (s : Session)
      → sessions p ≡ some s
      → Lists sessions r table b
      → (h : ℕ) → ¬ IsOf r h b s
      → Dict.lookup table h ≢ some p
  Lists-only s e l h n g = n (subst (Ensures (IsOf r h b)) e (l h p g))
