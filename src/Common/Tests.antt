-- ===== src/Common/Tests.antt =====
-- Boolean tests on the native numbers, the conditional, and postconditions of fallible code.
use Prim.Native.Nat.{ℕ, ◌<◌, ◌≤◌, compare, Ordering}
use mathlib.Core.Path.{◌≡◌, refl, subst}
use mathlib.Core.Logic.{◌↔◌, ◌⊎◌, inl, inr}
use mathlib.Core.Bool.{Bool, true, false}
use mathlib.Core.Option.{Option, none, some}
use native.Mathlib.Omega.{arith}

abbrev pub ltb : ℕ → ℕ → Bool
ltb a b = elim (compare a b) [ Ordering.lt ↦ true | _ ↦ false ]

abbrev pub leb : ℕ → ℕ → Bool
leb a b = elim (compare a b) [ Ordering.gt ↦ false | _ ↦ true ]

infix 50 ◌==◌
abbrev pub ◌==◌ : ℕ → ℕ → Bool
a == b = elim (compare a b) [ Ordering.eq ↦ true | _ ↦ false ]

infix 1 if◌then◌else◌
abbrev pub if◌then◌else◌ {ℓ} : {A : Type ℓ} → Bool → A → A → A
if true then x else y = x
if false then x else y = y

pub ltb→lt : (a b : ℕ) → ltb a b ≡ true → a < b
ltb→lt a b h = ground arith

pub lt→ltb : (a b : ℕ) → a < b → ltb a b ≡ true
lt→ltb a b h = ground arith

pub ==_iff : (a b : ℕ) → ((a == b) ≡ true) ↔ (a ≡ b)
==_iff a b = ground arith

-- A split on a computed value that keeps the equation.
pub Bool-cases : (b : Bool) → (b ≡ true) ⊎ (b ≡ false)
Bool-cases true = inl refl
Bool-cases false = inr refl

pub Option-cases {ℓ} : {A : Type ℓ} (o : Option A) → (o ≡ none) ⊎ ((a : A) × (o ≡ some a))
Option-cases none = inl refl
Option-cases (some a) = inr (a, refl)

-- Total correctness of a fallible computation: it gives a value, and the value satisfies `P`.
abbrev pub Ensures {ℓ κ} : {A : Type ℓ} → (A → Type κ) → Option A → Type κ
Ensures P none = ⊥ × Unit
Ensures P (some a) = P a

-- Partial correctness: the value satisfies `P`, if there is one.
abbrev pub Allows {ℓ κ} : {A : Type ℓ} → (A → Type κ) → Option A → Type κ
Allows P none = Unit
Allows P (some a) = P a

infixl 5 ◌>>=◌
abbrev pub ◌>>=◌ {ℓ κ} : {A : Type ℓ} {B : Type κ} → Option A → (A → Option B) → Option B
none >>= f = none
some a >>= f = f a

module _ {ℓ κ} {A : Type ℓ} where
  pub Ensures-eq-some : {P : A → Type κ} (o : Option A) → Ensures P o → (a : A) × (o ≡ some a) × P a
  Ensures-eq-some none h = absurd h.0
  Ensures-eq-some (some a) h = (a, refl, h)

  pub Ensures_of_eq : (P : A → Type κ) (o : Option A) {a : A} → Ensures P o → o ≡ some a → P a
  Ensures_of_eq P o h e = subst (Ensures P) e h

  pub Allows_of_eq : (P : A → Type κ) (o : Option A) {a : A} → Allows P o → o ≡ some a → P a
  Allows_of_eq P o h e = subst (Allows P) e h

module _ {ℓ κ μ ν} {A : Type ℓ} {B : Type κ} where
  pub Allows-bind :
      (P : A → Type μ) (Q : B → Type ν) (o : Option A) (f : A → Option B)
      → Allows P o
      → ((a : A) → P a → Allows Q (f a))
      → Allows Q (o >>= f)
  Allows-bind P Q none f h next = tt
  Allows-bind P Q (some a) f h next = next a h

  pub Ensures-bind :
      (P : A → Type μ) (Q : B → Type ν) (o : Option A) (f : A → Option B)
      → Ensures P o
      → ((a : A) → P a → Ensures Q (f a))
      → Ensures Q (o >>= f)
  Ensures-bind P Q none f h next = absurd h.0
  Ensures-bind P Q (some a) f h next = next a h

module _ {ℓ κ} {A : Type ℓ} (P : A → Type κ) where
  pub Allows-if :
      (b : Bool) (x y : Option A) → Allows P x → Allows P y → Allows P (if b then x else y)
  Allows-if true x y hx hy = hx
  Allows-if false x y hx hy = hy

  pub Allows-all : (o : Option A) → ((a : A) → P a) → Allows P o
  Allows-all none h = tt
  Allows-all (some a) h = h a

-- A computation that cannot fail has both kinds of postcondition.
pub Ensures-and {ℓ κ μ} :
    {A : Type ℓ} (P : A → Type κ) (Q : A → Type μ) (o : Option A)
    → Ensures P o
    → Allows Q o
    → Ensures (λ a. P a × Q a) o
Ensures-and P Q none h k = absurd h.0
Ensures-and P Q (some a) h k = (h, k)

pub lt-or-le : (m n : ℕ) → (m < n) ⊎ (n ≤ m)
lt-or-le m n = ground arith
