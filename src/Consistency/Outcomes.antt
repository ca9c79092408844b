-- ===== src/Consistency/Outcomes.antt =====
-- What holds of the world after a call of the program (c/src/t2u_session.c).
use t2u.Common.{
  ◌≡◌, refl, sym, Bool, true, false, Option, none, some, if◌then◌else◌, Ensures, subst,
}
use t2u.Compare.{uint_ord, name_ord}
use t2u.World.{World}
use t2u.World.Monad.{M, ◌>>◌}
use t2u.Consistency.Heap.{IsConsistent}
use t2u.Common.{Allows}

-- A call that gives a result, and what holds of the world then.
abbrev pub Gives : (World → Type 0) → M (Unit {0}) → World → Type 0
Gives Q m w = Ensures (λ (a, w'). Q w') (m w)

pub Gives-of_eq :
    (Q : World → Type 0) (m : M (Unit {0})) (w : World) {w' : World}
    → m w ≡ some (tt, w')
    → Q w'
    → Gives Q m w
Gives-of_eq Q m w e h = subst (Ensures (λ (a, w'). Q w')) (sym e) h

pub Gives-then :
    (P Q : World → Type 0) (m k : M (Unit {0})) (w : World)
    → Gives P m w
    → ((w' : World) → P w' → Gives Q k w')
    → Gives Q (m >> k) w
Gives-then P Q m k w h next = follow (m w) h
  where
    follow :
        (o : Option (Unit {0} × World))
        → Ensures (λ (a, w'). P w') o
        → Ensures
            (λ (a, w'). Q w')
            (elim o as (λ _. Option (Unit {0} × World)) [ none ↦ none | some (_, w') ↦ k w' ])
    follow none h = absurd h.0
    follow (some (a, w')) h = next w' h

pub Gives_of_call :
    (Q : World → Type 0) (k : M (Unit {0})) (w' : World) {o : Option (Unit {0} × World)}
    → o ≡ k w'
    → Gives Q k w'
    → Ensures (λ (a, x). Q x) o
Gives_of_call Q k w' e h = subst (Ensures (λ (a, x). Q x)) (sym e) h

pub Gives-weaken :
    (P Q : World → Type 0) (m : M (Unit {0})) (w : World)
    → ((w' : World) → P w' → Q w')
    → Gives P m w
    → Gives Q m w
Gives-weaken P Q m w f h = weaken (m w) h
  where
    weaken :
        (o : Option (Unit {0} × World)) → Ensures (λ (a, w'). P w') o → Ensures (λ (a, w'). Q w') o
    weaken none h = absurd h.0
    weaken (some (a, w')) h = f w' h

pub Gives-if :
    (Q : World → Type 0) (b : Bool) (x y : M (Unit {0})) (w : World)
    → Gives Q x w
    → Gives Q y w
    → Gives Q (if b then x else y) w
Gives-if Q true x y w h k = h
Gives-if Q false x y w h k = k

-- What holds of the world after a call, if it gives a result.
abbrev pub Permits : (World → Type 0) → M (Unit {0}) → World → Type 0
Permits Q m w = Allows (λ (a, w'). Q w') (m w)

pub Gives-Permits :
    (P Q : World → Type 0) (m : M (Unit {0})) (w : World)
    → ((w' : World) → P w' → Q w')
    → Gives P m w
    → Permits Q m w
Gives-Permits P Q m w f h = weaken (m w) h
  where
    weaken :
        (o : Option (Unit {0} × World)) → Ensures (λ (a, w'). P w') o → Allows (λ (a, w'). Q w') o
    weaken none h = tt
    weaken (some (a, w')) h = f w' h

-- A call that gives a consistent state permits no other.
pub permitted : (m : M (Unit {0})) (w : World) → Gives IsConsistent m w → Permits IsConsistent m w
permitted m w = Gives-Permits IsConsistent IsConsistent m w (λ x ok. ok)

pub Permits-then :
    (P Q : World → Type 0) (m k : M (Unit {0})) (w : World)
    → Permits P m w
    → ((w' : World) → P w' → Permits Q k w')
    → Permits Q (m >> k) w
Permits-then P Q m k w h next = follow (m w) h
  where
    follow :
        (o : Option (Unit {0} × World))
        → Allows (λ (a, w'). P w') o
        → Allows
            (λ (a, w'). Q w')
            (elim o as (λ _. Option (Unit {0} × World)) [ none ↦ none | some (_, w') ↦ k w' ])
    follow none h = tt
    follow (some (a, w')) h = next w' h

pub Permits-if :
    (Q : World → Type 0) (b : Bool) (x y : M (Unit {0})) (w : World)
    → Permits Q x w
    → Permits Q y w
    → Permits Q (if b then x else y) w
Permits-if Q true x y w h k = h
Permits-if Q false x y w h k = k

pub Permits-option {ℓ} :
    {A : Type ℓ} (Q : World → Type 0) (o : Option A) (x : M (Unit {0})) (f : A → M (Unit {0}))
    (w : World)
    → Permits Q x w
    → ((a : A) → o ≡ some a → Permits Q (f a) w)
    → Permits Q (elim o as (λ _. M (Unit {0})) [ none ↦ x | some a ↦ f a ]) w
Permits-option Q none x f w h k = h
Permits-option Q (some a) x f w h k = k a refl

pub Permits-of_eq :
    (Q : World → Type 0) (k : M (Unit {0})) (w' : World) {o : Option (Unit {0} × World)}
    → o ≡ k w'
    → Permits Q k w'
    → Allows (λ (a, x). Q x) o
Permits-of_eq Q k w' e h = subst (Allows (λ (a, x). Q x)) (sym e) h
