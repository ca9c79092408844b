-- ===== src/World/Laws.antt =====
-- Reads after writes in the heaps (of c/src/t2u_internal.h).
use t2u.Common.{ℕ, ◌≡◌, ◌≢◌, ap, fun_ext, Option, some, ◌==◌, arith, true}
use t2u.World.{Ptr, Session, World}
use t2u.World.Monad.{update}

pub ==_refl : (p : ℕ) → (p == p) ≡ true
==_refl p = ground arith

module _ {ℓ} {A : Type ℓ} (f : ℕ → A) (p : ℕ) where
  pub update_self : (v : A) → update f p v p ≡ v
  update_self v = ground arith

  pub update_ne : (v : A) (q : ℕ) → p ≢ q → update f p v q ≡ f q
  update_ne v q n = ground arith

  pub update-update : (v w : A) → update (update f p v) p w ≡ update f p w
  update-update v w = fun_ext λ q. ground arith

  pub update_same : (v : A) → f p ≡ v → update f p v ≡ f
  update_same v e = fun_ext λ q. ground arith

abbrev pub with_sessions : World → (Ptr → Option Session) → World
with_sessions w h = record w { session_heap = h }

-- The world with another content of one session.
abbrev pub with_session : World → Ptr → Session → World
with_session w p s = with_sessions w (update w.session_heap p (some s))

pub with_session_same :
    (w : World) (p : Ptr) (s : Session) → w.session_heap p ≡ some s → with_session w p s ≡ w
with_session_same w p s e = ap (with_sessions w) (update_same w.session_heap p (some s) e)

pub with_session_twice :
    (w : World) (p : Ptr) (s t : Session)
    → with_session (with_session w p s) p t ≡ with_session w p t
with_session_twice w p s t = ap (with_sessions w) (update-update w.session_heap p (some s) (some t))
