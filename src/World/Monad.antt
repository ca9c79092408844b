-- ===== src/World/Monad.antt =====
-- Commands over the state. `none` is a fault: a read through a pointer to freed memory, or a failed
-- assertion.
use t2u.Common.{ℕ, Option, none, some, [], ◌∷◌, ◌++◌, ◌==◌, if◌then◌else◌}
use t2u.World.{Ptr, Session, Rule, Effect, World}

abbrev pub M : Type 0 → Type 0
M A = World → Option (A × World)

abbrev pub pure : {A : Type 0} → A → M A
pure a w = some (a, w)

abbrev pub fault : {A : Type 0} → M A
fault w = none

abbrev pub skip : M (Unit {0})
skip w = some (tt, w)

infixl 5 ◌>>=◌ ◌>>◌
abbrev pub ◌>>=◌ : {A B : Type 0} → M A → (A → M B) → M B
◌>>=◌ m f w = elim (m w) [ none ↦ none | some (a, w') ↦ f a w' ]

abbrev pub ◌>>◌ : {B : Type 0} → M (Unit {0}) → M B → M B
m >> k = m >>= λ _. k

abbrev pub update {ℓ} : {A : Type ℓ} → (ℕ → A) → ℕ → A → ℕ → A
update f p v q = if p == q then v else f q

abbrev pub from_option : {A : Type 0} → Option A → M A
from_option none w = none
from_option (some a) w = some (a, w)

-- `*session`
unfoldable pub load_session : Ptr → M Session
load_session p w = from_option (w.session_heap p) w

unfoldable pub store_session : Ptr → Session → M (Unit {0})
store_session p s w = some (tt, record w { session_heap = update w.session_heap p (some s) })

-- `free(session)`
unfoldable pub free_session : Ptr → M (Unit {0})
free_session p w = some (tt, record w { session_heap = update w.session_heap p none })

unfoldable pub load_rule : Ptr → M Rule
load_rule r w = from_option (w.rule_heap r) w

unfoldable pub store_rule : Ptr → Rule → M (Unit {0})
store_rule r x w = some (tt, record w { rule_heap = update w.rule_heap r (some x) })

abbrev pub get : M World
get w = some (w, w)

unfoldable pub emit : Effect → M (Unit {0})
emit e w = some (tt, record w { effects = w.effects ++ e ∷ [] })
