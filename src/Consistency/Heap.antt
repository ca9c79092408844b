-- ===== src/Consistency/Heap.antt =====
-- The heap of sessions and the tables of the rules (the structs of c/src/t2u_internal.h).
use t2u.Common.{ℕ, ◌≡◌, Bool, true, false, Option, none, some, List, ◌==◌, Ensures}
use t2u.Rbtree.Dict
use t2u.Rbtree.Dict.{Dict}
use t2u.Compare.{uint_ord, name_ord}
use t2u.World.{
  Ptr, connect_timeout, connect_success, timeout_check, SessionEvent, Session, Rule, World,
  connecting,
}

-- The events of a session that connects, and of one that carries data. `ev_` is never NULL.
abbrev fits_connecting : Option SessionEvent → Bool
fits_connecting none = false
fits_connecting (some ev) = elim ev.event [
  | some connect_timeout ↦ elim ev.extra_event [
    | none ↦ true
    | some connect_success ↦ true
    | some _ ↦ false
  ]
  | _ ↦ false
]

abbrev fits_connected : Option SessionEvent → Bool
fits_connected none = false
fits_connected (some ev) = elim ev.event [
  | some connect_timeout ↦ false
  | some connect_success ↦ false
  | some timeout_check ↦ false
  | _ ↦ elim ev.extra_event [ none ↦ true | some timeout_check ↦ true | some _ ↦ false ]
]

-- Whether the session is in the handshake.
abbrev pub is_connecting : Session → Bool
is_connecting s = s.status == connecting

abbrev pub fits : (is_connecting : Bool) → Option SessionEvent → Bool
fits true ev = fits_connecting ev
fits false ev = fits_connected ev

-- A session in the handshake has sent no message yet.
abbrev pub IsQuiet : Session → Type 0
IsQuiet s = is_connecting s ≡ true → (seq : ℕ) → Dict.lookup s.send_mess seq ≡ none

-- The session is one of this rule, under this handle, and in the handshake or not.
abbrev pub IsOf : Ptr → (handle : ℕ) → Bool → Session → Type 0
IsOf r handle b s = (s.rule ≡ r) × (s.handle ≡ handle) × (is_connecting s ≡ b)

-- A table of a rule lists sessions of the heap, each under its own handle.
abbrev pub Lists : (Ptr → Option Session) → Ptr → Dict ℕ Ptr → (is_connecting : Bool) → Type 0
Lists sessions r table b =
    (h p : ℕ) → Dict.lookup table h ≡ some p → Ensures (IsOf r h b) (sessions p)

-- No table leads to a freed session or rule: each session in a table is in the heap, with the
-- handle, the rule and the status that the table stands for; each session in the heap has its rule
-- in the heap, the events of its status, and no messages to send while it is in the handshake; each
-- rule of the context is in the heap.
pub record AreConsistent (rules : Dict (List ℕ) Ptr) (rule_heap : Ptr → Option Rule)
    (sessions : Ptr → Option Session) : Type 0 where
  pub named :
      (name : List ℕ) (r : Ptr)
      → Dict.lookup rules name ≡ some r
      → (rule : Rule) × (rule_heap r ≡ some rule)
  pub connected :
      (r : Ptr) (rule : Rule) → rule_heap r ≡ some rule → Lists sessions r rule.sessions false
  pub pending :
      (r : Ptr) (rule : Rule)
      → rule_heap r ≡ some rule
      → Lists sessions r rule.connecting_sessions true
  pub owned :
      (p : Ptr) (s : Session) → sessions p ≡ some s → (rule : Rule) × (rule_heap s.rule ≡ some rule)
  pub bound : (p : Ptr) (s : Session) → sessions p ≡ some s → fits (is_connecting s) s.ev ≡ true
  pub quiet : (p : Ptr) (s : Session) → sessions p ≡ some s → IsQuiet s

abbrev pub IsConsistent : World → Type 0
IsConsistent w = AreConsistent w.context.rules w.rule_heap w.session_heap
