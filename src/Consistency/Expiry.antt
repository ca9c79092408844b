-- ===== src/Consistency/Expiry.antt =====
-- A session whose handshake is never answered ends (`session_connect_timeout_cb_` of
-- c/src/t2u_session.c).
use t2u.Common.{
  ℕ, ◌+◌, ◌≤◌, ◌<◌, ◌≡◌, refl, sym, ap, ◌⊎◌, inl, inr, Option, none, some, List, [], ◌∷◌, ◌++◌,
  length, true, false, arith, leb, lt-or-le, Ensures, subst,
}
use t2u.Compare.{uint_ord, name_ord}
use t2u.Wire.Message.{to_network, take, bytes_of, header_size, connect_request}
use t2u.World.{
  Ptr, Session, Rule, Effect, World, ForwardMode, forward_client_mode, forward_server_mode,
  timer_added, udp_sent,
}
use t2u.World.Monad.{M, skip, ◌>>◌, update}
use t2u.World.Laws.{update_self, with_session}
use t2u.Session.Outgoing.{t2u_send_message_data_lem}
use t2u.Session.Connect.{ConnectResult, session_connect, session_connect_timeout_cb}
use t2u.Consistency.Outcomes.{Gives, Gives-then}
use t2u.Consistency.Handshake.{delete_connecting_session_lem}
use t2u.Consistency.Connecting.{connect_client, connect_timeout_lem}

-- The connect timer fires once for each result, as long as the session is there.
unfoldable pub time_out : List ConnectResult → (p : Ptr) → M (Unit {0})
time_out [] p w = some (tt, w)
time_out (result ∷ results) p w = elim (w.session_heap p) [
  | none ↦ some (tt, w)
  | some s ↦ (session_connect_timeout_cb result p >> time_out results p) w
]

-- The session was freed, or has one retry more.
abbrev Ages : Ptr → (retries : ℕ) → World → World → Type 0
Ages p retries w w' =
    (w'.session_heap p ≡ none)
    ⊎ ((s : Session) × (rule : Rule) × (w'.session_heap p ≡ some s)
        × (w'.rule_heap s.rule ≡ some rule)
        × (s.connect_retries ≡ retries + 1)
        × (w'.context ≡ w.context)
        × (retries + 1 < w.context.uretries))

module _ (p : Ptr) (w : World) (s : Session) (rule : Rule) (e : w.session_heap p ≡ some s)
    (f : w.rule_heap s.rule ≡ some rule) where
  abbrev older : Session
  older = record s { connect_retries = s.connect_retries + 1 }

  abbrev rearmed : World
  rearmed = record (with_session w p older) {
    effects = w.effects ++ timer_added w.context.utimeout ∷ [];
  }

  give_up :
      (result : ConnectResult)
      → w.context.uretries ≤ s.connect_retries + 1
      → Ensures (λ (a, x). Ages p s.connect_retries w x) (session_connect_timeout_cb result p w)
  give_up result h =
      let w' = with_session w p older in
      let deleted =
        delete_connecting_session_lem w' p older rule (update_self w.session_heap p (some older))
          f in
      let chosen : leb w.context.uretries (s.connect_retries + 1) ≡ true = ground (arith, h) in
      rw (connect_timeout_lem p s.rule s.handle result w s rule e f, chosen, deleted)
        (inl (update_self w'.session_heap p none))

  try_again :
      (result : ConnectResult)
      → s.connect_retries + 1 < w.context.uretries
      → Ensures (λ (a, x). Ages p s.connect_retries w x) (session_connect_timeout_cb result p w)
  try_again result h =
      let chosen : leb w.context.uretries (s.connect_retries + 1) ≡ false = ground (arith, h) in
      rw (connect_timeout_lem p s.rule s.handle result w s rule e f, chosen) (side rule.mode refl)
    where
      at_end :
          (heap : Ptr → Option Session) (t : Session) (es : List Effect)
          → t.rule ≡ s.rule
          → t.connect_retries ≡ s.connect_retries + 1
          → Ages p s.connect_retries w
              (record w { session_heap = update heap p (some t); effects = es })
      at_end heap t es i j = inr (
        t,
        rule,
        update_self heap p (some t),
        subst (λ r. w.rule_heap r ≡ some rule) (sym i) f,
        j,
        refl,
        h,
      )

      side :
          (mode : ForwardMode)
          → rule.mode ≡ mode
          → Ensures
              (λ (a, x). Ages p s.connect_retries w x)
              ((elim mode as (λ _. M (Unit {0})) [
                | forward_client_mode ↦ session_connect result p
                | forward_server_mode ↦ skip
              ])
                rearmed)
      side forward_client_mode mode =
          let x = with_session rearmed p (record older { send_seq = 0 }) in
          let content = to_network w.platform connect_request s.handle 0 (rule.service ++ 0 ∷ []) in
          let size = header_size + length rule.service + 1 in
          let back = update_self rearmed.session_heap p (some (record older { send_seq = 0 })) in
          rw
            (
              connect_client p s.rule s.handle result rearmed older rule
                  (update_self w.session_heap p (some older)) f mode,
              t2u_send_message_data_lem size content p x (record older { send_seq = 0 }) back,
            )
            (at_end x.session_heap (record older { send_seq = 0; last_send_ts = w.now })
              (rearmed.effects ++ udp_sent (take size (bytes_of content)) ∷ []) refl refl)
      side forward_server_mode mode = at_end w.session_heap older rearmed.effects refl refl

-- One timeout.
connect_timeout-Ages :
    (p : Ptr) (w : World) (s : Session) (rule : Rule) (result : ConnectResult)
    → w.session_heap p ≡ some s
    → w.rule_heap s.rule ≡ some rule
    → Ensures (λ (a, x). Ages p s.connect_retries w x) (session_connect_timeout_cb result p w)
connect_timeout-Ages p w s rule result e f =
    elim (lt-or-le (s.connect_retries + 1) w.context.uretries) [
      | inl h ↦ try_again p w s rule e f result h
      | inr h ↦ give_up p w s rule e f result h
    ]

time_out_stop :
    (results : List ConnectResult) (p : Ptr) (w : World)
    → w.session_heap p ≡ none
    → time_out results p w ≡ some (tt, w)
unfolding time_out
time_out_stop [] p w e = refl
time_out_stop (result ∷ results) p w e = ground (arith, e)

time_out_go :
    (result : ConnectResult) (results : List ConnectResult) (p : Ptr) (w : World) (s : Session)
    → w.session_heap p ≡ some s
    → time_out (result ∷ results) p w
      ≡ (session_connect_timeout_cb result p >> time_out results p) w
unfolding time_out
time_out_go result results p w s e = ground (arith, e)

-- A session in the heap whose rule is in the heap is freed after at most `uretries_` timeouts, less
-- those that it had, but at least one, whatever the mode of the rule and the results of `connect`, if
-- nothing else happens to it meanwhile; and none of the timeouts faults.
pub time_out-Frees :
    (results : List ConnectResult) (p : Ptr) (w : World) (s : Session) (rule : Rule)
    → w.session_heap p ≡ some s
    → w.rule_heap s.rule ≡ some rule
    → 1 ≤ length results
    → w.context.uretries ≤ s.connect_retries + length results
    → Ensures (λ (a, x). x.session_heap p ≡ none) (time_out results p w)
time_out-Frees [] p w s rule e f l h = absurd (omega arith)
time_out-Frees (result ∷ results) p w s rule e f l h = rw (time_out_go result results p w s e) (
    Gives-then (Ages p s.connect_retries w) (λ x. x.session_heap p ≡ none)
      (session_connect_timeout_cb result p) (time_out results p) w
      (connect_timeout-Ages p w s rule result e f)
      (go_on (λ x t rule' e' f' l' h'. time_out-Frees results p x t rule' e' f' l' h')))
  where
    go_on :
        ((x : World) (t : Session) (rule' : Rule)
          → x.session_heap p ≡ some t
          → x.rule_heap t.rule ≡ some rule'
          → 1 ≤ length results
          → x.context.uretries ≤ t.connect_retries + length results
          → Gives (λ y. y.session_heap p ≡ none) (time_out results p) x)
        → (x : World) → Ages p s.connect_retries w x
        → Gives (λ y. y.session_heap p ≡ none) (time_out results p) x
    go_on rest x (inl gone) = rw (time_out_stop results p x gone) gone
    go_on rest x (inr (t, rule', e', f', j, same, more)) =
        rest x t rule' e' f' (omega (arith, h, more))
          (omega (arith, h, j, ap (λ c. c.uretries) same))
