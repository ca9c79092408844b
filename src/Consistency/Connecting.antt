-- ===== src/Consistency/Connecting.antt =====
-- The attempts to connect (c/src/t2u_session.c) keep the tables consistent.
use t2u.Common.{
  ℕ, ◌+◌, ◌≡◌, refl, sym, Bool, true, false, none, some, [], ◌∷◌, ◌++◌, length, arith,
  if◌then◌else◌, Ensures, subst, leb,
}
use t2u.Rbtree.Dict
use t2u.Rbtree.Dict.{Dict}
use t2u.Compare.{uint_ord, name_ord}
use t2u.Wire.Message.{MessageData, to_network, header_size, connect_request}
use t2u.World.{
  Message, Ptr, Session, Rule, World, ForwardMode, forward_client_mode, forward_server_mode,
  connects, timer_added,
}
use t2u.World.Monad.{M, skip, load_session, store_session, load_rule, store_rule, update, emit}
use t2u.World.Laws.{update_self, with_session}
use t2u.Session.Outgoing.{t2u_send_message_data, t2u_send_message_data_lem}
use t2u.Session.Close.{t2u_delete_connecting_session}
use t2u.Session.Connect.{
  ConnectResult, connected, in_progress, refused, session_connect, session_connect_timeout_cb,
  next_handle_seq, new_handle, first_events, new_session, t2u_add_connecting_session,
}
use t2u.Consistency.Outcomes.{Gives, Gives_of_call, Gives-weaken}
use t2u.Consistency.Heap.{IsConsistent, fits}
use t2u.Consistency.Changes.{add-AreConsistent}
use t2u.Consistency.Handshake.{
  IsWaiting, waiting-fits, store-IsWaiting, delete_connecting-IsConsistent,
}

module _ (p r : Ptr) (handle : ℕ) where
  pub connect_client :
      (result : ConnectResult) (w : World) (s : Session) (rule : Rule)
      → w.session_heap p ≡ some s
      → w.rule_heap s.rule ≡ some rule
      → rule.mode ≡ forward_client_mode
      → session_connect result p w
        ≡ t2u_send_message_data
            (header_size + length rule.service + 1)
            (to_network w.platform connect_request s.handle 0 (rule.service ++ 0 ∷ []))
            p
            (with_session w p (record s { send_seq = 0 }))
  unfolding session_connect load_session store_session load_rule
  connect_client result w s rule e f mode = ground arith

  connect_server :
      (result : ConnectResult) (w : World) (s : Session) (rule : Rule)
      → w.session_heap p ≡ some s
      → w.rule_heap s.rule ≡ some rule
      → rule.mode ≡ forward_server_mode
      → session_connect result p w
        ≡ (elim result as (λ _. M (Unit {0})) [
          | refused ↦ t2u_delete_connecting_session p
          | _ ↦ skip
        ])
            (record w { effects = w.effects ++ connects s.sock ∷ [] })
  unfolding session_connect load_session load_rule emit
  connect_server result w s rule e f mode = ground arith

  send_message_data-IsWaiting :
      (size : ℕ) (content : MessageData) (w : World)
      → IsWaiting p r handle w
      → Gives (IsWaiting p r handle) (t2u_send_message_data size content p) w
  send_message_data-IsWaiting size content w (ok, (s, e, i)) =
      Gives_of_call (IsWaiting p r handle) skip _ (t2u_send_message_data_lem size content p w s e) (
        store-IsWaiting p r handle w s (record s { last_send_ts = w.now }) ok e i i
          (waiting-fits p r handle w s ok e i) refl)

  pub session_connect-IsConsistent :
      (result : ConnectResult) (w : World)
      → IsWaiting p r handle w
      → Gives IsConsistent (session_connect result p) w
  session_connect-IsConsistent result w (ok, (s, e, i)) =
      let (rule, f) = ok.owned p s e in side rule f (rule.mode) refl
    where
      after :
          (o : ConnectResult) (w' : World)
          → IsWaiting p r handle w'
          → Gives IsConsistent
              (elim o as (λ _. M (Unit {0})) [
                | refused ↦ t2u_delete_connecting_session p
                | _ ↦ skip
              ])
              w'
      after connected w' h = h.0
      after in_progress w' h = h.0
      after refused w' h = delete_connecting-IsConsistent p r handle w' h

      sent :
          (size : ℕ) (content : MessageData) (w' : World)
          → IsWaiting p r handle w'
          → Gives IsConsistent (t2u_send_message_data size content p) w'
      sent size content w' h =
          Gives-weaken (IsWaiting p r handle) IsConsistent (t2u_send_message_data size content p) w'
            (λ x h'. h'.0) (send_message_data-IsWaiting size content w' h)

      side :
          (rule : Rule) (f : w.rule_heap s.rule ≡ some rule) (mode : ForwardMode)
          → rule.mode ≡ mode
          → Gives IsConsistent (session_connect result p) w
      side rule f forward_client_mode mode =
          Gives_of_call IsConsistent
            (t2u_send_message_data (header_size + length rule.service + 1)
              (to_network w.platform connect_request s.handle 0 (rule.service ++ 0 ∷ [])) p)
            _ (connect_client result w s rule e f mode)
            (sent (header_size + length rule.service + 1)
              (to_network w.platform connect_request s.handle 0 (rule.service ++ 0 ∷ [])) _
              ((store-IsWaiting p r handle w s (record s { send_seq = 0 }) ok e i i
                (waiting-fits p r handle w s ok e i) refl)))
      side rule f forward_server_mode mode =
          Gives_of_call IsConsistent
            (elim result as (λ _. M (Unit {0})) [
              | refused ↦ t2u_delete_connecting_session p
              | _ ↦ skip
            ])
            _ (connect_server result w s rule e f mode) (after result _ (ok, (s, e, i)))

  pub connect_timeout_lem :
      (result : ConnectResult) (w : World) (s : Session) (rule : Rule)
      → w.session_heap p ≡ some s
      → w.rule_heap s.rule ≡ some rule
      → let w' = with_session w p (record s { connect_retries = s.connect_retries + 1 }) in
        session_connect_timeout_cb result p w ≡ (
          if leb w.context.uretries (s.connect_retries + 1)
          then t2u_delete_connecting_session p w'
          else (elim (rule.mode) as (λ _. M (Unit {0})) [
            | forward_client_mode ↦ session_connect result p
            | forward_server_mode ↦ skip
          ])
              (record w' { effects = w.effects ++ timer_added w.context.utimeout ∷ [] }))
  unfolding session_connect_timeout_cb load_session store_session load_rule emit
  connect_timeout_lem result w s rule e f = ground arith

  pub connect_timeout-IsConsistent :
      (result : ConnectResult) (w : World)
      → IsWaiting p r handle w
      → Gives IsConsistent (session_connect_timeout_cb result p) w
  connect_timeout-IsConsistent result w (ok, (s, e, i)) =
      let (rule, f) = ok.owned p s e in
      let h =
        store-IsWaiting p r handle w s (record s { connect_retries = s.connect_retries + 1 }) ok e i
          i (waiting-fits p r handle w s ok e i) refl in
      subst (Ensures (λ (a, x). IsConsistent x)) (sym (connect_timeout_lem result w s rule e f))
        (choose (leb w.context.uretries (s.connect_retries + 1)) (rule.mode) _ _ h h)
    where
      choose :
          (b : Bool) (mode : ForwardMode) (x y : World)
          → IsWaiting p r handle x
          → IsWaiting p r handle y
          → Ensures
              (λ (a, z). IsConsistent z)
              (if b
                then t2u_delete_connecting_session p x
                else (elim mode as (λ _. M (Unit {0})) [
                  | forward_client_mode ↦ session_connect result p
                  | forward_server_mode ↦ skip
                ])
                    y)
      choose true mode x y h h' = delete_connecting-IsConsistent p r handle x h
      choose false forward_client_mode x y h h' = session_connect-IsConsistent result y h'
      choose false forward_server_mode x y h h' = h'.0

  add_connecting_lem :
      (result : ConnectResult) (w : World) (sock handle' : ℕ) (rule : Rule)
      → w.rule_heap r ≡ some rule
      → let h = new_handle handle' (next_handle_seq w.handle_seq) in
        t2u_add_connecting_session result p r sock handle' w
        ≡ session_connect result p (record w {
          handle_seq = next_handle_seq w.handle_seq;
          session_heap = update w.session_heap p (some (new_session rule r sock h));
          rule_heap = update w.rule_heap r (
              some
                (record rule { connecting_sessions = Dict.insert rule.connecting_sessions h p }));
          effects = w.effects ++ timer_added w.context.utimeout ∷ [];
        })
  unfolding t2u_add_connecting_session store_session load_rule store_rule emit
  add_connecting_lem result w sock handle' rule f = ground arith

  first-fits : (mode : ForwardMode) → fits true (some (first_events mode)) ≡ true
  first-fits forward_client_mode = refl
  first-fits forward_server_mode = refl

  new-quiet :
      (rule : Rule) (sock h seq : ℕ)
      → Dict.lookup ((new_session rule r sock h).send_mess) seq ≡ none
  new-quiet rule sock h seq = Dict.lookup-init {K = ℕ} {V = Message} seq

  pub add_connecting-IsConsistent :
      (result : ConnectResult) (w : World) (sock handle' : ℕ) (rule : Rule)
      → IsConsistent w
      → w.session_heap p ≡ none
      → w.rule_heap r ≡ some rule
      → new_handle handle' (next_handle_seq w.handle_seq) ≡ handle
      → Gives IsConsistent (t2u_add_connecting_session result p r sock handle') w
  add_connecting-IsConsistent result w sock handle' rule ok e f g =
      let h = new_handle handle' (next_handle_seq w.handle_seq) in
      let t = new_session rule r sock h in
      Gives_of_call IsConsistent (session_connect result p) _
        (add_connecting_lem result w sock handle' rule f)
        (session_connect-IsConsistent result _ (
          add-AreConsistent w.context.rules w.rule_heap w.session_heap ok p r rule t e f
              (refl, refl, refl) (first-fits rule.mode) (λ c seq. new-quiet rule sock h seq),
          (t, update_self w.session_heap p (some t), (refl, g, refl)),
        ))
