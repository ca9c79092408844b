-- ===== src/Consistency/Handshake.antt =====
-- The handlers of a session in the handshake (c/src/t2u_session.c) keep the tables consistent.
use t2u.Common.{
  ℕ, ◌≡◌, ◌≢◌, refl, sym, zero, suc, inl, inr, true, false, none, some, List, arith, ◌==◌,
  Bool-cases, subst,
}
use t2u.Rbtree.Dict
use t2u.Rbtree.Dict.{Dict}
use t2u.Compare.{uint_ord, name_ord}
use t2u.Wire.Words.{htonl, load_word}
use t2u.Wire.Message.{MessageData}
use t2u.World.{Ptr, Session, Rule, Effect, World, established}
use t2u.World.Monad.{skip, load_session, free_session, load_rule, store_rule, update, emit}
use t2u.World.Laws.{update_self, update-update, with_session}
use t2u.Session.Close.{close_socket, t2u_delete_connecting_session}
use t2u.Session.Ending.Connected.{with_closed}
use t2u.Session.Connect.{
  establish, session_connect_success_cb, t2u_session_handle_connect_response, established_events,
}
use t2u.Session.Established.{establish_lem, success_cb_lem, connect_response_lem}
use t2u.Consistency.Outcomes.{Gives, Gives_of_call}
use t2u.Consistency.Heap.{AreConsistent, IsConsistent, IsOf, fits}
use t2u.Consistency.Changes.{
  store-AreConsistent, free_connecting-AreConsistent, establish-AreConsistent,
}

-- The session is in the heap, under this rule and handle, and in the handshake.
abbrev pub IsWaiting : Ptr → Ptr → (handle : ℕ) → World → Type 0
IsWaiting p r handle w =
    IsConsistent w × ((s : Session) × (w.session_heap p ≡ some s) × IsOf r handle true s)

pub delete_connecting_session_lem :
    (w : World) (p : Ptr) (s : Session) (rule : Rule)
    → w.session_heap p ≡ some s
    → w.rule_heap s.rule ≡ some rule
    → t2u_delete_connecting_session p w
      ≡ some (
        tt,
        record w {
          session_heap = update w.session_heap p none;
          rule_heap = update w.rule_heap s.rule (
              some (record rule {
                connecting_sessions = (Dict.remove rule.connecting_sessions s.handle).1;
              }));
          effects = with_closed s.sock w.effects;
        },
      )
unfolding t2u_delete_connecting_session close_socket load_session load_rule store_rule free_session
    emit
delete_connecting_session_lem w p s rule e f = ground arith

-- A response without an error, or the end of the session.
connect_response_error :
    (w : World) (p : Ptr) (mdata : MessageData)
    → htonl (load_word 4 mdata.payload) ≢ 0
    → t2u_session_handle_connect_response p mdata w ≡ t2u_delete_connecting_session p w
unfolding t2u_session_handle_connect_response
connect_response_error w p mdata h = ground arith

success_cb_error :
    (error : ℕ) (w : World) (p : Ptr)
    → error ≢ 0
    → session_connect_success_cb error p w ≡ t2u_delete_connecting_session p w
unfolding session_connect_success_cb
success_cb_error error w p h = ground arith

module _ (p r : Ptr) (handle : ℕ) where
  pub waiting-fits :
      (w : World) (s : Session)
      → IsConsistent w
      → w.session_heap p ≡ some s
      → IsOf r handle true s
      → fits true s.ev ≡ true
  waiting-fits w s ok e i = ground (arith, ok.bound p s e, i)

  pub delete_connecting-IsConsistent :
      (w : World) → IsWaiting p r handle w → Gives IsConsistent (t2u_delete_connecting_session p) w
  delete_connecting-IsConsistent w (ok, (s, e, i)) =
      let (rule, f) = ok.owned p s e in
      Gives_of_call IsConsistent skip _ (delete_connecting_session_lem w p s rule e f) (
        free_connecting-AreConsistent w.context.rules w.rule_heap w.session_heap ok p s rule e f
          i.2)

  pub store-IsWaiting :
      (w : World) (s t : Session)
      → IsConsistent w
      → w.session_heap p ≡ some s
      → IsOf r handle true s
      → IsOf r handle true t
      → fits true t.ev ≡ true
      → s.send_mess ≡ t.send_mess
      → IsWaiting p r handle (with_session w p t)
  store-IsWaiting w s t ok e i j b same = (
    store-AreConsistent w.context.rules w.rule_heap w.session_heap ok p s t e (ground (arith, i, j))
        (ground (arith, j, b)) (λ h seq. ground (arith, same, ok.quiet p s e i.2 seq)),
    (t, update_self w.session_heap p (some t), j),
  )

  established-fits :
      (s : Session) → fits true s.ev ≡ true → fits false (established_events s.ev) ≡ true
  established-fits s b = ground arith

  -- The session changes from one table to the other.
  establish-IsConsistent :
      (handle' : ℕ) (w : World) (s : Session) (seq ts : ℕ) (es : List Effect)
      → IsConsistent w
      → w.session_heap p ≡ some s
      → IsOf r handle true s
      → let t : Session = record s { status = established; send_seq = seq; last_send_ts = ts } in
        Gives IsConsistent (establish p handle') (record (with_session w p t) { effects = es })
  establish-IsConsistent handle' w s seq ts es ok e i =
      let (rule, h) = ok.owned p s e in
      let t : Session = record s { status = established; send_seq = seq; last_send_ts = ts } in
      let u : Session = record t { handle = handle'; ev = established_events s.ev } in
      let b = established-fits s (waiting-fits w s ok e i) in
      let x : World = record (with_session w p t) { effects = es } in
      Gives_of_call IsConsistent skip _
        (establish_lem x p t rule handle' (update_self w.session_heap p (some t)) h)
        (subst (AreConsistent w.context.rules _)
          (sym (update-update w.session_heap p (some t) (some u)))
          (establish-AreConsistent w.context.rules w.rule_heap w.session_heap ok p s rule e h u i.2
            (refl, refl, refl) b))

  pub connect_response-IsConsistent :
      (mdata : MessageData) (w : World)
      → IsWaiting p r handle w
      → Gives IsConsistent (t2u_session_handle_connect_response p mdata) w
  connect_response-IsConsistent mdata w (ok, (s, e, i)) =
      elim (Bool-cases (htonl (load_word 4 mdata.payload) == 0)) [
        | inl f ↦
            Gives_of_call IsConsistent (establish p mdata.handle) _
              (connect_response_lem w p s mdata e (ground (arith, f)))
              (establish-IsConsistent mdata.handle w s s.send_seq s.last_send_ts w.effects ok e i)
        | inr f ↦
            Gives_of_call IsConsistent (t2u_delete_connecting_session p) w
              (connect_response_error w p mdata (ground (arith, f)))
              (delete_connecting-IsConsistent w (ok, (s, e, i)))
      ]

  pub connect_success-IsConsistent :
      (error : ℕ) (w : World)
      → IsWaiting p r handle w
      → Gives IsConsistent (session_connect_success_cb error p) w
  connect_success-IsConsistent zero w (ok, (s, e, i)) =
      Gives_of_call IsConsistent (establish p s.handle) _ (success_cb_lem w p s e)
        (establish-IsConsistent s.handle w s 0 w.now _ ok e i)
  connect_success-IsConsistent (suc error) w h =
      Gives_of_call IsConsistent (t2u_delete_connecting_session p) w
        (success_cb_error (suc error) w p (omega arith)) (delete_connecting-IsConsistent w h)
