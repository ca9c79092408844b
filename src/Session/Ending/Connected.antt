-- ===== src/Session/Ending/Connected.antt =====
-- `t2u_delete_connected_session` as a whole (c/src/t2u_session.c).
use t2u.Common.{
  ℕ, suc, ◌≡◌, ap, ◌∙◌, Bool, true, false, Option, none, some, List, [], ◌∷◌, ◌++◌, arith, length,
  ◌==◌, if◌then◌else◌, Ensures-eq-some,
}
use t2u.Rbtree.Dict
use t2u.Rbtree.Dict.{Dict}
use t2u.Compare.{uint_ord}
use t2u.Wire.Message.{bytes_of, to_network, take, close_request, header_size}
use t2u.World.{Ptr, Session, Received, Rule, Effect, udp_sent, closed, World}
use t2u.World.Monad.{
  M, ◌>>=◌, ◌>>◌, load_session, store_session, free_session, load_rule, store_rule, emit, update,
  from_option,
}
use t2u.World.Laws.{update_self, update-update, with_session}
use t2u.Session.Outgoing.{t2u_send_message_data_lem}
use t2u.Session.Close.{close_socket, clear_received, clear_sent, t2u_delete_connected_session}
use t2u.Session.Ending.{clear_received-empty, clear_sent_lem}

-- The last steps, behind the loops.
abbrev finish : Ptr → Session → M (Unit {0})
finish p s = do
  rule ← load_rule s.rule
  store_rule s.rule (record rule { sessions = (Dict.remove rule.sessions s.handle).1 })
  free_session p

-- What follows the request to close.
abbrev after_request : Ptr → Session → M (Unit {0})
after_request p s = do
  close_socket s.sock
  s' ← load_session p
  cleared ← from_option (clear_received (suc (length (Dict.entries s'.recv_mess))) s'.recv_mess)
  store_session p (record s' { recv_mess = cleared })
  clear_sent (suc (length (Dict.entries s'.send_mess))) p
  finish p s

-- The effects with the socket closed, if there is one.
abbrev pub with_closed : ℕ → List Effect → List Effect
with_closed sock es = if sock == 0 then es else es ++ closed sock ∷ []

after_request_lem :
    (w : World) (p : Ptr) (s t : Session) (d : Dict ℕ Received)
    → w.session_heap p ≡ some t
    → clear_received (suc (length (Dict.entries t.recv_mess))) t.recv_mess ≡ some d
    → after_request p s w
      ≡ (clear_sent (suc (length (Dict.entries t.send_mess))) p >> finish p s)
          (record (with_session w p (record t { recv_mess = d })) {
            effects = with_closed s.sock w.effects;
          })
unfolding close_socket load_session store_session emit
after_request_lem w p s t d e f = ground arith

-- The request to close, unless the peer has closed.
abbrev request_effects : World → Session → (sync_from_pair : Bool) → List Effect
request_effects w s true = w.effects
request_effects w s false =
    w.effects
    ++ udp_sent (take header_size (bytes_of (to_network w.platform close_request s.handle 0 [])))
      ∷ []

abbrev asked : World → Session → (sync_from_pair : Bool) → Session
asked w s true = record s { ev = none }
asked w s false = record s { ev = none; last_send_ts = w.now }

-- The world after the request to close.
abbrev requested : World → Ptr → Session → (sync_from_pair : Bool) → World
requested w p s sync_from_pair = record (with_session w p (asked w s sync_from_pair)) {
  effects = request_effects w s sync_from_pair;
}

request_lem :
    (w : World) (p : Ptr) (s : Session) (sync_from_pair : Bool)
    → w.session_heap p ≡ some s
    → t2u_delete_connected_session p sync_from_pair w
      ≡ after_request p s (requested w p s sync_from_pair)
unfolding t2u_delete_connected_session load_session store_session
request_lem w p s true e = ground arith
request_lem w p s false e =
    let t : Session = record s { ev = none } in
    let u : Session = record s { ev = none; last_send_ts = w.now } in
    ground (
      arith,
      t2u_send_message_data_lem header_size (to_network w.platform close_request s.handle 0 []) p
          (with_session w p t) t (update_self w.session_heap p (some t)),
      update-update w.session_heap p (some t) (some u),
    )

finish_lem :
    (w : World) (p : Ptr) (s : Session) (rule : Rule)
    → w.rule_heap s.rule ≡ some rule
    → finish p s w
      ≡ some (
        tt,
        record w {
          session_heap = update w.session_heap p none;
          rule_heap =
              update w.rule_heap s.rule
                (some (record rule { sessions = (Dict.remove rule.sessions s.handle).1 }));
        },
      )
unfolding load_rule store_rule free_session
finish_lem w p s rule e = ground arith

-- The world without the session: it is freed, its rule does not list its handle any more, the peer
-- has been asked to close unless it has closed itself, and the socket is closed, if there is one.
abbrev pub ended : World → Ptr → Session → Rule → (sync_from_pair : Bool) → World
ended w p s rule sync_from_pair = record w {
  session_heap = update w.session_heap p none;
  rule_heap =
      update w.rule_heap s.rule
        (some (record rule { sessions = (Dict.remove rule.sessions s.handle).1 }));
  effects = with_closed s.sock (request_effects w s sync_from_pair);
}

-- For a session and its rule in the heaps, `t2u_delete_connected_session` never faults and never
-- runs out of fuel, whatever the queues hold. It frees the session, takes its handle out of the
-- rule, sends a request to close unless `sync_from_pair`, and closes the socket, if there is one. It
-- changes nothing else.
pub t2u_delete_connected_session_lem :
    (w : World) (p : Ptr) (s : Session) (rule : Rule) (sync_from_pair : Bool)
    → w.session_heap p ≡ some s
    → w.rule_heap s.rule ≡ some rule
    → t2u_delete_connected_session p sync_from_pair w ≡ some (tt, ended w p s rule sync_from_pair)
t2u_delete_connected_session_lem w p s rule sync e f =
    let t = asked w s sync in
    let v = requested w p s sync in
    let (d, g, _) =
      Ensures-eq-some (clear_received (suc (length (Dict.entries t.recv_mess))) t.recv_mess) (
        clear_received-empty (suc (length (Dict.entries t.recv_mess))) t.recv_mess (omega arith)) in
    let u : Session = record t { recv_mess = d } in
    let x : World = record (with_session v p u) { effects = with_closed s.sock v.effects } in
    let (s', h, _) =
      clear_sent_lem (suc (length (Dict.entries t.send_mess))) x p u
        (update_self v.session_heap p (some u)) (omega arith) in
    request_lem w p s sync e
    ∙ after_request_lem v p s t d (update_self w.session_heap p (some t)) g
    ∙ ap
        (λ o. elim o as (λ _. Option (Unit {0} × World)) [
          | none ↦ none
          | some (_, w') ↦ finish p s w'
        ])
        h
    ∙ finish_lem (with_session x p s') p s rule f
    ∙ ap (λ heap. some (tt, record (ended w p s rule sync) { session_heap = heap }))
        (update-update x.session_heap p (some s') none
          ∙ update-update v.session_heap p (some u) none
          ∙ update-update w.session_heap p (some t) none)
