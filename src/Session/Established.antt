-- ===== src/Session/Established.antt =====
-- The end of the handshake (c/src/t2u_session.c): the session changes from one table of its rule to
-- the other.
use t2u.Common.{ℕ, ◌+◌, ◌*◌, ◌≡◌, refl, Option, none, some, [], ◌∷◌, ◌++◌, arith}
use t2u.Rbtree.Dict
use t2u.Rbtree.Dict.{Dict}
use t2u.Compare.{uint_ord, lookup-remove, lookup-insert}
use t2u.Wire.Words.{htonl, store_word, load_word}
use t2u.Wire.Message.{MessageData, bytes_of, to_network, take, header_size, connect_response}
use t2u.World.{Ptr, Session, Rule, World, udp_sent, timer_added, established}
use t2u.World.Monad.{load_session, store_session, load_rule, store_rule, emit, update}
use t2u.World.Laws.{update_self, update-update, with_session}
use t2u.Session.Outgoing.{t2u_send_message_data_lem}
use t2u.Session.Connect.{
  established_events, establish, session_connect_response, session_connect_success_cb,
  t2u_session_handle_connect_response,
}

-- The call gives a result: the session is established under the handle, its events are those of a
-- session that carries data, and its rule lists it there and not among the connecting sessions.
abbrev pub Establishes : Ptr → Session → (handle : ℕ) → Option (Unit {0} × World) → Type 0
Establishes p s handle o =
    (w' : World) × (s' : Session) × (rule' : Rule) × (o ≡ some (tt, w'))
    × (w'.session_heap p ≡ some s')
    × (w'.rule_heap s.rule ≡ some rule')
    × (s'.status ≡ established)
    × (s'.handle ≡ handle)
    × (s'.ev ≡ established_events s.ev)
    × (Dict.lookup rule'.sessions handle ≡ some p)
    × (Dict.lookup rule'.connecting_sessions s.handle ≡ none)

pub establish_lem :
    (w : World) (p : Ptr) (s : Session) (rule : Rule) (handle : ℕ)
    → w.session_heap p ≡ some s
    → w.rule_heap s.rule ≡ some rule
    → establish p handle w
      ≡ some (
        tt,
        record w {
          session_heap =
              update w.session_heap p
                (some (record s { handle = handle; ev = established_events s.ev }));
          rule_heap = update w.rule_heap s.rule (
              some (record rule {
                connecting_sessions = (Dict.remove rule.connecting_sessions s.handle).1;
                sessions = Dict.insert rule.sessions handle p;
              }));
          effects = w.effects ++ timer_added (w.context.session_timeout * 1000) ∷ [];
        },
      )
unfolding establish load_session store_session load_rule store_rule emit
establish_lem w p s rule handle e f = ground arith

establish-Establishes :
    (w : World) (p : Ptr) (s : Session) (rule : Rule) (handle : ℕ)
    → w.session_heap p ≡ some s
    → w.rule_heap s.rule ≡ some rule
    → s.status ≡ established
    → Dict.lookup rule.sessions handle ≡ none
    → Establishes p s handle (establish p handle w)
establish-Establishes w p s rule handle e f status free =
    let x : Rule = record rule {
      connecting_sessions = (Dict.remove rule.connecting_sessions s.handle).1;
      sessions = Dict.insert rule.sessions handle p;
    } in
    let t : Session = record s { handle = handle; ev = established_events s.ev } in
    let w' : World = record w {
      session_heap = update w.session_heap p (some t);
      rule_heap = update w.rule_heap s.rule (some x);
      effects = w.effects ++ timer_added (w.context.session_timeout * 1000) ∷ [];
    } in
    (
      w',
      t,
      x,
      establish_lem w p s rule handle e f,
      update_self w.session_heap p (some t),
      update_self w.rule_heap s.rule (some x),
      status,
      refl,
      refl,
      ground (arith, lookup-insert rule.sessions handle handle p),
      ground (arith, lookup-remove rule.connecting_sessions s.handle s.handle),
    )

-- The answer that the session is there.
session_connect_response_lem :
    (w : World) (p : Ptr) (s : Session)
    → w.session_heap p ≡ some s
    → s.status ≡ established
    → session_connect_response p w
      ≡ some (
        tt,
        record (with_session w p (record s { send_seq = 0; last_send_ts = w.now })) {
          effects =
              w.effects
              ++ udp_sent (
                  take
                    (header_size + 4)
                    (bytes_of (to_network w.platform connect_response s.handle 0 (store_word 4 0))))
                ∷ [];
        },
      )
unfolding session_connect_response load_session store_session
session_connect_response_lem w p s e status =
    let t : Session = record s { send_seq = 0 } in
    ground (
      arith,
      t2u_send_message_data_lem (header_size + 4)
          (to_network w.platform connect_response s.handle 0 (store_word 4 0)) p
          (with_session w p t) t (update_self w.session_heap p (some t)),
      update-update w.session_heap p (some t)
          (some (record s { send_seq = 0; last_send_ts = w.now })),
    )

pub success_cb_lem :
    (w : World) (p : Ptr) (s : Session)
    → w.session_heap p ≡ some s
    → let t : Session = record s { status = established; send_seq = 0; last_send_ts = w.now } in
      session_connect_success_cb 0 p w
      ≡ establish p s.handle (record (with_session w p t) {
        effects =
            w.effects
            ++ udp_sent (
                take
                  (header_size + 4)
                  (bytes_of (to_network w.platform connect_response s.handle 0 (store_word 4 0))))
              ∷ [];
      })
unfolding session_connect_success_cb load_session store_session
success_cb_lem w p s e =
    let t : Session = record s { status = established } in
    ground (
      arith,
      session_connect_response_lem (with_session w p t) p t (update_self w.session_heap p (some t))
          refl,
      update-update w.session_heap p (some t)
          (some (record t { send_seq = 0; last_send_ts = w.now })),
    )

-- For a session and its rule in the heaps, whose handle no session of `sessions_` has: when the TCP
-- connection of the server is there, `session_connect_success_cb_` establishes the session under its
-- own handle.
pub session_connect_success_cb-Establishes :
    (w : World) (p : Ptr) (s : Session) (rule : Rule)
    → w.session_heap p ≡ some s
    → w.rule_heap s.rule ≡ some rule
    → Dict.lookup rule.sessions s.handle ≡ none
    → Establishes p s s.handle (session_connect_success_cb 0 p w)
session_connect_success_cb-Establishes w p s rule e f free =
    let t : Session = record s { status = established; send_seq = 0; last_send_ts = w.now } in
    rw (success_cb_lem w p s e) (
      establish-Establishes _ p t rule s.handle (update_self w.session_heap p (some t)) f refl free)

pub connect_response_lem :
    (w : World) (p : Ptr) (s : Session) (mdata : MessageData)
    → w.session_heap p ≡ some s
    → htonl (load_word 4 mdata.payload) ≡ 0
    → t2u_session_handle_connect_response p mdata w
      ≡ establish p mdata.handle (with_session w p (record s { status = established }))
unfolding t2u_session_handle_connect_response load_session store_session
connect_response_lem w p s mdata e h = ground arith

-- For a session and its rule in the heaps: a response without an error, under a handle that no
-- session of `sessions_` has, makes `t2u_session_handle_connect_response` establish the session
-- under the handle of the response.
pub t2u_session_handle_connect_response-Establishes :
    (w : World) (p : Ptr) (s : Session) (rule : Rule) (mdata : MessageData)
    → w.session_heap p ≡ some s
    → w.rule_heap s.rule ≡ some rule
    → htonl (load_word 4 mdata.payload) ≡ 0
    → Dict.lookup rule.sessions mdata.handle ≡ none
    → Establishes p s mdata.handle (t2u_session_handle_connect_response p mdata w)
t2u_session_handle_connect_response-Establishes w p s rule mdata e f h free =
    let t : Session = record s { status = established } in
    rw (connect_response_lem w p s mdata e h) (
      establish-Establishes _ p t rule mdata.handle (update_self w.session_heap p (some t)) f refl
        free)
