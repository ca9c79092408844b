-- ===== src/Session/Ahead.antt =====
-- `t2u_session_handle_data_request` (c/src/t2u_session.c) on a message that is not the next in turn.
use t2u.Common.{
  ℕ, zero, suc, ◌+◌, ◌-◌, ◌%◌, ◌<◌, ◌≤◌, ◌≡◌, refl, ap, ◌∙◌, inl, inr, Bool, true, false, ◌&&◌,
  Option, none, some, List, [], ◌∷◌, ◌++◌, arith, ltb, leb, if◌then◌else◌, Bool-cases, append-nil,
}
use t2u.Rbtree.Dict
use t2u.Rbtree.Dict.{Dict}
use t2u.Compare.{uint_ord, lookup-insert}
use t2u.Wire.Words.{u32}
use t2u.Wire.Message.{MessageData, bytes_of, to_network, take, header_size, retrans_request}
use t2u.World.{Ptr, Session, Received, Effect, udp_sent, World, IoResult}
use t2u.World.Monad.{load_session, store_session}
use t2u.World.Laws.{update_self, update-update, with_session, with_session_same}
use t2u.Session.Outgoing.{t2u_send_message_data_lem, next32}
use t2u.Session.Incoming.{sub32, keep_received, ask_missing, t2u_session_handle_data_request}
use t2u.Session.Stream.{tcp_stream, tcp_stream-append}

-- What a round of the loop asks for.
abbrev pub asked_seq : Session → ℕ → ℕ
asked_seq s i = (s.recv_seq + 1 + i) % u32

-- The test of a round.
abbrev pub is_wanted : World → Session → (i seq : ℕ) → Bool
is_wanted w s i seq = elim (Dict.lookup s.recv_mess (asked_seq s i)) [
  | some _ ↦ false
  | none ↦
      leb (sub32 seq (asked_seq s i)) w.context.udp_slide_window
      && ltb w.context.udp_slide_window (sub32 s.retry_seq (asked_seq s i))
]

pub ask_missing_skip :
    (n i seq : ℕ) (w : World) (p : Ptr) (s : Session)
    → w.session_heap p ≡ some s
    → is_wanted w s i seq ≡ false
    → ask_missing (suc n) i p seq w ≡ ask_missing n (i + 1) p seq w
unfolding ask_missing load_session
ask_missing_skip n i seq w p s e f = ground arith

abbrev retrans : World → Session → ℕ → Effect
retrans w s i = udp_sent (
    take header_size (bytes_of (to_network w.platform retrans_request s.handle (asked_seq s i) [])))

-- The world after a round that asks.
abbrev pub after_ask : World → Ptr → Session → ℕ → World
after_ask w p s i =
    record (with_session w p (record s { last_send_ts = w.now; retry_seq = asked_seq s i })) {
      effects = w.effects ++ retrans w s i ∷ [];
    }

pub ask_missing_send :
    (n i seq : ℕ) (w : World) (p : Ptr) (s : Session)
    → w.session_heap p ≡ some s
    → is_wanted w s i seq ≡ true
    → ask_missing (suc n) i p seq w ≡ ask_missing n (i + 1) p seq (after_ask w p s i)
unfolding ask_missing load_session store_session
ask_missing_send n i seq w p s e f =
    let t : Session = record s { last_send_ts = w.now } in
    ground (
      arith,
      t2u_send_message_data_lem header_size
          (to_network w.platform retrans_request s.handle (asked_seq s i) []) p w s e,
      update_self w.session_heap p (some t),
      update-update w.session_heap p (some t)
          (some (record s { last_send_ts = w.now; retry_seq = asked_seq s i })),
    )

-- The call gives a result, and the receive side of the session and the TCP streams are as before.
abbrev SameQueue : World → Ptr → Session → Option (Unit {0} × World) → Type 0
SameQueue w p s o =
    (w' : World) × (s' : Session) × (o ≡ some (tt, w'))
    × (w'.session_heap p ≡ some s')
    × (s'.recv_mess ≡ s.recv_mess)
    × (s'.recv_seq ≡ s.recv_seq)
    × (s'.recv_buffer_count ≡ s.recv_buffer_count)
    × ((sock : ℕ) → tcp_stream sock w'.effects ≡ tcp_stream sock w.effects)

ask_missing-SameQueue :
    (n i seq : ℕ) (w : World) (p : Ptr) (s : Session)
    → w.session_heap p ≡ some s
    → SameQueue w p s (ask_missing n i p seq w)
unfolding ask_missing
ask_missing-SameQueue zero i seq w p s e = (w, s, refl, e, refl, refl, refl, λ _. refl)
ask_missing-SameQueue (suc n) i seq w p s e = elim (Bool-cases (is_wanted w s i seq)) [
  | inr f ↦
      let (w', s', g, here, mess, recv, buffered, streams) =
        ask_missing-SameQueue n (i + 1) seq w p s e in
      (w', s', ask_missing_skip n i seq w p s e f ∙ g, here, mess, recv, buffered, streams)
  | inl f ↦
      let t : Session = record s { last_send_ts = w.now; retry_seq = asked_seq s i } in
      let (w', s', g, here, mess, recv, buffered, streams) =
        ask_missing-SameQueue n (i + 1) seq (after_ask w p s i) p t
          (update_self w.session_heap p (some t)) in
      (
        w',
        s',
        ask_missing_send n i seq w p s e f ∙ g,
        here,
        mess,
        recv,
        buffered,
        λ sock.
            streams sock
            ∙ tcp_stream-append sock w.effects (retrans w s i ∷ [])
            ∙ append-nil (tcp_stream sock w.effects),
      )
]

-- The message as it is kept.
abbrev pub kept : MessageData → (mdata_len : ℕ) → Received
kept mdata mdata_len = record {
  content = record mdata { payload = take (mdata_len - header_size) mdata.payload };
  len = mdata_len;
}

-- What is under a number in the queue when a message with this number came in.
abbrev pub held : World → Session → Received → Option Received
held w s m = elim (Dict.lookup s.recv_mess m.content.seq) [
  | some old ↦ some old
  | none ↦ if ltb s.recv_buffer_count w.context.udp_slide_window then some m else none
]

-- The session after `keep_received`.
abbrev pub after_keep : World → Session → Received → Session
after_keep w s m = elim (Dict.lookup s.recv_mess m.content.seq) [
  | some _ ↦ s
  | none ↦
      if ltb s.recv_buffer_count w.context.udp_slide_window
      then record s {
        recv_mess = Dict.insert s.recv_mess m.content.seq m;
        recv_buffer_count = next32 s.recv_buffer_count;
      }
      else s
]

pub keep_received_lem :
    (w : World) (p : Ptr) (s : Session) (mdata : MessageData) (mdata_len : ℕ)
    → w.session_heap p ≡ some s
    → keep_received p mdata mdata_len w
      ≡ some (tt, with_session w p (after_keep w s (kept mdata mdata_len)))
unfolding keep_received load_session store_session
keep_received_lem w p s mdata mdata_len e = ground (arith, with_session_same w p s e)

after_keep-Bound :
    (w : World) (s : Session) (m : Received)
    → s.recv_buffer_count ≤ w.context.udp_slide_window
    → w.context.udp_slide_window < u32
    → ((after_keep w s m).recv_buffer_count ≤ w.context.udp_slide_window)
      × ((after_keep w s m).recv_seq ≡ s.recv_seq)
      × (Dict.lookup (after_keep w s m).recv_mess m.content.seq ≡ held w s m)
after_keep-Bound w s m h fits =
    ground (arith, lookup-insert s.recv_mess m.content.seq m.content.seq m)

-- What is known after a message ahead of its turn.
abbrev pub Waits : World → Ptr → Session → Received → Option (Unit {0} × World) → Type 0
Waits w p s m o =
    (w' : World) × (s' : Session) × (o ≡ some (tt, w'))
    × (w'.session_heap p ≡ some s')
    × (Dict.lookup s'.recv_mess m.content.seq ≡ held w s m)
    × (s'.recv_seq ≡ s.recv_seq)
    × (s'.recv_buffer_count ≤ w.context.udp_slide_window)
    × ((sock : ℕ) → tcp_stream sock w'.effects ≡ tcp_stream sock w.effects)

module _ (answer : ℕ → List ℕ → IoResult) (w : World) (p : Ptr) (s : Session) (mdata : MessageData)
    (mdata_len : ℕ) (in_heap : w.session_heap p ≡ some s) where
  ahead_lem :
      1 < sub32 mdata.seq s.recv_seq
      → sub32 mdata.seq s.recv_seq ≤ w.context.udp_slide_window
      → t2u_session_handle_data_request answer p mdata mdata_len w
        ≡ ask_missing w.context.udp_slide_window 0 p mdata.seq
            (with_session w p (after_keep w s (kept mdata mdata_len)))
  unfolding t2u_session_handle_data_request load_session
  ahead_lem h h' = ground (arith, keep_received_lem w p s mdata mdata_len in_heap)

  -- For a session in the heap with at most as many messages kept as the window option says: a
  -- message whose number is more than one and at most the window ahead of the last one written
  -- gives a result. No TCP stream and not the number that is waited for change; under the number of
  -- the message the queue holds what it held, or else the message, if there was room; and it keeps
  -- the bound.
  pub handle_data_request-Waits :
      s.recv_buffer_count ≤ w.context.udp_slide_window
      → w.context.udp_slide_window < u32
      → 1 < sub32 mdata.seq s.recv_seq
      → sub32 mdata.seq s.recv_seq ≤ w.context.udp_slide_window
      → Waits w p s
          (kept mdata mdata_len)
          (t2u_session_handle_data_request answer p mdata mdata_len w)
  handle_data_request-Waits bound fits h h' =
      let m = kept mdata mdata_len in
      let t = after_keep w s m in
      let (few, turn, found) = after_keep-Bound w s m bound fits in
      let (w', s', g, here, mess, recv, buffered, streams) =
        ask_missing-SameQueue w.context.udp_slide_window 0 mdata.seq (with_session w p t) p t
          (update_self w.session_heap p (some t)) in
      (
        w',
        s',
        ahead_lem h h' ∙ g,
        here,
        ap (λ d. Dict.lookup d mdata.seq) mess ∙ found,
        recv ∙ turn,
        omega (arith, buffered, few),
        streams,
      )
