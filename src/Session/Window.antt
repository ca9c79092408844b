-- ===== src/Session/Window.antt =====
-- The send window: `t2u_session_process_tcp` (c/src/t2u_session.c) reads the TCP socket only while
-- the window has room.
use t2u.Common.{
  ℕ, ◌+◌, ◌<◌, ◌≤◌, ◌≡◌, ◌⊎◌, inl, inr, refl, ◌∙◌, Option, none, some, List, [], ◌∷◌, ◌++◌, arith,
  length, false, lt-or-le,
}
use t2u.Rbtree.Dict
use t2u.Rbtree.Dict.{Dict}
use t2u.Compare.{uint_ord}
use t2u.Wire.Words.{u32}
use t2u.Wire.Message.{MessageData, bytes_of, to_network, take, header_size, data_request}
use t2u.World.{Ptr, Session, Rule, udp_sent, timer_added, World}
use t2u.World.Monad.{load_session, store_session, emit}
use t2u.World.Laws.{update_self, update-update, with_session}
use t2u.Session.Outgoing.{t2u_send_message_data_lem, t2u_add_request_message, next32}
use t2u.Session.Close.{t2u_delete_connected_session}
use t2u.Session.Ending.Connected.{t2u_delete_connected_session_lem}
use t2u.Session.Tcp.{
  RecvResult, received, end_of_stream, try_again, recv_failed, unbind, t2u_session_process_tcp,
}

-- The data message that carries a payload.
abbrev pub packet : World → Session → List ℕ → MessageData
packet w s payload = to_network w.platform data_request s.handle (next32 s.send_seq) payload

-- The session after a payload has entered its send queue.
abbrev pub queued : World → Session → List ℕ → Session
queued w s payload = record s {
  send_seq = next32 s.send_seq;
  send_mess = Dict.insert s.send_mess (next32 s.send_seq) (record {
    content = packet w s payload;
    len = header_size + length payload;
    seq = next32 s.send_seq;
    send_retries = 0;
  });
  send_buffer_count = next32 s.send_buffer_count;
  last_send_ts = w.now;
}

pub t2u_add_request_message_lem :
    (w : World) (p : Ptr) (s : Session) (payload : List ℕ)
    → w.session_heap p ≡ some s
    → t2u_add_request_message p payload w
      ≡ some (
        tt,
        record (with_session w p (queued w s payload)) {
          effects =
              (w.effects ++ timer_added w.context.utimeout ∷ [])
              ++ udp_sent (take (header_size + length payload) (bytes_of (packet w s payload)))
                ∷ [];
        },
      )
unfolding t2u_add_request_message load_session store_session emit
t2u_add_request_message_lem w p s payload e =
    let t : Session = record (queued w s payload) { last_send_ts = s.last_send_ts } in
    let w' : World = record (with_session w p t) {
      effects = w.effects ++ timer_added w.context.utimeout ∷ [];
    } in
    ground (
      arith,
      t2u_send_message_data_lem (header_size + length payload) (packet w s payload) p w' t
          (update_self w.session_heap p (some t)),
      update-update w.session_heap p (some t) (some (queued w s payload)),
    )

-- The session is gone, or its send window holds at most as many messages as the option says.
abbrev pub Bounded : Ptr → World → Type 0
Bounded p w =
    (w.session_heap p ≡ none)
    ⊎ ((s : Session) × (w.session_heap p ≡ some s)
        × (s.send_buffer_count ≤ w.context.udp_slide_window))

abbrev pub Bounds : Ptr → Option (Unit {0} × World) → Type 0
Bounds p o = (w : World) × (o ≡ some (tt, w)) × Bounded p w

-- With a full window nothing is read: the event that reads is taken away.
pub process_tcp_full :
    (result : RecvResult) (w : World) (p : Ptr) (s : Session)
    → w.session_heap p ≡ some s
    → w.context.udp_slide_window ≤ s.send_buffer_count
    → t2u_session_process_tcp result p w
      ≡ some (tt, with_session w p (record s { ev = unbind s.ev }))
unfolding t2u_session_process_tcp load_session store_session
process_tcp_full result w p s e h = ground arith

pub process_tcp_received :
    (bytes : List ℕ) (w : World) (p : Ptr) (s : Session)
    → w.session_heap p ≡ some s
    → s.send_buffer_count < w.context.udp_slide_window
    → t2u_session_process_tcp (received bytes) p w ≡ t2u_add_request_message p bytes w
unfolding t2u_session_process_tcp load_session
process_tcp_received bytes w p s e h = ground arith

pub process_tcp_end :
    (result : RecvResult) (w : World) (p : Ptr) (s : Session)
    → (result ≡ end_of_stream) ⊎ (result ≡ recv_failed)
    → w.session_heap p ≡ some s
    → s.send_buffer_count < w.context.udp_slide_window
    → t2u_session_process_tcp result p w ≡ t2u_delete_connected_session p false w
unfolding t2u_session_process_tcp load_session
process_tcp_end result w p s r e h = ground arith

pub process_tcp_try_again :
    (w : World) (p : Ptr) (s : Session)
    → w.session_heap p ≡ some s
    → s.send_buffer_count < w.context.udp_slide_window
    → t2u_session_process_tcp try_again p w ≡ some (tt, w)
unfolding t2u_session_process_tcp load_session
process_tcp_try_again w p s e h = ground arith

process_tcp_room :
    (result : RecvResult) (w : World) (p : Ptr) (s : Session) (rule : Rule)
    → w.session_heap p ≡ some s
    → w.rule_heap s.rule ≡ some rule
    → s.send_buffer_count < w.context.udp_slide_window
    → w.context.udp_slide_window < u32
    → Bounds p (t2u_session_process_tcp result p w)
process_tcp_room (received bytes) w p s rule e f room fits =
    let t = queued w s bytes in
    (
      _,
      process_tcp_received bytes w p s e room ∙ t2u_add_request_message_lem w p s bytes e,
      inr (t, update_self w.session_heap p (some t), omega arith),
    )
process_tcp_room end_of_stream w p s rule e f room fits = (
  _,
  process_tcp_end end_of_stream w p s (inl refl) e room
      ∙ t2u_delete_connected_session_lem w p s rule false e f,
  inl (update_self w.session_heap p none),
)
process_tcp_room try_again w p s rule e f room fits =
    (w, process_tcp_try_again w p s e room, inr (s, e, omega arith))
process_tcp_room recv_failed w p s rule e f room fits = (
  _,
  process_tcp_end recv_failed w p s (inr refl) e room
      ∙ t2u_delete_connected_session_lem w p s rule false e f,
  inl (update_self w.session_heap p none),
)

-- For a session and its rule in the heaps, with at most as many messages under way as the window
-- option says, `t2u_session_process_tcp` gives a result for whatever `recv` gives, and afterwards the
-- session is gone or has again at most as many messages under way.
pub t2u_session_process_tcp-Bounds :
    (result : RecvResult) (w : World) (p : Ptr) (s : Session) (rule : Rule)
    → w.session_heap p ≡ some s
    → w.rule_heap s.rule ≡ some rule
    → s.send_buffer_count ≤ w.context.udp_slide_window
    → w.context.udp_slide_window < u32
    → Bounds p (t2u_session_process_tcp result p w)
t2u_session_process_tcp-Bounds result w p s rule e f bound fits =
    elim (lt-or-le s.send_buffer_count w.context.udp_slide_window) [
      | inl room ↦ process_tcp_room result w p s rule e f room fits
      | inr full ↦
          let t : Session = record s { ev = unbind s.ev } in
          (
            with_session w p t,
            process_tcp_full result w p s e full,
            inr (t, update_self w.session_heap p (some t), bound),
          )
    ]
