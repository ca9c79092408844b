-- ===== src/Session/Tunnel.antt =====
-- From the TCP socket of one side to that of the other: `t2u_add_request_message`
-- (c/src/t2u_message.c), the datagram, `process_udp_cb_` (c/src/t2u_context.c) and
-- `t2u_session_handle_data_request` (c/src/t2u_session.c).
use t2u.Common.{
  ℕ, ◌+◌, ◌-◌, ◌<◌, ◌≤◌, ◌≡◌, ◌≢◌, refl, ap, ◌∙◌, sym, true, some, List, [], ◌∷◌, ◌++◌, arith,
  length, length-append,
}
use t2u.Compare.{uint_ord}
use t2u.Wire.Words.{u32, u64, Platform}
use t2u.Wire.Message.{
  bytes_of, to_network, take, drop, header_size, payload_max, mess_buffer_max, mess_magic,
  data_request,
}
use t2u.Wire.RoundTrip.{carried, length-sent, receive-bytes_of}
use t2u.World.{Ptr, Session, Received, Effect, udp_sent, timer_added, closing, World, count}
use t2u.Session.Outgoing.{t2u_add_request_message, next32}
use t2u.Session.Incoming.{t2u_session_handle_data_request}
use t2u.Session.Window.{packet, t2u_add_request_message_lem}
use t2u.Session.Delivery.{IsQueue, body}
use t2u.Session.Stream.{tcp_stream, bodies, run, handle_data_request-Streams}
use t2u.Rule.{find_session_in_context}
use t2u.Context.Dispatch.{System, dispatch, with_session, process_udp_cb}

take-append : (bs rest : List ℕ) → take (length bs) (bs ++ rest) ≡ bs
take-append [] rest = refl
take-append (b ∷ bs) rest = ap (◌∷◌ b) (take-append bs rest)

take-length : (bs : List ℕ) → take (length bs) bs ≡ bs
take-length [] = refl
take-length (b ∷ bs) = ap (◌∷◌ b) (take-length bs)

-- The message as it arrives, in the buffer that it was read into.
abbrev pub arrived : Platform → (handle seq : ℕ) → (payload old : List ℕ) → Received
arrived platform handle seq payload old = record {
  content = record {
    magic = mess_magic;
    version = 1;
    oper = data_request;
    handle = carried platform handle;
    seq = seq;
    payload = payload ++ drop (header_size + length payload) old;
  };
  len = header_size + length payload;
}

body-arrived :
    (platform : Platform) (handle seq : ℕ) (payload old : List ℕ)
    → body (arrived platform handle seq payload old) ≡ payload
body-arrived platform handle seq payload old =
    ap (λ n. take n (payload ++ drop (header_size + length payload) old)) same
    ∙ take-append payload (drop (header_size + length payload) old)
  where
    same : header_size + length payload - header_size ≡ length payload
    same = omega arith

process_udp_cb_data :
    (sys : System) (old : List ℕ) (w : World) (p : Ptr) (handle seq : ℕ) (payload : List ℕ)
    → handle < u64
    → seq < u32
    → header_size + length payload ≤ length old
    → find_session_in_context (carried w.platform handle) true w ≡ some (some p, w)
    → let m = arrived w.platform handle seq payload old in
      process_udp_cb sys old (bytes_of (to_network w.platform data_request handle seq payload)) w
      ≡ t2u_session_handle_data_request sys.tcp_answer p m.content m.len w
unfolding process_udp_cb dispatch with_session
process_udp_cb_data sys old w p handle seq payload hh hs fits found = ground (
  arith,
  length-sent w.platform data_request handle seq payload,
  receive-bytes_of w.platform data_request handle seq payload old (omega arith) hh hs fits,
  found,
)

-- A message that holds a payload is sent whole.
take_sent :
    (platform : Platform) (handle seq : ℕ) (payload : List ℕ)
    → let bytes = bytes_of (to_network platform data_request handle seq payload) in
      take (header_size + length payload) bytes ≡ bytes
take_sent platform handle seq payload =
    let bytes = bytes_of (to_network platform data_request handle seq payload) in
    ap (λ n. take n bytes) (sym (length-sent platform data_request handle seq payload))
    ∙ take-length bytes

module _ (a b : World) (p q : Ptr) (s t : Session) (sys : System) (payload old : List ℕ) where
  -- The message as the peer finds it.
  abbrev pub expected : Received
  expected = arrived b.platform s.handle (next32 s.send_seq) payload old

  -- One side sends a datagram, and it brings the payload to the TCP socket of the other.
  abbrev pub Tunnels : Type 0
  Tunnels =
      (a' : World) × (b' : World) × (datagram : List ℕ) × (es : List Effect)
      × (t2u_add_request_message p payload a ≡ some (tt, a'))
      × (a'.effects ≡ es ++ udp_sent datagram ∷ [])
      × (process_udp_cb sys old datagram b ≡ some (tt, b'))
      × (tcp_stream t.sock b'.effects ≡ tcp_stream t.sock b.effects ++ bodies (run t expected))
      × (body expected ≡ payload)

  -- Take two sides with the same byte order macros and a session on each, so that the session of
  -- `b` is found under the handle that arrives, is not closing, holds whole messages under their
  -- own numbers in its receive queue, and waits for the number that the session of `a` gives next,
  -- and let the TCP socket of `b` take over all bytes at once. Then a payload that is not empty and
  -- fits a buffer, given to `t2u_add_request_message` on `a`, is sent as one datagram, and
  -- `process_udp_cb_` of `b` writes to the TCP socket exactly this payload and behind it, in order,
  -- the payloads that follow it without a gap in the receive queue.
  pub add_request_message-Tunnels :
      ((n : ℕ) (bytes : List ℕ) → sys.tcp_answer n bytes ≡ count (length bytes))
      → a.session_heap p ≡ some s
      → b.session_heap q ≡ some t
      → a.platform ≡ b.platform
      → s.handle < u64
      → find_session_in_context (carried b.platform s.handle) true b ≡ some (some q, b)
      → 1 ≤ length payload
      → length payload ≤ payload_max
      → length old ≡ mess_buffer_max
      → t.status ≢ closing
      → IsQueue t.recv_mess
      → s.send_seq ≡ t.recv_seq
      → t.recv_seq < u32
      → Tunnels
  add_request_message-Tunnels accepts ea eb same hh found some_bytes fits room stays queue turn hs =
      let packed = packet a s payload in
      let datagram = bytes_of packed in
      let m = expected in
      let (b', e, streams) =
        handle_data_request-Streams sys.tcp_answer accepts b q t m eb stays
          (
            omega arith,
            omega (arith, length-append payload (drop (header_size + length payload) old)),
          )
          queue (ap next32 turn) hs in
      (
        _,
        b',
        datagram,
        _,
        t2u_add_request_message_lem a p s payload ea,
        ap (λ bytes. (a.effects ++ timer_added a.context.utimeout ∷ []) ++ udp_sent bytes ∷ [])
            (take_sent a.platform s.handle (next32 s.send_seq) payload),
        ap
              (λ pl.
                process_udp_cb sys old
                  (bytes_of (to_network pl data_request s.handle (next32 s.send_seq) payload)) b)
              same
            ∙ process_udp_cb_data sys old b q s.handle (next32 s.send_seq) payload hh (omega arith)
                (omega arith) found
            ∙ e,
        streams,
        body-arrived b.platform s.handle (next32 s.send_seq) payload old,
      )
