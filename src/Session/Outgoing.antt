-- ===== src/Session/Outgoing.antt =====
-- The send queue of a session: `t2u_send_message_data` (c/src/t2u_context.c),
-- `t2u_add_request_message` and `t2u_delete_request_message` (c/src/t2u_message.c).
use t2u.Common.{ℕ, ◌+◌, ◌-◌, ◌%◌, Option, none, some, List, [], ◌∷◌, ◌++◌, length, ◌≡◌, arith}
use t2u.Rbtree.Table.{success}
use t2u.Rbtree.Dict
use t2u.Compare.{uint_ord}
use t2u.Wire.Words.{u32}
use t2u.Wire.Message.{MessageData, bytes_of, to_network, take, data_request, header_size}
use t2u.World.{Ptr, process_tcp, SessionEvent, Message, Session, udp_sent, timer_added, World}
use t2u.World.Monad.{update, M, skip, ◌>>=◌, ◌>>◌, load_session, store_session, get, emit}

-- `t2u_send_message_data`: the first `size` bytes at `data`, and the time for the timeout check.
unfoldable pub t2u_send_message_data : (size : ℕ) → MessageData → Ptr → M (Unit {0})
t2u_send_message_data size content p = do
  s ← load_session p
  w ← get
  store_session p (record s { last_send_ts = w.now })
  emit (udp_sent (take size (bytes_of content)))

-- A 32-bit counter.
abbrev pub next32 : ℕ → ℕ
next32 n = (n + 1) % u32

abbrev pub prev32 : ℕ → ℕ
prev32 n = (n + u32 - 1) % u32

-- `t2u_add_request_message`: the payload as the next message of the queue, sent at once. (If the
-- sequence number is still in the queue, the insertion is refused; the count is raised all the same.)
unfoldable pub t2u_add_request_message : Ptr → List ℕ → M (Unit {0})
t2u_add_request_message p payload = do
  s ← load_session p
  w ← get
  let seq = next32 s.send_seq
  let content = to_network w.platform data_request s.handle seq payload
  let message : Message = record {
    content = content;
    len = header_size + length payload;
    seq = seq;
    send_retries = 0;
  }
  emit (timer_added w.context.utimeout)
  store_session p (record s {
    send_seq = seq;
    send_mess = Dict.insert s.send_mess seq message;
    send_buffer_count = next32 s.send_buffer_count;
  })
  t2u_send_message_data message.len content p

-- The event that reads the socket again, if it was taken away while the window was full.
abbrev pub rebind : Option SessionEvent → Option SessionEvent
rebind none = none
rebind (some ev) =
    some (record ev { event = elim ev.event [ none ↦ some process_tcp | some c ↦ some c ] })

-- `t2u_delete_request_message`
unfoldable pub t2u_delete_request_message : Ptr → (seq : ℕ) → M (Unit {0})
t2u_delete_request_message p seq = do
  s ← load_session p
  let (code, rest) = Dict.remove s.send_mess seq
  elim code [
    | success ↦ store_session p (record s {
      send_mess = rest;
      send_buffer_count = prev32 s.send_buffer_count;
      ev = rebind s.ev;
    })
    | _ ↦ skip
  ]

-- A datagram changes the time of the session and is one effect.
pub t2u_send_message_data_lem :
    (size : ℕ) (content : MessageData) (p : Ptr) (w : World) (s : Session)
    → w.session_heap p ≡ some s
    → t2u_send_message_data size content p w
      ≡ some (
        tt,
        record w {
          session_heap = update w.session_heap p (some (record s { last_send_ts = w.now }));
          effects = w.effects ++ udp_sent (take size (bytes_of content)) ∷ [];
        },
      )
unfolding t2u_send_message_data load_session store_session emit
t2u_send_message_data_lem size content p w s e = ground arith
