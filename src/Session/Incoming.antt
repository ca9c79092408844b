-- ===== src/Session/Incoming.antt =====
-- Data from the peer: `t2u_session_handle_data_request` (c/src/t2u_session.c).
use t2u.Common.{
  ℕ, zero, suc, ◌+◌, ◌-◌, ◌%◌, Bool, true, false, ◌&&◌, ◌||◌, not, none, some, List, [], length,
  ltb, leb, ◌==◌, if◌then◌else◌,
}
use t2u.Rbtree.Dict
use t2u.Compare.{uint_ord}
use t2u.Wire.Words.{u32, htonl, store_word}
use t2u.Wire.Message.{MessageData, to_network, take, header_size, data_response, retrans_request}
use t2u.World.{Ptr, tcp_sent, IoResult, count, would_block, failed}
use t2u.World.Monad.{M, pure, fault, skip, ◌>>=◌, ◌>>◌, load_session, store_session, get, emit}
use t2u.Session.Outgoing.{t2u_send_message_data, next32, prev32}
use t2u.Session.Close.{t2u_try_delete_connected_session, t2u_delete_connected_session_later}

-- The difference of two `uint32_t`.
abbrev pub sub32 : ℕ → ℕ → ℕ
sub32 a b = (a + (u32 - b % u32)) % u32

-- `-1` as a `uint32_t`
abbrev pub minus_one : ℕ
minus_one = u32 - 1

-- The `int` that `send` returns, as its bits.
abbrev pub as_int : IoResult → ℕ
as_int (count n) = n
as_int would_block = minus_one
as_int failed = minus_one

-- `mdata_resp`, with the result of the delivery in its payload
unfoldable pub send_response : Ptr → (handle seq value : ℕ) → M (Unit {0})
send_response p handle seq value = do
  w ← get
  t2u_send_message_data (header_size + 4)
      (to_network w.platform data_response handle seq (store_word 4 (htonl value))) p

-- `send` on the TCP socket: the result is the environment's, by the count of effects so far and the
-- bytes.
unfoldable pub tcp_send : (ℕ → List ℕ → IoResult) → ℕ → List ℕ → M IoResult
tcp_send answer sock bytes = do
  w ← get
  emit (tcp_sent sock bytes)
  pure (answer (length w.effects) bytes)

-- The test for an error of `send`.
abbrev pub is_error : IoResult → Bool
is_error (count n) = n == 0
is_error would_block = false
is_error failed = true

-- The `while (this_mdata)` loop: the message, then those of the receive queue that follow it. Each
-- further round takes one message out of the queue.
unfoldable pub deliver :
    (ℕ → List ℕ → IoResult)
    → (fuel : ℕ) → Ptr
    → (handle : ℕ) → MessageData
    → (mdata_len : ℕ) → M (Unit {0})
deliver answer zero p handle this_mdata mdata_len = fault
deliver answer (suc fuel) p handle this_mdata mdata_len = do
  s ← load_session p
  let next_seq = next32 this_mdata.seq
  let size = mdata_len - header_size
  r ← tcp_send answer s.sock (take size this_mdata.payload)
  if is_error r
      then (do
        send_response p handle this_mdata.seq minus_one
        t2u_delete_connected_session_later p)
      else (do
        send_response p handle this_mdata.seq (as_int r)
        if not (as_int r == size) then skip else (do
          s' ← load_session p
          store_session p (record s' { recv_seq = next32 s'.recv_seq })
          elim (Dict.lookup s'.recv_mess next_seq) [
            | none ↦ skip
            | some m ↦ do
              store_session p (record s' {
                recv_seq = next32 s'.recv_seq;
                recv_mess = (Dict.remove s'.recv_mess m.content.seq).1;
                recv_buffer_count = prev32 s'.recv_buffer_count;
              })
              t2u_try_delete_connected_session p
              deliver answer fuel p handle m.content m.len
          ]))

-- Where the message is ahead of its turn: it is kept once, while there is room.
unfoldable pub keep_received : Ptr → MessageData → (mdata_len : ℕ) → M (Unit {0})
keep_received p mdata mdata_len = do
  s ← load_session p
  w ← get
  let copy : MessageData = record mdata { payload = take (mdata_len - header_size) mdata.payload }
  elim (Dict.lookup s.recv_mess mdata.seq) [
    | some _ ↦ skip
    | none ↦
        if ltb s.recv_buffer_count w.context.udp_slide_window
        then store_session p (record s {
          recv_mess =
              Dict.insert s.recv_mess mdata.seq (record { content = copy; len = mdata_len });
          recv_buffer_count = next32 s.recv_buffer_count;
        })
        else skip
  ]

-- The `for` over the window: the messages up to this one that are missing are asked for, each once.
unfoldable pub ask_missing : (rounds : ℕ) → (i : ℕ) → Ptr → (seq : ℕ) → M (Unit {0})
ask_missing zero i p seq = skip
ask_missing (suc rounds) i p seq = do
  s ← load_session p
  w ← get
  let window = w.context.udp_slide_window
  let test_seq = (s.recv_seq + 1 + i) % u32
  let span1 = sub32 seq test_seq
  let span2 = sub32 s.retry_seq test_seq
  elim (Dict.lookup s.recv_mess test_seq) [
    | some _ ↦ skip
    | none ↦
        if leb span1 window && ltb window span2
        then (do
          t2u_send_message_data header_size
              (to_network w.platform retrans_request s.handle test_seq []) p
          s' ← load_session p
          store_session p (record s' { retry_seq = test_seq }))
        else skip
  ]
  ask_missing rounds (i + 1) p seq

-- `t2u_session_handle_data_request`
unfoldable pub t2u_session_handle_data_request :
    (ℕ → List ℕ → IoResult) → Ptr → MessageData → (mdata_len : ℕ) → M (Unit {0})
t2u_session_handle_data_request answer p mdata mdata_len = do
  s ← load_session p
  w ← get
  let window = w.context.udp_slide_window
  let seq_diff = sub32 mdata.seq s.recv_seq
  if ltb window seq_diff || leb seq_diff 1
      then (if seq_diff == 1
          then deliver answer (suc (length (Dict.entries s.recv_mess))) p s.handle mdata mdata_len
          else send_response p s.handle mdata.seq 0)
      else keep_received p mdata mdata_len >> ask_missing window 0 p mdata.seq
