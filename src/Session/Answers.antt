-- ===== src/Session/Answers.antt =====
-- What comes back for a message that was sent: `t2u_message_handle_data_response`,
-- `t2u_message_handle_retrans_request` and `process_request_timeout_cb_` (c/src/t2u_message.c).
use mathlib.Core.Bool.{false}
use t2u.Common.{
  ℕ, ◌+◌, ◌-◌, ◌%◌, ◌^◌, Bool, Option, none, some, List, ◌++◌, length, ltb, ◌==◌, ◌||◌,
  if◌then◌else◌,
}
use t2u.Rbtree.Dict
use t2u.Compare.{uint_ord}
use t2u.Wire.Words.{u32, u64, htonl, load_word}
use t2u.Wire.Message.{MessageData, take, drop, header_size}
use t2u.World.{Ptr, Message, timer_added}
use t2u.World.Monad.{M, ◌>>=◌, ◌>>◌, load_session, store_session, get, emit, from_option}
use t2u.Session.Outgoing.{t2u_send_message_data, t2u_delete_request_message}
use t2u.Session.Close.{
  t2u_delete_connected_session, t2u_try_delete_connected_session,
  t2u_delete_connected_session_later,
}

-- `message`, found in the send queue of the session by its number
abbrev pub load_message : Ptr → ℕ → M Message
load_message p seq = do s ← load_session p; from_option (Dict.lookup s.send_mess seq)

-- A write through `message`.
abbrev pub change_message : Ptr → ℕ → (Message → Message) → M (Unit {0})
change_message p seq f = do
  s ← load_session p
  store_session p (record s { send_mess = Dict.modify s.send_mess seq f })

-- `memcpy(payload, payload + value, sizeof(valid_length - value))`: the size is that of an `int`,
-- whatever the lengths are. A copy that leaves the allocated payload is a fault, and so is one whose
-- two areas overlap, as they do for a value below 4: `memcpy` is undefined there.
unfoldable pub shift_payload : ℕ → List ℕ → Option (List ℕ)
shift_payload value payload =
    if ltb value 4 || ltb (length payload) (value + 4)
    then none
    else some (take 4 (drop value payload) ++ drop 4 payload)

-- `valid_length`, an `int` that is given by its bits: the length is a `size_t`, and wraps around
-- where the answers to parts of the message have brought it below the size of a header.
abbrev pub valid_length : (len : ℕ) → ℕ
valid_length len = (len + u64 - header_size) % u64 % u32

-- The sign of an `int` that is given by its bits.
abbrev pub is_negative : ℕ → Bool
is_negative value = ltb (2 ^ 31 - 1) value

-- `value`, the result in a response
abbrev pub response_value : MessageData → ℕ
response_value mdata = htonl (load_word 4 mdata.payload)

-- A part of the message was taken over: what was not is sent when the timer runs out.
unfoldable pub accept_part : Ptr → (seq value : ℕ) → M (Unit {0})
accept_part p seq value = do
  m ← load_message p seq
  payload ← from_option (shift_payload value m.content.payload)
  change_message p seq (λ (n : Message). record n {
    len = (n.len + u64 - value) % u64;
    content = record (n.content) { payload = payload };
  })

-- `t2u_message_handle_data_response`
unfoldable pub t2u_message_handle_data_response : Ptr → (seq : ℕ) → MessageData → M (Unit {0})
t2u_message_handle_data_response p seq mdata = do
  m ← load_message p seq
  let value = response_value mdata
  if value == valid_length m.len
      then t2u_delete_request_message p seq >> t2u_try_delete_connected_session p
      else if is_negative value
      then t2u_delete_connected_session p false
      else if value == 0
      then t2u_try_delete_connected_session p
      else accept_part p seq value >> t2u_try_delete_connected_session p

-- `t2u_message_handle_retrans_request`
unfoldable pub t2u_message_handle_retrans_request : Ptr → (seq : ℕ) → M (Unit {0})
t2u_message_handle_retrans_request p seq = do
  m ← load_message p seq
  t2u_send_message_data m.len m.content p

-- `process_request_timeout_cb_`
unfoldable pub process_request_timeout_cb : Ptr → (seq : ℕ) → M (Unit {0})
process_request_timeout_cb p seq = do
  m ← load_message p seq
  w ← get
  change_message p seq (λ (n : Message). record n { send_retries = n.send_retries + 1 })
  if ltb w.context.udp_slide_window m.send_retries
      then t2u_delete_connected_session_later p
      else (do emit (timer_added w.context.utimeout); t2u_send_message_data m.len m.content p)
