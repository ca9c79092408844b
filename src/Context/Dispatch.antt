-- ===== src/Context/Dispatch.antt =====
-- `process_udp_cb_` (c/src/t2u_context.c): what each kind of datagram does.
use t2u.Common.{
  ℕ, ◌%◌, Bool, true, false, Option, none, some, List, [], ◌∷◌, length, ◌==◌, if◌then◌else◌,
}
use t2u.Rbtree.Dict
use t2u.Compare.{uint_ord, name_ord}
use t2u.Wire.Words.{u32}
use t2u.Wire.Message.{
  MessageData, receive, take, bytes_of, of_bytes, to_host, fill_buffer, connect_request,
  connect_response, close_request, data_request, data_response, retrans_request,
}
use t2u.World.{Ptr, unknown_packet, IoResult}
use t2u.World.Monad.{M, skip, ◌>>=◌, load_session, get, emit}
use t2u.Session.Close.{t2u_delete_connected_session}
use t2u.Session.Incoming.{t2u_session_handle_data_request}
use t2u.Session.Answers.{t2u_message_handle_data_response, t2u_message_handle_retrans_request}
use t2u.Session.Connect.{ConnectResult, t2u_session_handle_connect_response}
use t2u.Rule.{find_session_in_context, t2u_rule_handle_connect_request}

-- What the system gives to the calls that a datagram may cause.
pub record System : Type 0 where
  pub tcp_answer : ℕ → List ℕ → IoResult
  pub connect_result : ConnectResult
  pub new_sock : Option ℕ
  pub new_ptr : Ptr

-- The C string at the front of the payload. Where there is no terminator up to the end of the buffer,
-- it ends there; `strcmp` would read on behind the buffer.
unfoldable pub c_string : List ℕ → List ℕ
c_string [] = []
c_string (b ∷ bs) = let rest = c_string bs in if b == 0 then [] else b ∷ rest

-- With the session of a handle, if there is one.
unfoldable pub with_session :
    (handle : ℕ) → (connected : Bool) → (Ptr → M (Unit {0})) → M (Unit {0})
with_session handle connected act = do
  found ← find_session_in_context handle connected
  elim found [ none ↦ skip | some p ↦ act p ]

-- With a message of the send queue, if there is one under the number.
unfoldable pub if_sent : Ptr → (seq : ℕ) → M (Unit {0}) → M (Unit {0})
if_sent p seq act = do
  s ← load_session p
  elim (Dict.lookup s.send_mess seq) [ none ↦ skip | some m ↦ act ]

-- The `switch`.
unfoldable pub dispatch : System → MessageData → (recv_bytes : ℕ) → M (Unit {0})
dispatch sys mdata recv_bytes =
    if mdata.oper == connect_request
    then (do
      w ← get
      elim (Dict.lookup w.context.rules (c_string mdata.payload)) [
        | none ↦ skip
        | some r ↦
            t2u_rule_handle_connect_request sys.connect_result sys.new_ptr sys.new_sock r mdata
      ])
    else if mdata.oper == connect_response
    then with_session (mdata.handle % u32) false (λ p. t2u_session_handle_connect_response p mdata)
    else if mdata.oper == data_request
    then with_session mdata.handle true
        (λ p. t2u_session_handle_data_request sys.tcp_answer p mdata recv_bytes)
    else if mdata.oper == data_response
    then with_session mdata.handle true
        (λ p. if_sent p mdata.seq (t2u_message_handle_data_response p mdata.seq mdata))
    else if mdata.oper == retrans_request
    then with_session mdata.handle true
        (λ p. if_sent p mdata.seq (t2u_message_handle_retrans_request p mdata.seq))
    else if mdata.oper == close_request
    then with_session mdata.handle true (λ p. t2u_delete_connected_session p true)
    else skip

-- `process_udp_cb_` on a datagram; `old` is what the fresh buffer holds. The callback for unknown
-- packets is given the buffer, whose header words have been converted by then.
unfoldable pub process_udp_cb : System → (old datagram : List ℕ) → M (Unit {0})
process_udp_cb sys old datagram = if length datagram == 0 then skip else (do
  w ← get
  elim (receive w.platform old datagram) [
    | some mdata ↦ dispatch sys mdata (length datagram)
    | none ↦
        if w.has_unknown_callback
        then emit (
            unknown_packet (
              take (length datagram)
                (bytes_of (to_host w.platform (of_bytes (fill_buffer datagram old))))))
        else skip
  ])
