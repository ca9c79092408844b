-- ===== src/Session/Connect.antt =====
-- How a session begins (c/src/t2u_session.c): both sides of the handshake.
use t2u.Common.{
  ℕ, ◌+◌, ◌*◌, ◌%◌, Option, none, some, [], ◌∷◌, ◌++◌, length, leb, ◌==◌, if◌then◌else◌,
}
use t2u.Rbtree.Dict
use t2u.Compare.{uint_ord}
use t2u.Wire.Words.{u32, u64, htonl, store_word, load_word}
use t2u.Wire.Message.{MessageData, to_network, header_size, connect_request, connect_response}
use t2u.World.{
  Ptr, connect_timeout, connect_success, process_tcp, timeout_check, SessionEvent, Session, Rule,
  connects, timer_added, ForwardMode, forward_client_mode, forward_server_mode, connecting,
  established,
}
use t2u.World.Monad.{
  M, skip, ◌>>=◌, ◌>>◌, load_session, store_session, load_rule, store_rule, get, emit,
}
use t2u.Session.Outgoing.{t2u_send_message_data}
use t2u.Session.Close.{t2u_delete_connecting_session}

-- What `connect` gives on a socket that does not block.
pub data ConnectResult : Type 0 where
  connected in_progress refused : ConnectResult

-- `session_connect_response_`
unfoldable pub session_connect_response : Ptr → M (Unit {0})
session_connect_response p = do
  s ← load_session p
  w ← get
  store_session p (record s { send_seq = 0 })
  let error = (if s.status == established then 0 else htonl 1)
  t2u_send_message_data (header_size + 4)
      (to_network w.platform connect_response s.handle 0 (store_word 4 error)) p

-- `session_connect_`: on the client side the request goes to the peer, on the server side the TCP
-- socket is connected.
unfoldable pub session_connect : ConnectResult → Ptr → M (Unit {0})
session_connect result p = do
  s ← load_session p
  w ← get
  rule ← load_rule s.rule
  elim rule.mode [
    | forward_client_mode ↦ do
      store_session p (record s { send_seq = 0 })
      t2u_send_message_data (header_size + length rule.service + 1)
          (to_network w.platform connect_request s.handle 0 (rule.service ++ 0 ∷ [])) p
    | forward_server_mode ↦ do
      emit (connects s.sock)
      elim result [ refused ↦ t2u_delete_connecting_session p | _ ↦ skip ]
  ]

-- The events of a session that is established. The code reads `session->ev_` without a test for
-- NULL; it is there in each consistent state (`fits` in Consistency/Heap), so `none` is no case of
-- the code.
abbrev pub established_events : Option SessionEvent → Option SessionEvent
established_events none = none
established_events (some ev) =
    some (record { event = some process_tcp; extra_event = some timeout_check })

-- The session leaves `connecting_sessions_` under its handle and enters `sessions_` under another,
-- and its events are bound anew.
unfoldable pub establish : Ptr → (handle : ℕ) → M (Unit {0})
establish p handle = do
  s ← load_session p
  w ← get
  rule ← load_rule s.rule
  store_rule s.rule (record rule {
    connecting_sessions = (Dict.remove rule.connecting_sessions s.handle).1;
    sessions = Dict.insert rule.sessions handle p;
  })
  store_session p (record s { handle = handle; ev = established_events s.ev })
  emit (timer_added (w.context.session_timeout * 1000))

-- `session_connect_success_cb_`; `error` is the `SO_ERROR` of the socket.
unfoldable pub session_connect_success_cb : (error : ℕ) → Ptr → M (Unit {0})
session_connect_success_cb error p =
    if error == 0
    then (do
      s ← load_session p
      store_session p (record s { status = established })
      session_connect_response p
      establish p s.handle)
    else t2u_delete_connecting_session p

-- `t2u_session_handle_connect_response`
unfoldable pub t2u_session_handle_connect_response : Ptr → MessageData → M (Unit {0})
t2u_session_handle_connect_response p mdata =
    if htonl (load_word 4 mdata.payload) == 0
    then (do
      s ← load_session p
      store_session p (record s { status = established })
      establish p mdata.handle)
    else t2u_delete_connecting_session p

-- `session_connect_timeout_cb_`
unfoldable pub session_connect_timeout_cb : ConnectResult → Ptr → M (Unit {0})
session_connect_timeout_cb result p = do
  s ← load_session p
  w ← get
  store_session p (record s { connect_retries = s.connect_retries + 1 })
  if leb w.context.uretries (s.connect_retries + 1) then t2u_delete_connecting_session p else (do
    emit (timer_added w.context.utimeout)
    rule ← load_rule s.rule
    elim rule.mode [ forward_client_mode ↦ session_connect result p | forward_server_mode ↦ skip ])

-- The static counter of the handles, which leaves 0 out.
abbrev pub next_handle_seq : ℕ → ℕ
next_handle_seq n = if (n + 1) % u32 == 0 then 1 else (n + 1) % u32

-- The handle of a new session: the counter on the client side; on the server side the client's, and
-- the counter in the high half.
abbrev pub new_handle : (handle handle_seq : ℕ) → ℕ
new_handle handle handle_seq = if handle == 0 then handle_seq else (handle + handle_seq * u32) % u64

abbrev pub first_events : ForwardMode → SessionEvent
first_events forward_client_mode = record { event = some connect_timeout; extra_event = none }
first_events forward_server_mode = record {
  event = some connect_timeout;
  extra_event = some connect_success;
}

-- `memset(session, 0, sizeof(t2u_session))`, and what is set at once
abbrev pub new_session : Rule → Ptr → (sock handle : ℕ) → Session
new_session rule r sock handle = record {
  rule = r;
  sock = sock;
  handle = handle;
  status = connecting;
  send_buffer_count = 0;
  send_seq = 0;
  send_mess = Dict.init;
  recv_buffer_count = 0;
  recv_seq = 0;
  recv_mess = Dict.init;
  connect_retries = 0;
  ev = some (first_events rule.mode);
  retry_seq = 0;
  last_send_ts = 0;
}

abbrev pub count_handle : ℕ → M (Unit {0})
count_handle n w = some (tt, record w { handle_seq = n })

-- `t2u_add_connecting_session`; `p` is the address that `malloc` gives.
unfoldable pub t2u_add_connecting_session :
    ConnectResult → (p r : Ptr) → (sock handle : ℕ) → M (Unit {0})
t2u_add_connecting_session result p r sock handle = do
  w ← get
  rule ← load_rule r
  let handle_seq = next_handle_seq w.handle_seq
  let handle' = new_handle handle handle_seq
  count_handle handle_seq
  store_session p (new_session rule r sock handle')
  emit (timer_added w.context.utimeout)
  store_rule r
      (record rule { connecting_sessions = Dict.insert rule.connecting_sessions handle' p })
  session_connect result p
