-- ===== src/Session/Close.antt =====
-- How a session ends: `t2u_delete_connecting_session`, `t2u_delete_connected_session` and their
-- callers (c/src/t2u_session.c).
use t2u.Common.{ℕ, zero, suc, Bool, false, Option, none, some, [], length, ◌==◌, if◌then◌else◌}
use t2u.Rbtree.Dict
use t2u.Rbtree.Dict.{Dict}
use t2u.Compare.{uint_ord}
use t2u.Wire.Message.{to_network, close_request, header_size}
use t2u.World.{Ptr, closed, closing, Received}
use t2u.World.Monad.{
  M, fault, skip, ◌>>=◌, ◌>>◌, load_session, store_session, free_session, load_rule, store_rule,
  get, emit, from_option,
}
use t2u.Session.Outgoing.{t2u_send_message_data, t2u_delete_request_message}

-- `if (session->sock_) closesocket(session->sock_);`
unfoldable pub close_socket : ℕ → M (Unit {0})
close_socket sock = if sock == 0 then skip else emit (closed sock)

-- `t2u_delete_connecting_session`. (`free` of the two queues leaves what they hold.)
unfoldable pub t2u_delete_connecting_session : Ptr → M (Unit {0})
t2u_delete_connecting_session p = do
  s ← load_session p
  close_socket s.sock
  rule ← load_rule s.rule
  store_rule s.rule
      (record rule { connecting_sessions = (Dict.remove rule.connecting_sessions s.handle).1 })
  free_session p

-- The loop that empties the receive queue: it takes away the root while there is one.
unfoldable pub clear_received : ℕ → Dict ℕ Received → Option (Dict ℕ Received)
clear_received zero d = none
clear_received (suc fuel) d = elim (Dict.root d) [
  | none ↦ some d
  | some (seq, m) ↦ clear_received fuel (Dict.remove d seq).1
]

-- The loop that empties the send queue.
unfoldable pub clear_sent : ℕ → Ptr → M (Unit {0})
clear_sent zero p = fault
clear_sent (suc fuel) p = do
  s ← load_session p
  elim (Dict.root s.send_mess) [
    | none ↦ skip
    | some (seq, m) ↦ t2u_delete_request_message p seq >> clear_sent fuel p
  ]

-- `t2u_delete_connected_session`; `sync_from_pair` is true where the peer has closed already.
unfoldable pub t2u_delete_connected_session : Ptr → (sync_from_pair : Bool) → M (Unit {0})
t2u_delete_connected_session p sync_from_pair = do
  s ← load_session p
  store_session p (record s { ev = none })
  w ← get
  if sync_from_pair
      then skip
      else t2u_send_message_data header_size (to_network w.platform close_request s.handle 0 []) p
  close_socket s.sock
  s' ← load_session p
  cleared ← from_option (clear_received (suc (length (Dict.entries s'.recv_mess))) s'.recv_mess)
  store_session p (record s' { recv_mess = cleared })
  clear_sent (suc (length (Dict.entries s'.send_mess))) p
  rule ← load_rule s.rule
  store_rule s.rule (record rule { sessions = (Dict.remove rule.sessions s.handle).1 })
  free_session p

-- `t2u_try_delete_connected_session`
unfoldable pub t2u_try_delete_connected_session : Ptr → M (Unit {0})
t2u_try_delete_connected_session p = do
  s ← load_session p
  elim (Dict.root s.send_mess) [
    | some _ ↦ skip
    | none ↦ elim (Dict.root s.recv_mess) [
      | some _ ↦ skip
      | none ↦ if s.status == closing then t2u_delete_connected_session p false else skip
    ]
  ]

-- `t2u_delete_connected_session_later`
unfoldable pub t2u_delete_connected_session_later : Ptr → M (Unit {0})
t2u_delete_connected_session_later p = do
  s ← load_session p
  store_session p (record s { status = closing })
  t2u_try_delete_connected_session p
