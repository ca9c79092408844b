-- ===== src/Examples/Sessions.antt =====
-- Runs of the session operations of c/src/t2u_session.c and c/src/t2u_message.c.
use t2u.Common.{ℕ, ◌≡◌, ◌==◌, if◌then◌else◌, refl, false, none, some, [], ◌∷◌}
use t2u.Rbtree.Dict
use t2u.Rbtree.Dict.{Dict}
use t2u.Compare.{uint_ord, name_ord}
use t2u.Wire.Words.{is_32bit}
use t2u.Wire.Message.{MessageData, data_request, mess_magic, to_network}
use t2u.World.{
  Session, process_tcp, timeout_check, Message, Rule, forward_server_mode, World, established,
}
use t2u.Context.Options.{new_context}
use t2u.Session.Close.{t2u_delete_connected_session}
use t2u.Session.Ending.Connected.{ended, t2u_delete_connected_session_lem}

-- A data message of two bytes.
abbrev pub hi : ℕ → MessageData
hi seq = record {
  magic = mess_magic;
  version = 1;
  oper = data_request;
  handle = 9;
  seq = seq;
  payload = 104 ∷ 105 ∷ [];
}

abbrev pub sent : ℕ → Message
sent seq = record {
  content = to_network is_32bit data_request 9 seq (104 ∷ 105 ∷ []);
  len = 22;
  seq = seq;
  send_retries = 0;
}

-- A session with one message on its way, and one received ahead of its turn.
abbrev pub session : Session
session = record {
  rule = 5;
  sock = 4;
  handle = 9;
  status = established;
  send_buffer_count = 1;
  send_seq = 1;
  send_mess = Dict.insert Dict.init 1 (sent 1);
  recv_buffer_count = 1;
  recv_seq = 0;
  recv_mess = Dict.insert Dict.init 2 (record { content = hi 2; len = 22 });
  connect_retries = 0;
  ev = some (record { event = some process_tcp; extra_event = some timeout_check });
  retry_seq = 0;
  last_send_ts = 0;
}

abbrev pub rule : Rule
rule = record {
  mode = forward_server_mode;
  listen_sock = 0;
  service = 115 ∷ [];
  sessions = Dict.insert Dict.init 9 6;
  connecting_sessions = Dict.init;
}

abbrev pub world : World
world = record {
  platform = is_32bit;
  context = new_context 3;
  rule_heap = λ r. if r == 5 then some rule else none;
  session_heap = λ p. if p == 6 then some session else none;
  handle_seq = 0;
  has_unknown_callback = false;
  now = 17;
  effects = [];
}

t2u_delete_connected_session_example :
    t2u_delete_connected_session 6 false world ≡ some (tt, ended world 6 session rule false)
t2u_delete_connected_session_example =
    t2u_delete_connected_session_lem world 6 session rule false refl refl
