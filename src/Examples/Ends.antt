-- ===== src/Examples/Ends.antt =====
-- Answers, ends and beginnings of sessions (c/src/t2u_session.c, c/src/t2u_message.c).
use t2u.Common.{
  ℕ, ◌+◌, ◌*◌, ◌≡◌, ◌==◌, if◌then◌else◌, refl, true, false, none, some, List, [], ◌∷◌, ◌++◌, arith,
  Option-cases, inl, inr,
}
use t2u.Rbtree.Dict
use t2u.Rbtree.Dict.{Dict}
use t2u.Compare.{uint_ord, name_ord, lookup-insert, lookup-remove}
use t2u.Wire.Words.{u32, htonl, store_word, load_word}
use t2u.Wire.Message.{MessageData, data_response, connect_response, mess_magic}
use t2u.World.{
  Ptr, Session, Message, Received, Rule, World, IoResult, would_block, closing, connecting,
  tcp_sent,
}
use t2u.World.Laws.{with_session}
use t2u.Session.Incoming.{minus_one, t2u_session_handle_data_request}
use t2u.Session.Answers.{response_value, t2u_message_handle_data_response}
use t2u.Session.Connect.{session_connect_success_cb, t2u_session_handle_connect_response}
use t2u.Session.Delivery.{response, body}
use t2u.Session.Ending.Connected.{ended}
use t2u.Session.Acks.{Acknowledges, t2u_message_handle_data_response-Acknowledges}
use t2u.Session.Blocked.{would_block-Ends}
use t2u.Session.Lost.{Loses, handle_data_request_closing}
use t2u.Session.Established.{
  Establishes, session_connect_success_cb-Establishes,
  t2u_session_handle_connect_response-Establishes,
}
use t2u.Rule.{find_session_in_context}
use t2u.Rule.{t2u_rule_handle_connect_request}
use t2u.Rule.Requests.{IsServerRule, AddsSession, t2u_rule_handle_connect_request-AddsSession}
use t2u.Session.Connect.{in_progress}
use t2u.Rule.Search.{search, find_session_in_context-search}
use t2u.Examples.Sessions.{hi, sent, session, rule, world}
use t2u.Examples.Tunnel.{accept_all, first, second, peer}

-- A message with a word in its payload.
abbrev pub answer : (oper seq value : ℕ) → MessageData
answer oper seq value = record {
  magic = mess_magic;
  version = 1;
  oper = oper;
  handle = 9;
  seq = seq;
  payload = store_word 4 (htonl value);
}

sent_first : Dict.lookup session.send_mess 1 ≡ some (sent 1)
sent_first =
    ground (arith, lookup-insert Dict.init 1 1 (sent 1), Dict.lookup-init {K = ℕ} {V = Message} 1)

answer_value : response_value (answer data_response 1 2) ≡ 2
unfolding store_word load_word htonl
answer_value = refl

t2u_message_handle_data_response-Acknowledges_example :
    Acknowledges world 6 session 1
      (t2u_message_handle_data_response 6 1 (answer data_response 1 2) world)
t2u_message_handle_data_response-Acknowledges_example =
    t2u_message_handle_data_response-Acknowledges world 6 session (sent 1) 1
      (answer data_response 1 2) refl (omega arith) sent_first answer_value (omega arith)
      (omega arith)

abbrev block_all : ℕ → List ℕ → IoResult
block_all n bytes = would_block

would_block-Ends_example :
    (t2u_session_handle_data_request block_all 6 first.content first.len world
      ≡ some (
        tt,
        record (with_session world 6 (record session { last_send_ts = world.now })) {
          effects =
              (world.effects ++ tcp_sent session.sock (body first) ∷ [])
              ++ response world.platform session.handle first.content.seq minus_one ∷ [];
        },
      ))
    × (t2u_message_handle_data_response 6 first.content.seq (answer data_response 1 minus_one) world
        ≡ some (tt, ended world 6 session rule false))
unfolding store_word
would_block-Ends_example =
    would_block-Ends block_all world 6 session first world 6 session rule (sent 1)
      (answer data_response 1 minus_one) [] refl refl (omega arith) (omega arith) (omega arith) refl
      refl refl sent_first (omega arith) (omega arith) refl

-- A session that waits for its last message to be written.
abbrev last_session : Session
last_session = record session { status = closing; send_mess = Dict.init; send_buffer_count = 0 }

abbrev last_world : World
last_world = record world { session_heap = λ p. if p == 6 then some last_session else none }

received_second : Dict.lookup last_session.recv_mess 2 ≡ some second
received_second =
    ground (arith, lookup-insert Dict.init 2 2 second, Dict.lookup-init {K = ℕ} {V = Received} 2)

no_other : Dict.root (Dict.remove last_session.recv_mess 2).1 ≡ none
no_other = elim (Option-cases (Dict.root (Dict.remove last_session.recv_mess 2).1)) [
  | inl e ↦ e
  | inr ((k, m), e) ↦ absurd (
      ground (
        arith,
        Dict.lookup-root (Dict.remove last_session.recv_mess 2).1 k m e,
        lookup-remove last_session.recv_mess 2 k,
        lookup-insert Dict.init 2 k second,
        Dict.lookup-init {K = ℕ} {V = Received} k,
      ))
]

no_root : Dict.root {K = ℕ} {V = Message} Dict.init ≡ none
unfolding Dict.init Dict.root
no_root = refl

handle_data_request_closing_example :
    Loses accept_all last_world 6 last_session rule first second
      (t2u_session_handle_data_request accept_all 6 first.content first.len last_world)
handle_data_request_closing_example =
    handle_data_request_closing accept_all (λ n bytes. refl) last_world 6 last_session rule first
      second refl refl refl (omega arith, omega arith) refl (omega arith) no_root received_second
      no_other

-- A session in the handshake.
abbrev new_session : Session
new_session = record session { status = connecting }

abbrev new_rule : Rule
new_rule = record rule { sessions = Dict.init; connecting_sessions = Dict.insert Dict.init 9 6 }

abbrev new_world : World
new_world = record world {
  session_heap = λ p. if p == 6 then some new_session else none;
  rule_heap = λ r. if r == 5 then some new_rule else none;
}

session_connect_success_cb-Establishes_example :
    Establishes 6 new_session 9 (session_connect_success_cb 0 6 new_world)
session_connect_success_cb-Establishes_example =
    session_connect_success_cb-Establishes new_world 6 new_session new_rule refl refl
      (Dict.lookup-init {K = ℕ} {V = Ptr} 9)

answer_zero : htonl (load_word 4 (answer connect_response 0 0).payload) ≡ 0
unfolding store_word load_word htonl
answer_zero = refl

t2u_session_handle_connect_response-Establishes_example :
    Establishes 6 new_session 9
      (t2u_session_handle_connect_response 6 (answer connect_response 0 0) new_world)
t2u_session_handle_connect_response-Establishes_example =
    t2u_session_handle_connect_response-Establishes new_world 6 new_session new_rule
      (answer connect_response 0 0) refl refl answer_zero (Dict.lookup-init {K = ℕ} {V = Ptr} 9)

find_session_in_context-search_example :
    find_session_in_context 9 true peer
    ≡ elim (search peer (Dict.entries peer.context.rules) 9 true) [
      | none ↦ none
      | some found ↦ some (found, peer)
    ]
find_session_in_context-search_example = find_session_in_context-search peer 9 true

-- The rule of a server with a session from an earlier request under the client's handle 9.
abbrev server_rule : Rule
server_rule = record rule {
  sessions = Dict.init;
  connecting_sessions = Dict.insert Dict.init (9 + u32) 6;
}

abbrev server_world : World
server_world = record world {
  handle_seq = 1;
  rule_heap = λ r. if r == 5 then some server_rule else none;
}

server_rule-IsServerRule : IsServerRule server_rule
server_rule-IsServerRule k h = (
  Dict.lookup-init {K = ℕ} {V = Ptr} k,
  ground (
    arith,
    lookup-insert {V = Ptr} Dict.init (9 + u32) k 6,
    Dict.lookup-init {K = ℕ} {V = Ptr} k,
  ),
)

no_third : Dict.lookup server_rule.connecting_sessions (9 + 2 * u32) ≡ none
no_third = ground (
  arith,
  lookup-insert {V = Ptr} Dict.init (9 + u32) (9 + 2 * u32) 6,
  Dict.lookup-init {K = ℕ} {V = Ptr} (9 + 2 * u32),
)

t2u_rule_handle_connect_request-AddsSession_example :
    AddsSession server_world 7 5 server_rule
      (9 + 2 * u32)
      (t2u_rule_handle_connect_request in_progress 7 (some 8) 5 (hi 0) server_world)
t2u_rule_handle_connect_request-AddsSession_example =
    t2u_rule_handle_connect_request-AddsSession server_world 7 5 8 server_rule (hi 0) refl refl
      server_rule-IsServerRule (omega arith) (omega arith) no_third
