-- ===== src/Examples/Tunnel.antt =====
-- Two sides of a tunnel, and what they do to each other (c/src/t2u_session.c, c/src/t2u_message.c).
use t2u.Common.{
  ℕ, zero, suc, ◌≡◌, ◌==◌, if◌then◌else◌, refl, true, none, some, List, [], ◌∷◌, arith, length, ap,
  ◌∙◌,
}
use t2u.Rbtree.Dict
use t2u.Rbtree.Dict.{Dict}
use t2u.Compare.{uint_ord, name_ord, lookup-insert, compare_name}
use t2u.World.{Ptr, Session, Received, World, IoResult, count}
use t2u.Context.Options.{new_context}
use t2u.Context.Dispatch.{System}
use t2u.Session.Connect.{connected}
use t2u.Session.Incoming.{t2u_session_handle_data_request}
use t2u.Session.Delivery.{IsQueue, Delivers}
use t2u.Session.Stream.{run, handle_data_request-Delivers}
use t2u.Session.Tunnel.{Tunnels, add_request_message-Tunnels}
use t2u.Session.Tcp.{received, t2u_session_process_tcp}
use t2u.Session.Window.{Bounds, t2u_session_process_tcp-Bounds}
use t2u.Session.Ahead.{Waits, kept, handle_data_request-Waits}
use t2u.Rule.{find_session_in_context, find_session_in_rule}
use t2u.Rbtree.Entries.{put}
use t2u.Rule.Search.{find_session_in_context-search}
use t2u.Examples.Sessions.{hi, session, rule, world}

abbrev pub accept_all : ℕ → List ℕ → IoResult
accept_all n bytes = count (length bytes)

abbrev pub system : System
system = record {
  tcp_answer = accept_all;
  connect_result = connected;
  new_sock = none;
  new_ptr = 0;
}

abbrev pub second : Received
second = record { content = hi 2; len = 22 }

abbrev pub first : Received
first = record { content = hi 1; len = 22 }

recv_mess-IsQueue : IsQueue session.recv_mess
recv_mess-IsQueue k m e =
    ground (arith, lookup-insert Dict.init 2 k second, Dict.lookup-init {K = ℕ} {V = Received} k)

handle_data_request-Delivers_example :
    Delivers accept_all
      (λ n bytes. refl)
      6
      9
      world
      session
      (run session first)
      (t2u_session_handle_data_request accept_all 6 first.content first.len world)
handle_data_request-Delivers_example =
    handle_data_request-Delivers accept_all (λ n bytes. refl) world 6 session first refl
      (omega arith) (omega arith, omega arith) recv_mess-IsQueue refl (omega arith)

t2u_session_process_tcp-Bounds_example :
    Bounds 6 (t2u_session_process_tcp (received (104 ∷ [])) 6 world)
unfolding new_context
t2u_session_process_tcp-Bounds_example =
    t2u_session_process_tcp-Bounds (received (104 ∷ [])) world 6 session rule refl refl
      (omega arith) (omega arith)

handle_data_request-Waits_example :
    Waits world 6 session
      (kept (hi 3) 22)
      (t2u_session_handle_data_request accept_all 6 (hi 3) 22 world)
unfolding new_context
handle_data_request-Waits_example =
    handle_data_request-Waits accept_all world 6 session (hi 3) 22 refl (omega arith) (omega arith)
      (omega arith) (omega arith)

-- The side that receives: it has the rule of the session in its context, and waits for the number 2.
abbrev peer_session : Session
peer_session = record session { recv_seq = 1 }

abbrev pub peer : World
peer = record world {
  context = record (new_context 3) { rules = Dict.insert Dict.init (115 ∷ []) 5 };
  session_heap = λ p. if p == 6 then some peer_session else none;
}

abbrev zeros : ℕ → List ℕ
zeros zero = []
zeros (suc n) = 0 ∷ zeros n

peer_rules : Dict.entries peer.context.rules ≡ (115 ∷ [], 5) ∷ []
unfolding put
peer_rules =
    Dict.entries-insert Dict.init (115 ∷ []) 5
    ∙ ap (put compare_name (115 ∷ []) 5) (Dict.entries-init {K = List ℕ} {V = Ptr})

peer_found : find_session_in_context 9 true peer ≡ some (some 6, peer)
unfolding find_session_in_rule
peer_found =
    find_session_in_context-search peer 9 true
    ∙ rw peer_rules (
        ground
          (arith, lookup-insert {V = Ptr} Dict.init 9 9 6, Dict.lookup-init {K = ℕ} {V = Ptr} 9))

add_request_message-Tunnels_example :
    Tunnels world peer 6 6 session peer_session system (104 ∷ 105 ∷ []) (zeros 1420)
add_request_message-Tunnels_example =
    add_request_message-Tunnels world peer 6 6 session peer_session system (104 ∷ 105 ∷ [])
      (zeros 1420) (λ n bytes. refl) refl refl refl (omega arith) peer_found (omega arith)
      (omega arith) refl (omega arith) recv_mess-IsQueue refl (omega arith)
