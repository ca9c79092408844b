-- ===== src/Examples/Life.antt =====
-- Runs of the events of a context (c/src/t2u_context.c), and of the end of its sessions and rules.
use t2u.Common.{
  ℕ, ◌≡◌, ◌≢◌, ◌==◌, if◌then◌else◌, refl, sym, inl, inr, none, some, List, [], ◌∷◌, arith, subst,
  Ensures,
}
use t2u.Rbtree.Dict
use t2u.Rbtree.Dict.{Dict}
use t2u.Compare.{
  uint_ord, name_ord, lookup-insert, lookup-insert_name, lookup-insert_name_ne, name-cases,
}
use t2u.World.{
  Ptr, Session, process_tcp, timeout_check, Rule, World, connecting, forward_client_mode,
}
use t2u.World.Laws.{with_session}
use t2u.Session.Tcp.{received, unbind}
use t2u.Session.Window.{process_tcp_full}
use t2u.Session.Connect.{in_progress, refused}
use t2u.Rule.{t2u_rule_handle_connect_request}
use t2u.Rule.Lifecycle.{listening, t2u_add_rule, delete_rule_cb}
use t2u.Rule.Adding.{Outcome, t2u_add_rule-Outcome}
use t2u.Context.Options.{new_context, set_context_option, ctx_udp_slidewindow}
use t2u.Context.Lifecycle.{delete_context_cb}
use t2u.Context.Steps.{tcp_input, option_set, tick, Reach, here, next}
use t2u.Consistency.Heap.{IsConsistent, IsQuiet}
use t2u.Consistency.Outcomes.{Gives}
use t2u.Consistency.Callbacks.{Serve, IsConsistent-Serve}
use t2u.Consistency.Reach.{Reach-IsConsistent}
use t2u.Consistency.Requests.{connect_request-IsConsistent}
use t2u.Consistency.Removal.{Removes, delete_rule_cb-Removes}
use t2u.Consistency.Closing.{IsComplete, Closes, delete_context_cb-Closes}
use t2u.Consistency.Expiry.{time_out, time_out-Frees}
use t2u.Wire.Words.{is_32bit}
use t2u.Wire.Message.{
  MessageData, bytes_of, to_network, receive, close_request, data_request, data_response,
}
use t2u.Wire.RoundTrip.{receive-bytes_of}
use t2u.Context.Dispatch.{process_udp_cb}
use t2u.Consistency.Served.{process_udp_cb-Gives}
use t2u.Examples.Packets.{zeros}
use t2u.Examples.Tunnel.{system}
use t2u.Examples.Sessions.{session, rule, world, hi}

-- A session with nothing under way, listed by its rule, which the context lists under its service.
abbrev calm_session : Session
calm_session = record session {
  send_buffer_count = 16;
  send_mess = Dict.init;
  recv_buffer_count = 0;
  recv_mess = Dict.init;
}

abbrev calm : World
calm = record world {
  context = record (new_context 3) { rules = Dict.insert Dict.init (115 ∷ []) 5 };
  session_heap = λ p. if p == 6 then some calm_session else none;
}

only_at {ℓ} :
    {A : Type ℓ} (k : ℕ) (v : A) (q : ℕ) (u : A)
    → (if q == k then some v else none) ≡ some u
    → (q ≡ k) × (v ≡ u)
only_at k v q u e = ground arith

listed_at :
    (h p : ℕ) → Dict.lookup (Dict.insert {V = Ptr} Dict.init 9 6) h ≡ some p → (h ≡ 9) × (p ≡ 6)
listed_at h p e =
    ground (arith, e, lookup-insert {V = Ptr} Dict.init 9 h 6, Dict.lookup-init {K = ℕ} {V = Ptr} h)

named_at :
    (name : List ℕ) (r : Ptr)
    → Dict.lookup (Dict.insert Dict.init (115 ∷ []) 5) name ≡ some r
    → r ≡ 5
named_at name r e = elim (lookup-insert_name {V = Ptr} Dict.init (115 ∷ []) name 5) [
  | inl f ↦ absurd (ground (arith, e, f, Dict.lookup-init {K = List ℕ} {V = Ptr} name))
  | inr f ↦ ground (arith, e, f)
]

calm-IsConsistent : IsConsistent calm
calm-IsConsistent = record {
  named = λ name r e. (rule, ground (arith, named_at name r e));
  connected = λ r x f h p g.
      let (i, j) = only_at 5 rule r x f in
      let l : Dict.lookup rule.sessions h ≡ some p =
        subst (λ (y : Rule). Dict.lookup y.sessions h ≡ some p) (sym j) g in
      let (k, m) = listed_at h p l in ground (arith, i, k, m);
  pending = λ r x f h p g.
      let (i, j) = only_at 5 rule r x f in
      let l : Dict.lookup rule.connecting_sessions h ≡ some p =
        subst (λ (y : Rule). Dict.lookup y.connecting_sessions h ≡ some p) (sym j) g in
      absurd (ground (arith, l, Dict.lookup-init {K = ℕ} {V = Ptr} h));
  owned = λ p s e. let (i, j) = only_at 6 calm_session p s e in (rule, ground (arith, j));
  bound = λ p s e. let (i, j) = only_at 6 calm_session p s e in ground (arith, j);
  quiet = λ p s e. let (i, j) = only_at 6 calm_session p s e in subst IsQuiet j (λ c. cc);
}

has_nine : Dict.lookup rule.sessions 9 ≡ some 6
has_nine =
    ground (arith, lookup-insert {V = Ptr} Dict.init 9 9 6, Dict.lookup-init {K = ℕ} {V = Ptr} 9)

only_service :
    (name : List ℕ) (r : Ptr)
    → Dict.lookup (Dict.insert Dict.init (115 ∷ []) 5) name ≡ some r
    → 115 ∷ [] ≡ name
only_service name r e = elim (name-cases (115 ∷ []) name) [
  | inl same ↦ same
  | inr n ↦ absurd (
      ground (
        arith,
        e,
        lookup-insert_name_ne {V = Ptr} Dict.init (115 ∷ []) name 5 n,
        Dict.lookup-init {K = List ℕ} {V = Ptr} name,
      ))
]

calm-IsComplete : IsComplete calm
calm-IsComplete = record {
  consistent = calm-IsConsistent;
  covered = λ p s x e f.
      let (i, j) = only_at 6 calm_session p s e in
      let (k, l) = only_at 5 rule s.rule x f in ground (arith, has_nine, i, j, l);
  by_service =
      λ name r x e f. let (k, l) = only_at 5 rule r x f in ground (arith, only_service name r e, l);
}

delete_context_cb-Closes_example : Closes calm (delete_context_cb calm)
delete_context_cb-Closes_example = delete_context_cb-Closes calm calm-IsComplete

delete_rule_cb-Removes_example : Removes calm 5 rule (delete_rule_cb 5 calm)
delete_rule_cb-Removes_example = delete_rule_cb-Removes 5 rule calm calm-IsConsistent refl

IsConsistent-Serve_example : Serve calm 6 calm_session
IsConsistent-Serve_example = IsConsistent-Serve calm 6 calm_session calm-IsConsistent refl

-- The peer closes the session.
abbrev closing_datagram : List ℕ
closing_datagram = bytes_of (to_network is_32bit close_request 9 0 [])

closing_kind :
    (mdata : MessageData)
    → receive is_32bit (zeros 30) closing_datagram ≡ some mdata
    → (mdata.oper ≢ data_request) × (mdata.oper ≢ data_response)
closing_kind mdata e =
    let arrives =
      receive-bytes_of is_32bit close_request 9 0 [] (zeros 30) (omega arith) (omega arith)
        (omega arith) (omega arith) in
    (ground (arith, e, arrives), ground (arith, e, arrives))

process_udp_cb-Gives_example :
    Gives IsConsistent (process_udp_cb system (zeros 30) closing_datagram) calm
process_udp_cb-Gives_example =
    process_udp_cb-Gives calm calm-IsConsistent system refl (zeros 30) closing_datagram closing_kind

connect_request-IsConsistent_example :
    Gives IsConsistent (t2u_rule_handle_connect_request refused 7 (some 8) 5 (hi 1)) calm
connect_request-IsConsistent_example =
    connect_request-IsConsistent 7 5 refused (some 8) (hi 1) calm
      (calm-IsConsistent, refl, (rule, refl))

t2u_add_rule-Outcome_example :
    Outcome calm 11 forward_client_mode
      (listening 12)
      (116 ∷ [])
      (t2u_add_rule 11 (listening 12) forward_client_mode (116 ∷ []) calm)
t2u_add_rule-Outcome_example =
    t2u_add_rule-Outcome calm 11 forward_client_mode (listening 12) (116 ∷ [])

-- The window is full, so the event that reads the TCP socket is taken away; then the window grows,
-- and time passes.
abbrev full_world : World
full_world = with_session calm 6 (record calm_session { ev = unbind calm_session.ev })

abbrev later_world : World
later_world = record full_world {
  context = set_context_option full_world.context ctx_udp_slidewindow 32;
  now = 20;
}

later-reached : Reach calm later_world
unfolding new_context
later-reached =
    next
      (next
        (next here (
          tcp_input (received (104 ∷ [])) 6 calm_session
            (record { event = some process_tcp; extra_event = some timeout_check }) refl refl refl
            (process_tcp_full (received (104 ∷ [])) calm 6 calm_session refl (omega arith))))
        (option_set ctx_udp_slidewindow 32))
      (tick 20 (omega arith))

Reach-IsConsistent_example : IsConsistent later_world
Reach-IsConsistent_example = Reach-IsConsistent calm-IsConsistent later-reached

-- A session whose peer does not answer.
abbrev silent_session : Session
silent_session = record calm_session { status = connecting; ev = none }

abbrev client_rule : Rule
client_rule = record rule { mode = forward_client_mode }

abbrev silent : World
silent = record calm {
  rule_heap = λ r. if r == 5 then some client_rule else none;
  session_heap = λ p. if p == 6 then some silent_session else none;
}

time_out-Frees_example :
    Ensures
      (λ (a, x). x.session_heap 6 ≡ none)
      (time_out (in_progress ∷ in_progress ∷ in_progress ∷ []) 6 silent)
unfolding new_context
time_out-Frees_example =
    time_out-Frees (in_progress ∷ in_progress ∷ in_progress ∷ []) 6 silent silent_session
      client_rule refl refl (omega arith) (omega arith)
