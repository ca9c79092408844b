-- ===== src/Consistency/Datagrams.antt =====
-- `process_udp_cb_` (c/src/t2u_context.c) keeps the tables consistent.
use t2u.Common.{
  ℕ, ◌≡◌, refl, sym, Bool, true, false, Option, none, some, List, [], ◌∷◌, length, ◌==◌, ◌%◌, not,
  if◌then◌else◌, Allows, Ensures-eq-some, subst, arith,
}
use t2u.Rbtree.Dict
use t2u.Rbtree.Dict.{Dict}
use t2u.Compare.{uint_ord, name_ord}
use t2u.Wire.Words.{u32}
use t2u.Wire.Message.{
  MessageData, receive, take, bytes_of, of_bytes, to_host, fill_buffer, connect_request,
  connect_response, close_request, data_request, data_response, retrans_request,
}
use t2u.World.{Ptr, Session, Message, Rule, World, unknown_packet}
use t2u.World.Monad.{M, skip, emit}
use t2u.Session.Close.{t2u_delete_connected_session}
use t2u.Session.Answers.{t2u_message_handle_retrans_request}
use t2u.Session.Connect.{t2u_session_handle_connect_response}
use t2u.Rule.{find_session_in_rule, t2u_rule_handle_connect_request}
use t2u.Rule.Search.{search, find_session_in_context-search}
use t2u.Context.Dispatch.{System, c_string, with_session, if_sent, dispatch, process_udp_cb}
use t2u.Consistency.Heap.{IsConsistent, IsOf}
use t2u.Consistency.Live.{load_session_lem, delete_connected_session-IsLeft}
use t2u.Consistency.Outcomes.{permitted, Permits, Permits-if, Permits-option}
use t2u.Consistency.Handlers.{leaves-IsConsistent, handle_data_request-IsConsistent}
use t2u.Consistency.Answers.{data_response-IsConsistent, retrans_request-IsConsistent}
use t2u.Consistency.Handshake.{connect_response-IsConsistent}
use t2u.Consistency.Requests.{connect_request-IsConsistent}

-- A rule of the heap lists the session under the handle.
abbrev pub Found : World → (handle : ℕ) → (connected : Bool) → Ptr → Type 0
Found w handle connected p =
    (r : Ptr) × (rule : Rule) × (w.rule_heap r ≡ some rule)
    × (find_session_in_rule rule handle connected ≡ some p)

module _ (w : World) (handle : ℕ) (connected : Bool) where
  pub search-Found :
      (rules : List (List ℕ × Ptr)) (p : Ptr)
      → search w rules handle connected ≡ some (some p)
      → Found w handle connected p
  search-Found [] p e = cc
  search-Found ((name, r) ∷ rules) p e = look (w.rule_heap r) refl (search-Found rules p) e
    where
      pass :
          (rule : Rule) (o : Option Ptr)
          → w.rule_heap r ≡ some rule
          → find_session_in_rule rule handle connected ≡ o
          → (search w rules handle connected ≡ some (some p) → Found w handle connected p)
          → (elim o as (λ _. Option (Option Ptr)) [
            | some q ↦ some (some q)
            | none ↦ search w rules handle connected
          ])
            ≡ some (some p)
          → Found w handle connected p
      pass rule none f g rest h = rest h
      pass rule (some q) f g rest h = (r, rule, f, cc)

      look :
          (o : Option Rule)
          → w.rule_heap r ≡ o
          → (search w rules handle connected ≡ some (some p) → Found w handle connected p)
          → (elim o as (λ _. Option (Option Ptr)) [
            | none ↦ none
            | some rule ↦ elim (find_session_in_rule rule handle connected) [
              | some q ↦ some (some q)
              | none ↦ search w rules handle connected
            ]
          ])
            ≡ some (some p)
          → Found w handle connected p
      look none f rest h = cc
      look (some rule) f rest h =
          pass rule (find_session_in_rule rule handle connected) f refl rest h

  -- What is found is a session of the heap, in the handshake or not.
  pub Found-IsOf :
      (p : Ptr)
      → IsConsistent w
      → Found w handle connected p
      → (r : Ptr) × (s : Session) × (w.session_heap p ≡ some s) × IsOf r handle (not connected) s
  unfolding find_session_in_rule
  Found-IsOf p ok (r, rule, f, g) = side connected g
    where
      side :
          (c : Bool)
          → (if c
              then Dict.lookup rule.sessions handle
              else Dict.lookup rule.connecting_sessions handle)
            ≡ some p
          → (r : Ptr) × (s : Session) × (w.session_heap p ≡ some s) × IsOf r handle (not c) s
      side true h =
          let (s, e, i) = Ensures-eq-some (w.session_heap p) (ok.connected r rule f handle p h) in
          (r, s, e, i)
      side false h =
          let (s, e, i) = Ensures-eq-some (w.session_heap p) (ok.pending r rule f handle p h) in
          (r, s, e, i)

  pub with_session_lem :
      (act : Ptr → M (Unit {0}))
      → with_session handle connected act w
        ≡ elim (search w (Dict.entries w.context.rules) handle connected) [
          | none ↦ none
          | some found ↦ elim found [ none ↦ some (tt, w) | some p ↦ act p w ]
        ]
  unfolding with_session
  with_session_lem act = ground (arith, find_session_in_context-search w handle connected)

  with_session-IsConsistent :
      (act : Ptr → M (Unit {0}))
      → IsConsistent w
      → ((p r : Ptr) (s : Session)
          → w.session_heap p ≡ some s
          → IsOf r handle (not connected) s
          → Permits IsConsistent (act p) w)
      → Permits IsConsistent (with_session handle connected act) w
  with_session-IsConsistent act ok next =
      subst (Allows (λ (a, x). IsConsistent x)) (sym (with_session_lem act))
        (follow (search w (Dict.entries w.context.rules) handle connected) refl)
    where
      follow :
          (o : Option (Option Ptr))
          → search w (Dict.entries w.context.rules) handle connected ≡ o
          → Allows
              (λ (a, x). IsConsistent x)
              (elim o as (λ _. Option (Unit {0} × World)) [
                | none ↦ none
                | some found ↦ elim found [ none ↦ some (tt, w) | some p ↦ act p w ]
              ])
      follow none f = tt
      follow (some none) f = ok
      follow (some (some p)) f =
          let (r, s, g, i) = Found-IsOf p ok (search-Found (Dict.entries w.context.rules) p f) in
          next p r s g i

if_sent-IsConsistent :
    (p : Ptr) (seq : ℕ) (act : M (Unit {0})) (w : World) (s : Session)
    → IsConsistent w
    → w.session_heap p ≡ some s
    → ((m : Message) → Dict.lookup s.send_mess seq ≡ some m → Permits IsConsistent act w)
    → Permits IsConsistent (if_sent p seq act) w
unfolding if_sent
if_sent-IsConsistent p seq act w s ok e next =
    subst (Allows (λ (a, x). IsConsistent x)) (sym (load_session_lem p _ w s e))
      (Permits-option IsConsistent (Dict.lookup s.send_mess seq) skip (λ m. act) w ok next)

module _ (sys : System) (w : World) (ok : IsConsistent w)
    (fresh : w.session_heap sys.new_ptr ≡ none) where
  dispatch-IsConsistent :
      (mdata : MessageData) (recv_bytes : ℕ)
      → Permits IsConsistent (dispatch sys mdata recv_bytes) w
  unfolding dispatch
  dispatch-IsConsistent mdata recv_bytes =
      Permits-if IsConsistent (mdata.oper == connect_request) _ _ w
        (Permits-option IsConsistent (Dict.lookup w.context.rules (c_string mdata.payload)) skip
          (λ r. t2u_rule_handle_connect_request sys.connect_result sys.new_ptr sys.new_sock r mdata)
          w ok
          (λ r f.
            permitted
              (t2u_rule_handle_connect_request sys.connect_result sys.new_ptr sys.new_sock r mdata)
              w
              (connect_request-IsConsistent sys.new_ptr r sys.connect_result sys.new_sock mdata w
                (ok, fresh, ok.named (c_string mdata.payload) r f))))
        (Permits-if IsConsistent (mdata.oper == connect_response) _ _ w
          (with_session-IsConsistent w (mdata.handle % u32) false _ ok (λ p r s e i.
            permitted (t2u_session_handle_connect_response p mdata) w
              (connect_response-IsConsistent p r (mdata.handle % u32) mdata w (ok, (s, e, i)))))
          (Permits-if IsConsistent (mdata.oper == data_request) _ _ w
            (with_session-IsConsistent w mdata.handle true _ ok (λ p r s e i.
              handle_data_request-IsConsistent p r mdata.handle sys.tcp_answer mdata recv_bytes w
                (ok, (s, e, i))))
            (Permits-if IsConsistent (mdata.oper == data_response) _ _ w
              (with_session-IsConsistent w mdata.handle true _ ok (λ p r s e i.
                if_sent-IsConsistent p mdata.seq _ w s ok e (λ m f.
                  data_response-IsConsistent p r mdata.handle mdata w s mdata.seq m ok e i f)))
              (Permits-if IsConsistent (mdata.oper == retrans_request) _ _ w
                (with_session-IsConsistent w mdata.handle true _ ok (λ p r s e i.
                  if_sent-IsConsistent p mdata.seq _ w s ok e (λ m f.
                    permitted (t2u_message_handle_retrans_request p mdata.seq) w
                      (retrans_request-IsConsistent p r mdata.handle w s mdata.seq m ok e i f))))
                (Permits-if IsConsistent (mdata.oper == close_request) _ _ w
                  (with_session-IsConsistent w mdata.handle true _ ok (λ p r s e i.
                    permitted (t2u_delete_connected_session p true) w (
                      leaves-IsConsistent p r mdata.handle (t2u_delete_connected_session p true) w
                        (delete_connected_session-IsLeft p r mdata.handle true w (ok, (s, e, i))))))
                  ok)))))

  pub process_udp_cb-IsConsistent :
      (old datagram : List ℕ) → Permits IsConsistent (process_udp_cb sys old datagram) w
  unfolding process_udp_cb emit
  process_udp_cb-IsConsistent old datagram =
      Permits-if IsConsistent (length datagram == 0) _ _ w ok
        (read (receive w.platform old datagram))
    where
      read :
          (o : Option MessageData)
          → Allows
              (λ (a, x). IsConsistent x)
              ((elim o as (λ _. M (Unit {0})) [
                | some mdata ↦ dispatch sys mdata (length datagram)
                | none ↦
                    if w.has_unknown_callback
                    then emit (
                        unknown_packet (
                          take
                            (length datagram)
                            (bytes_of (to_host w.platform (of_bytes (fill_buffer datagram old))))))
                    else skip
              ])
                w)
      read (some mdata) = dispatch-IsConsistent mdata (length datagram)
      read none = Permits-if IsConsistent w.has_unknown_callback _ _ w ok ok
