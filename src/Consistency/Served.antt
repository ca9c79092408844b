-- ===== src/Consistency/Served.antt =====
-- The datagrams that `process_udp_cb_` (c/src/t2u_context.c) serves without a fault in each
-- consistent state.
use t2u.Common.{
  ℕ, ◌≡◌, ◌≢◌, refl, sym, Bool, true, false, Option, none, some, List, [], ◌∷◌, length, ◌==◌, ◌%◌,
  not, if◌then◌else◌, Ensures, subst, arith,
}
use t2u.Rbtree.Entries.{AllValues}
use t2u.Rbtree.Dict
use t2u.Rbtree.Dict.{Dict}
use t2u.Compare.{uint_ord, name_ord}
use t2u.Wire.Words.{u32}
use t2u.Wire.Message.{
  MessageData, receive, take, bytes_of, of_bytes, to_host, fill_buffer, connect_request,
  connect_response, close_request, data_request, data_response, retrans_request,
}
use t2u.World.{Ptr, Session, Message, Rule, World, unknown_packet}
use t2u.World.Monad.{M, skip, emit}
use t2u.Session.Close.{t2u_delete_connected_session}
use t2u.Rule.{t2u_rule_handle_connect_request}
use t2u.Rule.Search.{search}
use t2u.Context.Dispatch.{System, c_string, with_session, if_sent, dispatch, process_udp_cb}
use t2u.Consistency.Heap.{IsConsistent, IsOf}
use t2u.Consistency.Live.{load_session_lem, delete_connected_session-IsLeft}
use t2u.Consistency.Outcomes.{Gives, Gives-if}
use t2u.Consistency.Handlers.{leaves-IsConsistent}
use t2u.Consistency.Answers.{retrans_request-IsConsistent}
use t2u.Consistency.Handshake.{connect_response-IsConsistent}
use t2u.Consistency.Requests.{connect_request-IsConsistent}
use t2u.Consistency.Datagrams.{with_session_lem, Found-IsOf, search-Found}

pub Gives-option {ℓ} :
    {A : Type ℓ} (Q : World → Type 0) (o : Option A) (x : M (Unit {0})) (f : A → M (Unit {0}))
    (w : World)
    → Gives Q x w
    → ((a : A) → o ≡ some a → Gives Q (f a) w)
    → Gives Q (elim o as (λ _. M (Unit {0})) [ none ↦ x | some a ↦ f a ]) w
Gives-option Q none x f w h k = h
Gives-option Q (some a) x f w h k = k a refl

-- A test that may be taken to hold in the first branch, and to fail in the second.
Gives-test :
    (Q : World → Type 0) (b : Bool) (x y : M (Unit {0})) (w : World)
    → (b ≡ true → Gives Q x w)
    → (b ≡ false → Gives Q y w)
    → Gives Q (if b then x else y) w
Gives-test Q true x y w h k = h refl
Gives-test Q false x y w h k = k refl

module _ (w : World) (ok : IsConsistent w) where
  -- A search reads no rule that was freed.
  search-ne-none :
      (rules : List (List ℕ × Ptr)) (handle : ℕ) (connected : Bool)
      → AllValues (λ r. (rule : Rule) × (w.rule_heap r ≡ some rule)) rules
      → search w rules handle connected ≢ none
  search-ne-none [] handle connected h e = cc
  search-ne-none ((name, r) ∷ rules) handle connected ((rule, f), h) e =
      ground (arith, f, e, search-ne-none rules handle connected h)

  with_session-Gives :
      (handle : ℕ) (connected : Bool) (act : Ptr → M (Unit {0}))
      → ((p r : Ptr) (s : Session)
          → w.session_heap p ≡ some s
          → IsOf r handle (not connected) s
          → Gives IsConsistent (act p) w)
      → Gives IsConsistent (with_session handle connected act) w
  with_session-Gives handle connected act next =
      subst (Ensures (λ (a, x). IsConsistent x)) (sym (with_session_lem w handle connected act))
        (follow (search w (Dict.entries w.context.rules) handle connected) refl)
    where
      follow :
          (o : Option (Option Ptr))
          → search w (Dict.entries w.context.rules) handle connected ≡ o
          → Ensures
              (λ (a, x). IsConsistent x)
              (elim o as (λ _. Option (Unit {0} × World)) [
                | none ↦ none
                | some found ↦ elim found [ none ↦ some (tt, w) | some p ↦ act p w ]
              ])
      follow none f = absurd (
          search-ne-none (Dict.entries w.context.rules) handle connected
            (Dict.lookup-AllValues (λ r. (rule : Rule) × (w.rule_heap r ≡ some rule))
              w.context.rules ok.named)
            f)
      follow (some none) f = ok
      follow (some (some p)) f =
          let (r, s, g, i) =
            Found-IsOf w handle connected p ok
              (search-Found w handle connected (Dict.entries w.context.rules) p f) in
          next p r s g i

  if_sent-Gives :
      (p : Ptr) (seq : ℕ) (act : M (Unit {0})) (s : Session)
      → w.session_heap p ≡ some s
      → ((m : Message) → Dict.lookup s.send_mess seq ≡ some m → Gives IsConsistent act w)
      → Gives IsConsistent (if_sent p seq act) w
  unfolding if_sent
  if_sent-Gives p seq act s e next =
      subst (Ensures (λ (a, x). IsConsistent x)) (sym (load_session_lem p _ w s e))
        (Gives-option IsConsistent (Dict.lookup s.send_mess seq) skip (λ m. act) w ok next)

  module _ (sys : System) (fresh : w.session_heap sys.new_ptr ≡ none) where
    dispatch-Gives :
        (mdata : MessageData) (recv_bytes : ℕ)
        → mdata.oper ≢ data_request
        → mdata.oper ≢ data_response
        → Gives IsConsistent (dispatch sys mdata recv_bytes) w
    unfolding dispatch
    dispatch-Gives mdata recv_bytes n n' =
        Gives-test IsConsistent (mdata.oper == connect_request) _ _ w
          (λ _.
            Gives-option IsConsistent (Dict.lookup w.context.rules (c_string mdata.payload)) skip
              (λ r.
                t2u_rule_handle_connect_request sys.connect_result sys.new_ptr sys.new_sock r mdata)
              w ok
              (λ r f.
                connect_request-IsConsistent sys.new_ptr r sys.connect_result sys.new_sock mdata w
                  (ok, fresh, ok.named (c_string mdata.payload) r f)))
          (λ _.
            Gives-test IsConsistent (mdata.oper == connect_response) _ _ w
              (λ _. with_session-Gives (mdata.handle % u32) false _ (λ p r s e i.
                connect_response-IsConsistent p r (mdata.handle % u32) mdata w (ok, (s, e, i))))
              (λ _.
                Gives-test IsConsistent (mdata.oper == data_request) _ _ w
                  (λ e. absurd (ground (arith, e, n)))
                  (λ _.
                    Gives-test IsConsistent (mdata.oper == data_response) _ _ w
                      (λ e. absurd (ground (arith, e, n')))
                      (λ _.
                        Gives-test IsConsistent (mdata.oper == retrans_request) _ _ w
                          (λ _. with_session-Gives mdata.handle true _ (λ p r s e i.
                            if_sent-Gives p mdata.seq _ s e (λ m f.
                              retrans_request-IsConsistent p r mdata.handle w s mdata.seq m ok e i
                                f)))
                          (λ _.
                            Gives-test IsConsistent (mdata.oper == close_request) _ _ w
                              (λ _. with_session-Gives mdata.handle true _ (λ p r s e i.
                                leaves-IsConsistent p r mdata.handle
                                  (t2u_delete_connected_session p true) w
                                  (delete_connected_session-IsLeft p r mdata.handle true w
                                    (ok, (s, e, i)))))
                              (λ _. ok))))))

    -- In a consistent state, with a free address for a new session: a datagram that is neither a
    -- `data_request` nor a `data_response`, be it of another kind, of no kind, or no message at all,
    -- is served without a fault, and the state then is consistent.
    pub process_udp_cb-Gives :
        (old datagram : List ℕ)
        → ((mdata : MessageData)
            → receive w.platform old datagram ≡ some mdata
            → (mdata.oper ≢ data_request) × (mdata.oper ≢ data_response))
        → Gives IsConsistent (process_udp_cb sys old datagram) w
    unfolding process_udp_cb emit
    process_udp_cb-Gives old datagram kinds =
        Gives-if IsConsistent (length datagram == 0) _ _ w ok
          (read (receive w.platform old datagram) refl)
      where
        read :
            (o : Option MessageData)
            → receive w.platform old datagram ≡ o
            → Ensures
                (λ (a, x). IsConsistent x)
                ((elim o as (λ _. M (Unit {0})) [
                  | some mdata ↦ dispatch sys mdata (length datagram)
                  | none ↦
                      if w.has_unknown_callback
                      then emit (
                          unknown_packet (
                            take (length datagram) (
                              bytes_of (to_host w.platform (of_bytes (fill_buffer datagram old))))))
                      else skip
                ])
                  w)
        read (some mdata) e =
            let (n, n') = kinds mdata e in dispatch-Gives mdata (length datagram) n n'
        read none e = Gives-if IsConsistent w.has_unknown_callback _ _ w ok ok
