-- ===== src/Consistency/Requests.antt =====
-- New sessions (c/src/t2u_rule.c): requests to connect and accepted connections keep the tables
-- consistent.
use t2u.Common.{
  ℕ, ◌≡◌, refl, sym, false, Option, none, some, Ensures, Ensures, Ensures-eq-some, subst, arith,
}
use t2u.Rbtree.Dict
use t2u.Rbtree.Dict.{Dict}
use t2u.Compare.{uint_ord, name_ord}
use t2u.Wire.Message.{MessageData}
use t2u.World.{Ptr, Session, Rule, World}
use t2u.World.Monad.{M, skip, ◌>>=◌, ◌>>◌, load_rule, update}
use t2u.Session.Close.{t2u_delete_connected_session, t2u_delete_connecting_session}
use t2u.Session.Ending.Connected.{t2u_delete_connected_session_lem}
use t2u.Session.Connect.{ConnectResult, t2u_add_connecting_session, new_handle, next_handle_seq}
use t2u.Rule.{delete_old, t2u_rule_handle_connect_request, rule_process_accept_cb}
use t2u.Consistency.Outcomes.{Gives, Gives_of_call, Gives-then}
use t2u.Consistency.Heap.{IsConsistent}
use t2u.Consistency.Changes.{free_connected-AreConsistent, free_connecting-AreConsistent}
use t2u.Consistency.Handshake.{delete_connecting_session_lem}
use t2u.Consistency.Connecting.{add_connecting-IsConsistent}

-- The tables are consistent, the address is free and the rule is in the heap.
abbrev pub IsReady : Ptr → Ptr → World → Type 0
IsReady p r w =
    IsConsistent w × (w.session_heap p ≡ none) × ((rule : Rule) × (w.rule_heap r ≡ some rule))

module _ (p r : Ptr) where
  -- After a session was freed and a rule was changed.
  still-free :
      (sessions : Ptr → Option Session) (q : Ptr)
      → sessions p ≡ none
      → update sessions q none p ≡ none
  still-free sessions q e = ground arith

  still-there :
      (rules : Ptr → Option Rule) (r' : Ptr) (rule : Rule)
      → r' ≡ r
      → (x : Rule) × (update rules r' (some rule) r ≡ some x)
  still-there rules r' rule e = (rule, ground arith)

  load_rule_lem :
      (w : World) (rule : Rule) (k : Rule → M (Unit {0}))
      → w.rule_heap r ≡ some rule
      → (load_rule r >>= k) w ≡ k rule w
  unfolding load_rule
  load_rule_lem w rule k f = ground arith

  delete_connected-IsReady :
      (q h : ℕ) (w : World) (rule : Rule)
      → IsReady p r w
      → w.rule_heap r ≡ some rule
      → Dict.lookup rule.sessions h ≡ some q
      → Gives (IsReady p r) (t2u_delete_connected_session q false) w
  delete_connected-IsReady q h w rule (ok, e, _) f g =
      let (s, e', i) = Ensures-eq-some (w.session_heap q) (ok.connected r rule f h q g) in
      let f' = subst (λ x. w.rule_heap x ≡ some rule) (sym i.0) f in
      Gives_of_call (IsReady p r) skip _ (t2u_delete_connected_session_lem w q s rule false e' f') (
        free_connected-AreConsistent w.context.rules w.rule_heap w.session_heap ok q s rule e' f'
            i.2,
        still-free w.session_heap q e,
        still-there w.rule_heap s.rule _ i.0,
      )

  delete_connecting-IsReady :
      (q h : ℕ) (w : World) (rule : Rule)
      → IsReady p r w
      → w.rule_heap r ≡ some rule
      → Dict.lookup rule.connecting_sessions h ≡ some q
      → Gives (IsReady p r) (t2u_delete_connecting_session q) w
  delete_connecting-IsReady q h w rule (ok, e, _) f g =
      let (s, e', i) = Ensures-eq-some (w.session_heap q) (ok.pending r rule f h q g) in
      let f' = subst (λ x. w.rule_heap x ≡ some rule) (sym i.0) f in
      Gives_of_call (IsReady p r) skip _ (delete_connecting_session_lem w q s rule e' f') (
        free_connecting-AreConsistent w.context.rules w.rule_heap w.session_heap ok q s rule e' f'
            i.2,
        still-free w.session_heap q e,
        still-there w.rule_heap s.rule _ i.0,
      )

  delete_old-IsReady :
      (old : Option Ptr) (delete : Ptr → M (Unit {0})) (w : World)
      → IsReady p r w
      → ((q : Ptr) → old ≡ some q → Gives (IsReady p r) (delete q) w)
      → Gives (IsReady p r) (delete_old old delete) w
  delete_old-IsReady none delete w h next = h
  delete_old-IsReady (some q) delete w h next = next q refl

  add-IsConsistent :
      (result : ConnectResult) (sock handle : ℕ) (w : World)
      → IsReady p r w
      → Gives IsConsistent (t2u_add_connecting_session result p r sock handle) w
  add-IsConsistent result sock handle w (ok, e, (rule, f)) =
      add_connecting-IsConsistent p r (new_handle handle (next_handle_seq w.handle_seq)) result w
        sock handle rule ok e f refl

  pub accept_cb-IsConsistent :
      (result : ConnectResult) (sock : Option ℕ) (w : World)
      → IsReady p r w
      → Gives IsConsistent (rule_process_accept_cb result p sock r) w
  unfolding rule_process_accept_cb
  accept_cb-IsConsistent result none w h = h.0
  accept_cb-IsConsistent result (some sock) w h = add-IsConsistent result sock 0 w h

  -- For a rule in the heap of a consistent state, and a free address for the new session:
  -- `t2u_rule_handle_connect_request` gives a result, whichever old sessions the rule has under the
  -- handle, whether there is a socket, and whatever `connect` gives; and the state then is
  -- consistent.
  pub connect_request-IsConsistent :
      (result : ConnectResult) (sock : Option ℕ) (mdata : MessageData) (w : World)
      → IsReady p r w
      → Gives IsConsistent (t2u_rule_handle_connect_request result p sock r mdata) w
  unfolding t2u_rule_handle_connect_request
  connect_request-IsConsistent result sock mdata w (ok, e, (rule, f)) =
      subst (Ensures (λ (a, x). IsConsistent x)) (sym (load_rule_lem w rule _ f)) (
        Gives-then (IsReady p r) IsConsistent
          (delete_old (Dict.lookup rule.sessions mdata.handle)
            (λ old. t2u_delete_connected_session old false))
          then_connecting w
          (delete_old-IsReady (Dict.lookup rule.sessions mdata.handle)
            (λ old. t2u_delete_connected_session old false) w (ok, e, (rule, f))
            (λ q g. delete_connected-IsReady q mdata.handle w rule (ok, e, (rule, f)) f g))
          then_connecting-IsConsistent)
    where
      add : M (Unit {0})
      add = elim sock [
        | none ↦ skip
        | some s ↦ t2u_add_connecting_session result p r s mdata.handle
      ]

      then_connecting : M (Unit {0})
      then_connecting = load_rule r >>= λ rule'.
          delete_old (Dict.lookup rule'.connecting_sessions mdata.handle)
            t2u_delete_connecting_session
          >> add

      last :
          (o : Option ℕ) (x : World)
          → IsReady p r x
          → Gives IsConsistent
              (elim o as (λ _. M (Unit {0})) [
                | none ↦ skip
                | some s ↦ t2u_add_connecting_session result p r s mdata.handle
              ])
              x
      last none x h = h.0
      last (some s) x h = add-IsConsistent result s mdata.handle x h

      then_connecting-IsConsistent :
          (x : World) → IsReady p r x → Gives IsConsistent then_connecting x
      then_connecting-IsConsistent x (ok', e', (rule', f')) =
          subst (Ensures (λ (a, x). IsConsistent x)) (sym (load_rule_lem x rule' _ f')) (
            Gives-then (IsReady p r) IsConsistent
              (delete_old (Dict.lookup rule'.connecting_sessions mdata.handle)
                t2u_delete_connecting_session)
              add x
              (delete_old-IsReady (Dict.lookup rule'.connecting_sessions mdata.handle)
                t2u_delete_connecting_session x (ok', e', (rule', f'))
                (λ q g.
                  delete_connecting-IsReady q mdata.handle x rule' (ok', e', (rule', f')) f' g))
              (last sock))
