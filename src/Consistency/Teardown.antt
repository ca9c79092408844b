-- ===== src/Consistency/Teardown.antt =====
-- `delete_rule_cb_` (c/src/t2u_rule.c) as a whole.
use t2u.Common.{
  ℕ, suc, ◌≡◌, refl, sym, ap₂, ◌∙◌, false, none, some, List, [], ◌∷◌, ◌++◌, length, arith,
  Ensures-eq-some, subst,
}
use t2u.Rbtree.Dict
use t2u.Rbtree.Dict.{Dict}
use t2u.Compare.{uint_ord, name_ord}
use t2u.World.{Ptr, Rule, Effect, World, forward_client_mode, forward_server_mode, closed}
use t2u.World.Monad.{M, ◌>>=◌, ◌>>◌, load_rule, update, emit}
use t2u.Session.Close.{t2u_delete_connected_session, t2u_delete_connecting_session}
use t2u.Session.Ending.Connected.{t2u_delete_connected_session_lem, with_closed, ended}
use t2u.Rule.Lifecycle.{
  delete_sessions, connected_table, connecting_table, close_listener, leave_context,
}
use t2u.Consistency.Heap.{AreConsistent, IsConsistent}
use t2u.Consistency.Changes.{free_connected-AreConsistent, free_connecting-AreConsistent}
use t2u.Consistency.Handshake.{delete_connecting_session_lem}
use t2u.Consistency.Emptied.{
  with_heaps, set_connected, set_connecting, Deletes, Empties, delete_sessions-Empties,
}

module _ (r : Ptr) where
  connected-Deletes :
      (w : World) (rule : Rule) (h p : ℕ)
      → IsConsistent w
      → w.rule_heap r ≡ some rule
      → Dict.lookup (connected_table rule) h ≡ some p
      → Deletes r connected_table set_connected
          (λ q. t2u_delete_connected_session q false)
          w
          rule
          h
          p
  connected-Deletes w rule h p ok f g =
      let (s, e, i) = Ensures-eq-some (w.session_heap p) (ok.connected r rule f h p g) in
      let f' = subst (λ x. w.rule_heap x ≡ some rule) (sym i.0) f in
      let sessions = update w.session_heap p none in
      let es = (ended w p s rule false).effects in
      let rules = λ (a b : ℕ).
        update w.rule_heap a (some (set_connected rule (Dict.remove rule.sessions b).1)) in
      record {
        effects = es;
        session = s;
        was = e;
        of_rule = i.0;
        returns =
            t2u_delete_connected_session_lem w p s rule false e f'
            ∙ ap₂ (λ a b. some (tt, with_heaps w (rules a b) sessions es)) i.0 i.1;
        ok =
            subst (λ x. AreConsistent w.context.rules x sessions) (ap₂ rules i.0 i.1)
              (free_connected-AreConsistent w.context.rules w.rule_heap w.session_heap ok p s rule e
                f' i.2);
      }

  connecting-Deletes :
      (w : World) (rule : Rule) (h p : ℕ)
      → IsConsistent w
      → w.rule_heap r ≡ some rule
      → Dict.lookup (connecting_table rule) h ≡ some p
      → Deletes r connecting_table set_connecting t2u_delete_connecting_session w rule h p
  connecting-Deletes w rule h p ok f g =
      let (s, e, i) = Ensures-eq-some (w.session_heap p) (ok.pending r rule f h p g) in
      let f' = subst (λ x. w.rule_heap x ≡ some rule) (sym i.0) f in
      let sessions = update w.session_heap p none in
      let es = with_closed s.sock w.effects in
      let rules = λ (a b : ℕ).
        update w.rule_heap a
          (some (set_connecting rule (Dict.remove rule.connecting_sessions b).1)) in
      record {
        effects = es;
        session = s;
        was = e;
        of_rule = i.0;
        returns =
            delete_connecting_session_lem w p s rule e f'
            ∙ ap₂ (λ a b. some (tt, with_heaps w (rules a b) sessions es)) i.0 i.1;
        ok =
            subst (λ x. AreConsistent w.context.rules x sessions) (ap₂ rules i.0 i.1)
              (free_connecting-AreConsistent w.context.rules w.rule_heap w.session_heap ok p s rule
                e f' i.2);
      }

  pub then_lem : (m k : M (Unit {0})) (w w' : World) → m w ≡ some (tt, w') → (m >> k) w ≡ k w'
  then_lem m k w w' e = ground arith

  -- The effects of `close_listener`.
  abbrev pub listener_effects : World → Rule → List Effect
  listener_effects w rule = elim rule.mode [
    | forward_client_mode ↦ w.effects ++ closed rule.listen_sock ∷ []
    | forward_server_mode ↦ w.effects
  ]

  pub begin_lem :
      (w : World) (rule : Rule) (k : Rule → M (Unit {0}))
      → w.rule_heap r ≡ some rule
      → (load_rule r >>= λ x. close_listener x >> k x) w
        ≡ k rule (record w { effects = listener_effects w rule })
  unfolding load_rule emit
  begin_lem w rule k f = ground arith

  pub leave_lem :
      (w : World) (rule : Rule)
      → w.rule_heap r ≡ some rule
      → leave_context r w
        ≡ some (
          tt,
          record w {
            context = record (w.context) { rules = (Dict.remove w.context.rules rule.service).1 };
            rule_heap = update w.rule_heap r none;
          },
        )
  unfolding load_rule
  leave_lem w rule f = ground arith

  -- The loop over the sessions, and over the connecting sessions.
  pub connected-Empties :
      (w : World) (rule : Rule)
      → IsConsistent w
      → w.rule_heap r ≡ some rule
      → Empties r connected_table set_connected
          (delete_sessions
            (suc (length (Dict.entries rule.sessions)))
            connected_table
            (λ p. t2u_delete_connected_session p false)
            r)
          w
          rule
  connected-Empties w rule ok f =
      delete_sessions-Empties r connected_table set_connected
        (λ q. t2u_delete_connected_session q false) (λ x d. refl) (λ x d e. refl) (λ x. refl)
        connected-Deletes (suc (length (Dict.entries rule.sessions))) w rule ok f (omega arith)

  pub connecting-Empties :
      (w : World) (rule : Rule)
      → IsConsistent w
      → w.rule_heap r ≡ some rule
      → Empties r connecting_table set_connecting
          (delete_sessions
            (suc (length (Dict.entries rule.connecting_sessions)))
            connecting_table
            t2u_delete_connecting_session
            r)
          w
          rule
  connecting-Empties w rule ok f =
      delete_sessions-Empties r connecting_table set_connecting t2u_delete_connecting_session
        (λ x d. refl) (λ x d e. refl) (λ x. refl) connecting-Deletes
        (suc (length (Dict.entries rule.connecting_sessions))) w rule ok f (omega arith)
