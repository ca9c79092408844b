-- ===== src/Consistency/Removal.antt =====
-- What `delete_rule_cb_` (c/src/t2u_rule.c) leaves behind.
use t2u.Common.{
  ℕ, suc, ◌≡◌, ◌≢◌, refl, sym, ap, ◌∙◌, ◌⊎◌, inl, inr, false, Option, none, some, List, length,
  arith,
}
use t2u.Rbtree.Dict
use t2u.Rbtree.Dict.{Dict}
use t2u.Compare.{uint_ord, name_ord, lookup-remove_name_eq, lookup-remove_name_ne}
use t2u.World.{Ptr, Session, Rule, Effect, World}
use t2u.World.Monad.{◌>>◌, update}
use t2u.World.Laws.{update_self, update_ne, update-update}
use t2u.Session.Close.{t2u_delete_connected_session, t2u_delete_connecting_session}
use t2u.Rule.Lifecycle.{
  delete_sessions, connected_table, connecting_table, leave_context, delete_rule_cb,
}
use t2u.Consistency.Heap.{IsConsistent}
use t2u.Consistency.Emptied.{with_heaps, set_connected, set_connecting, Empties}
use t2u.Consistency.Teardown.{
  then_lem, listener_effects, begin_lem, leave_lem, connected-Empties, connecting-Empties,
}

-- The session is in one of the two tables of the rule.
abbrev pub IsListed : Rule → (h p : ℕ) → Type 0
IsListed rule h p =
    (Dict.lookup rule.sessions h ≡ some p) ⊎ (Dict.lookup rule.connecting_sessions h ≡ some p)

-- The call gives a result. The rule is freed then, and its name is not in the context any more; each
-- session that it listed is freed. The sessions of other rules, the other rules and the other names
-- are as they were.
pub record Removes (w : World) (r : Ptr) (rule : Rule) (o : Option (Unit {0} × World))
    : Type 0 where
  pub after : World
  pub returns : o ≡ some (tt, after)
  pub gone : after.rule_heap r ≡ none
  pub names : after.context.rules ≡ (Dict.remove w.context.rules rule.service).1
  pub unnamed : Dict.lookup after.context.rules rule.service ≡ none
  pub frees : (h p : ℕ) → IsListed rule h p → after.session_heap p ≡ none
  pub shrinks :
      (p : Ptr) → (after.session_heap p ≡ none) ⊎ (after.session_heap p ≡ w.session_heap p)
  pub spares :
      (p : Ptr) (s : Session)
      → w.session_heap p ≡ some s
      → s.rule ≢ r
      → after.session_heap p ≡ some s
  pub other_rules : (q : Ptr) → r ≢ q → after.rule_heap q ≡ w.rule_heap q
  pub other_names :
      (name : List ℕ)
      → rule.service ≢ name
      → Dict.lookup after.context.rules name ≡ Dict.lookup w.context.rules name

module _ (r : Ptr) (rule : Rule) where
  -- The world behind the first loop, and behind the second.
  abbrev between : World → Dict ℕ Ptr → (Ptr → Option Session) → List Effect → World
  between w left heap es =
      with_heaps w (update w.rule_heap r (some (set_connected rule left))) heap es

  abbrev behind : World → Dict ℕ Ptr → Dict ℕ Ptr → (Ptr → Option Session) → List Effect → World
  behind w left left' heap es =
      with_heaps w
        (update (update w.rule_heap r (some (set_connected rule left))) r
          (some (set_connecting (set_connected rule left) left')))
        heap es

  abbrev without_rule : World → (Ptr → Option Session) → List Effect → World
  without_rule w heap es = record w {
    context = record (w.context) { rules = (Dict.remove w.context.rules rule.service).1 };
    rule_heap = update w.rule_heap r none;
    session_heap = heap;
    effects = es;
  }

  delete_rule_cb_lem :
      (w : World) (left left' : Dict ℕ Ptr) (heap heap' : Ptr → Option Session)
      (es es' : List Effect)
      → w.rule_heap r ≡ some rule
      → delete_sessions
          (suc (length (Dict.entries rule.sessions)))
          connected_table
          (λ p. t2u_delete_connected_session p false)
          r
          (record w { effects = listener_effects r w rule })
        ≡ some (tt, between w left heap es)
      → delete_sessions
          (suc (length (Dict.entries rule.connecting_sessions)))
          connecting_table
          t2u_delete_connecting_session
          r
          (between w left heap es)
        ≡ some (tt, behind w left left' heap' es')
      → delete_rule_cb r w ≡ some (tt, without_rule w heap' es')
  unfolding delete_rule_cb
  delete_rule_cb_lem w left left' heap heap' es es' f first second =
      let loop =
        delete_sessions (suc (length (Dict.entries rule.sessions))) connected_table
          (λ p. t2u_delete_connected_session p false) r in
      let loop' =
        delete_sessions (suc (length (Dict.entries rule.connecting_sessions))) connecting_table
          t2u_delete_connecting_session r in
      begin_lem r w rule
        (λ x.
          delete_sessions (suc (length (Dict.entries x.sessions))) connected_table
            (λ p. t2u_delete_connected_session p false) r
          >> (delete_sessions (suc (length (Dict.entries x.connecting_sessions))) connecting_table
                t2u_delete_connecting_session r
              >> leave_context r))
        f
      ∙ then_lem r loop (loop' >> leave_context r) _ _ first
      ∙ then_lem r loop' (leave_context r) _ _ second
      ∙ leave_lem r (behind w left left' heap' es') (set_connecting (set_connected rule left) left')
          (update_self (update w.rule_heap r (some (set_connected rule left))) r
            (some (set_connecting (set_connected rule left) left')))
      ∙ ap (λ rules. some (tt, record (without_rule w heap' es') { rule_heap = rules }))
          (update-update (update w.rule_heap r (some (set_connected rule left))) r
              (some (set_connecting (set_connected rule left) left')) none
            ∙ update-update w.rule_heap r (some (set_connected rule left)) none)

  abbrev First : World → Type 0
  First w =
      Empties r connected_table set_connected
        (delete_sessions (suc (length (Dict.entries rule.sessions))) connected_table
          (λ p. t2u_delete_connected_session p false) r)
        (record w { effects = listener_effects r w rule }) rule

  abbrev Second : (w : World) → First w → Type 0
  Second w a =
      Empties r connecting_table set_connecting
        (delete_sessions (suc (length (Dict.entries rule.connecting_sessions))) connecting_table
          t2u_delete_connecting_session r)
        (between w a.left a.heap a.effects) (set_connected rule a.left)

  both-Removes :
      (w : World) (a : First w) (b : Second w a)
      → w.rule_heap r ≡ some rule
      → Removes w r rule (delete_rule_cb r w)
  both-Removes w a b f = record {
    after = without_rule w b.heap b.effects;
    returns =
        delete_rule_cb_lem w a.left b.left a.heap b.heap a.effects b.effects f a.returns b.returns;
    gone = update_self w.rule_heap r none;
    names = refl;
    unnamed = lookup-remove_name_eq w.context.rules rule.service rule.service refl;
    frees = λ h p l. freed h p l;
    shrinks = λ p. ground (arith, a.shrinks p, b.shrinks p);
    spares = λ p s e n. b.spares p s (a.spares p s e n) n;
    other_rules = λ q n. update_ne w.rule_heap r none q n;
    other_names = λ name n. lookup-remove_name_ne w.context.rules rule.service name n;
  }
    where
      freed : (h p : ℕ) → IsListed rule h p → b.heap p ≡ none
      freed h p (inl e) = ground (arith, a.frees h p e, b.shrinks p)
      freed h p (inr e) = b.frees h p e

  second : (w : World) → (a : First w) → Second w a
  second w a =
      connecting-Empties r (between w a.left a.heap a.effects) (set_connected rule a.left) a.ok
        (update_self w.rule_heap r _)

  -- For a rule in the heap of a consistent state, both loops of `delete_rule_cb_` end and nothing
  -- faults: the rule is freed with each session that its tables list, and its name leaves the
  -- context. The sessions of other rules, the other rules and the other names stay as they are.
  pub delete_rule_cb-Removes :
      (w : World)
      → IsConsistent w
      → w.rule_heap r ≡ some rule
      → Removes w r rule (delete_rule_cb r w)
  delete_rule_cb-Removes w ok f =
      let a = connected-Empties r (record w { effects = listener_effects r w rule }) rule ok f in
      both-Removes w a (second w a) f

  -- What the heap holds behind the loops is not the rule's.
  none_left :
      (w : World) (after : Removes w r rule (delete_rule_cb r w))
      → ((p : Ptr) (s : Session)
          → w.session_heap p ≡ some s
          → s.rule ≡ r
          → IsListed rule s.handle p)
      → (p : Ptr) (s : Session) → after.after.session_heap p ≡ some s
      → r ≢ s.rule
  none_left w x covered p s e same =
      let before : w.session_heap p ≡ some s = ground (arith, x.shrinks p, e) in
      ground (arith, x.frees s.handle p (covered p s before (sym same)), e)

  without_rule-AreConsistent :
      (w : World) (a : First w) (b : Second w a)
      → IsConsistent w
      → w.rule_heap r ≡ some rule
      → ((p : Ptr) (s : Session)
          → w.session_heap p ≡ some s
          → s.rule ≡ r
          → IsListed rule s.handle p)
      → ((name : List ℕ) → Dict.lookup w.context.rules name ≡ some r → rule.service ≡ name)
      → IsConsistent (without_rule w b.heap b.effects)
  unfolding both-Removes
  without_rule-AreConsistent w a b ok f covered named =
      let x = both-Removes w a b f in
      let names = w.context.rules in
      let there = λ (q : Ptr) (n : r ≢ q). update_ne w.rule_heap r none q n in
      let still = λ (q : Ptr) (n : r ≢ q).
        update_ne (update w.rule_heap r (some (set_connected rule a.left))) r
          (some (set_connecting (set_connected rule a.left) b.left)) q n
        ∙ update_ne w.rule_heap r (some (set_connected rule a.left)) q n in
      record {
        named = λ name q g.
            let n : rule.service ≢ name =
              λ e. ground (arith, lookup-remove_name_eq names rule.service name e, g) in
            let g' = sym (lookup-remove_name_ne names rule.service name n) ∙ g in
            let n' : r ≢ q = λ e. n (named name (g' ∙ ap some (sym e))) in
            let (y, h) = ok.named name q g' in (y, there q n' ∙ h);
        connected =
            λ q y g. b.ok.connected q y (still q (other q y g) ∙ (sym (there q (other q y g)) ∙ g));
        pending =
            λ q y g. b.ok.pending q y (still q (other q y g) ∙ (sym (there q (other q y g)) ∙ g));
        owned = λ p s g.
            let n = none_left w x covered p s g in
            let (y, h) = b.ok.owned p s g in (y, there s.rule n ∙ (sym (still s.rule n) ∙ h));
        bound = b.ok.bound;
        quiet = b.ok.quiet;
      }
    where
      other : (q : Ptr) (y : Rule) → update w.rule_heap r none q ≡ some y → r ≢ q
      other q y g = ground arith

  -- For a rule in the heap of a consistent state: if its tables list all its sessions, and the
  -- context lists it under no name but its own, then the state behind `delete_rule_cb_` is
  -- consistent.
  pub delete_rule_cb-IsConsistent :
      (w : World)
      → IsConsistent w
      → w.rule_heap r ≡ some rule
      → ((p : Ptr) (s : Session)
          → w.session_heap p ≡ some s
          → s.rule ≡ r
          → IsListed rule s.handle p)
      → ((name : List ℕ) → Dict.lookup w.context.rules name ≡ some r → rule.service ≡ name)
      → (w' : World) × (delete_rule_cb r w ≡ some (tt, w')) × IsConsistent w'
  unfolding both-Removes
  delete_rule_cb-IsConsistent w ok f covered named =
      let a = connected-Empties r (record w { effects = listener_effects r w rule }) rule ok f in
      let b = second w a in
      (_, (both-Removes w a b f).returns, without_rule-AreConsistent w a b ok f covered named)
