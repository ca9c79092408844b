-- ===== src/Consistency/Closing.antt =====
-- `delete_context_cb_` (c/src/t2u_context.c) frees what the context holds.
use t2u.Common.{
  ℕ, zero, suc, ◌<◌, ◌≡◌, ◌≢◌, sym, ap, ◌∙◌, inl, inr, Option, Option-cases, none, some, List,
  length, arith, subst, Bool-cases, ◌==◌,
}
use t2u.Rbtree.Dict
use t2u.Rbtree.Dict.{Dict}
use t2u.Compare.{uint_ord, name_ord}
use t2u.World.{Ptr, Session, Rule, World}
use t2u.Rule.Lifecycle.{delete_rule_cb}
use t2u.Context.Lifecycle.{delete_rules, delete_context_cb}
use t2u.Consistency.Heap.{IsConsistent}
use t2u.Consistency.Removal.{IsListed, Removes, delete_rule_cb-Removes, delete_rule_cb-IsConsistent}

-- The state is consistent, each session is in a table of its rule, and the context lists each rule
-- under its service.
pub record IsComplete (w : World) : Type 0 where
  pub consistent : IsConsistent w
  pub covered :
      (p : Ptr) (s : Session) (rule : Rule)
      → w.session_heap p ≡ some s
      → w.rule_heap s.rule ≡ some rule
      → IsListed rule s.handle p
  pub by_service :
      (name : List ℕ) (r : Ptr) (rule : Rule)
      → Dict.lookup w.context.rules name ≡ some r
      → w.rule_heap r ≡ some rule
      → rule.service ≡ name

-- The call gives a result. The context has no rules then; each rule that it had is freed, with each
-- session of such a rule.
pub record Closes (w : World) (o : Option (Unit {0} × World)) : Type 0 where
  pub after : World
  pub returns : o ≡ some (tt, after)
  pub no_rules : (name : List ℕ) → Dict.lookup after.context.rules name ≡ none
  pub rules_freed :
      (name : List ℕ) (r : Ptr)
      → Dict.lookup w.context.rules name ≡ some r
      → after.rule_heap r ≡ none
  pub rules_shrink : (q : Ptr) → w.rule_heap q ≡ none → after.rule_heap q ≡ none
  pub sessions_freed :
      (name : List ℕ) (p : Ptr) (s : Session)
      → w.session_heap p ≡ some s
      → Dict.lookup w.context.rules name ≡ some s.rule
      → after.session_heap p ≡ none
  pub sessions_shrink : (p : Ptr) → w.session_heap p ≡ none → after.session_heap p ≡ none

module _ (w : World) (r : Ptr) (rule : Rule) (name : List ℕ) (full : IsComplete w) where
  module _ (e : Dict.lookup w.context.rules name ≡ some r) (f : w.rule_heap r ≡ some rule) where
    own_name : (other : List ℕ) → Dict.lookup w.context.rules other ≡ some r → rule.service ≡ other
    own_name other g = full.by_service other r rule g f

    listed :
        (p : Ptr) (s : Session) → w.session_heap p ≡ some s → s.rule ≡ r → IsListed rule s.handle p
    listed p s g same =
        full.covered p s rule g (subst (λ x. w.rule_heap x ≡ some rule) (sym same) f)

    removed : Removes w r rule (delete_rule_cb r w)
    removed = delete_rule_cb-Removes r rule w full.consistent f

    after-IsConsistent : (x : Removes w r rule (delete_rule_cb r w)) → IsConsistent x.after
    after-IsConsistent x =
        let (w', g, ok) = delete_rule_cb-IsConsistent r rule w full.consistent f listed own_name in
        let same : w' ≡ x.after = cc (g, x.returns) in subst IsConsistent same ok

    -- What is left of a state is complete again.
    after-IsComplete : (x : Removes w r rule (delete_rule_cb r w)) → IsComplete x.after
    after-IsComplete x = record {
      consistent = after-IsConsistent x;
      covered = λ p s y g h.
          let n : r ≢ s.rule = λ same. ground (arith, x.gone, h, same) in
          full.covered p s y (ground (arith, x.shrinks p, g)) (sym (x.other_rules s.rule n) ∙ h);
      by_service = λ other q y g h.
          let n : r ≢ q = λ same. ground (arith, x.gone, h, same) in
          let m : rule.service ≢ other = λ same. ground (arith, x.unnamed, g, same) in
          full.by_service other q y (sym (x.other_names other m) ∙ g) (sym (x.other_rules q n) ∙ h);
    }

    delete_rules_go :
        (fuel : ℕ) (x : Removes w r rule (delete_rule_cb r w))
        → Dict.root w.context.rules ≡ some (name, r)
        → delete_rules (suc fuel) w ≡ delete_rules fuel x.after
    unfolding delete_rules
    delete_rules_go fuel x g = ground (arith, x.returns)

    -- A name of another rule.
    other_name :
        (other : List ℕ) (q : Ptr)
        → r ≢ q
        → Dict.lookup w.context.rules other ≡ some q
        → rule.service ≢ other
    other_name other q n h same =
        let g : Dict.lookup w.context.rules other ≡ some r =
          subst (λ x. Dict.lookup w.context.rules x ≡ some r) (sym (own_name name e) ∙ same) e in
        n (ground (arith, g, h))

    shorter :
        (x : Removes w r rule (delete_rule_cb r w))
        → length (Dict.entries w.context.rules) ≡ suc (length (Dict.entries x.after.context.rules))
    shorter x =
        let found : Dict.lookup w.context.rules rule.service ≡ some r =
          subst (λ n. Dict.lookup w.context.rules n ≡ some r) (sym (own_name name e)) e in
        Dict.length-remove w.context.rules rule.service r found
        ∙ ap (λ (d : Dict (List ℕ) Ptr). suc (length (Dict.entries d))) (sym x.names)

    -- One round of the loop, and the rest.
    round-Closes :
        (fuel : ℕ) (x : Removes w r rule (delete_rule_cb r w))
        → Dict.root w.context.rules ≡ some (name, r)
        → Closes x.after (delete_rules fuel x.after)
        → Closes w (delete_rules (suc fuel) w)
    round-Closes fuel x g rest = record {
      after = rest.after;
      returns = delete_rules_go fuel x g ∙ rest.returns;
      no_rules = rest.no_rules;
      rules_freed = λ other q h. elim (Bool-cases (r == q)) [
        | inl k ↦ rest.rules_shrink q (ground (arith, x.gone, k))
        | inr k ↦
            let n : r ≢ q = ground (arith, k) in
            rest.rules_freed other q (x.other_names other (other_name other q n h) ∙ h)
      ];
      rules_shrink = λ q h. elim (Bool-cases (r == q)) [
        | inl k ↦ rest.rules_shrink q (ground (arith, x.gone, k))
        | inr k ↦ rest.rules_shrink q (x.other_rules q (ground (arith, k)) ∙ h)
      ];
      sessions_freed = λ other p s h i. elim (Bool-cases (r == s.rule)) [
        | inl k ↦ rest.sessions_shrink p (x.frees s.handle p (listed p s h (ground (arith, k))))
        | inr k ↦
            let n : r ≢ s.rule = ground (arith, k) in
            rest.sessions_freed other p s (x.spares p s h (λ same. n (sym same)))
              (x.other_names other (other_name other s.rule n i) ∙ i)
      ];
      sessions_shrink = λ p h. rest.sessions_shrink p (ground (arith, x.shrinks p, h));
    }

delete_rules_stop :
    (fuel : ℕ) (w : World)
    → Dict.root w.context.rules ≡ none
    → delete_rules (suc fuel) w ≡ some (tt, w)
unfolding delete_rules
delete_rules_stop fuel w e = ground arith

stop-Closes :
    (fuel : ℕ) (w : World) → Dict.root w.context.rules ≡ none → Closes w (delete_rules (suc fuel) w)
stop-Closes fuel w e =
    let none_at = λ (name : List ℕ). Dict.lookup_of_root_none w.context.rules name e in
    record {
      after = w;
      returns = delete_rules_stop fuel w e;
      no_rules = none_at;
      rules_freed = λ name r g. absurd (ground (arith, none_at name, g));
      rules_shrink = λ q g. g;
      sessions_freed = λ name p s g h. absurd (ground (arith, none_at name, h));
      sessions_shrink = λ p g. g;
    }

delete_rules-Closes :
    (fuel : ℕ) (w : World)
    → IsComplete w
    → length (Dict.entries w.context.rules) < fuel
    → Closes w (delete_rules fuel w)
delete_rules-Closes zero w full lt = absurd (omega arith)
delete_rules-Closes (suc fuel) w full lt = elim (Option-cases (Dict.root w.context.rules)) [
  | inl e ↦ stop-Closes fuel w e
  | inr ((name, r), e) ↦
      let found = Dict.lookup-root w.context.rules name r e in
      let (rule, f) = full.consistent.named name r found in
      let x = removed w r rule name full found f in
      round-Closes w r rule name full found f fuel x e (
        delete_rules-Closes fuel x.after (after-IsComplete w r rule name full found f x)
          (omega (arith, shorter w r rule name full found f x)))
]

-- From a consistent state where each session is in a table of its rule and the context lists each
-- rule under its service: the loop of `delete_context_cb_` ends, and nothing faults. The context
-- has no rules then, and each of its rules is freed, with all the sessions of that rule.
pub delete_context_cb-Closes : (w : World) → IsComplete w → Closes w (delete_context_cb w)
unfolding delete_context_cb
delete_context_cb-Closes w full =
    delete_rules-Closes (suc (length (Dict.entries w.context.rules))) w full (omega arith)
