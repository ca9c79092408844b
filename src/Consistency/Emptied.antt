-- ===== src/Consistency/Emptied.antt =====
-- The loops of `delete_rule_cb_` (c/src/t2u_rule.c) over the sessions of a rule.
use t2u.Common.{
  ℕ, zero, suc, ◌<◌, ◌≡◌, ◌≢◌, refl, sym, ap, ◌∙◌, ◌⊎◌, inl, inr, Option, none, some, List, [],
  length, arith, ◌==◌, Bool-cases, Option-cases, subst,
}
use t2u.Rbtree.Dict
use t2u.Rbtree.Dict.{Dict}
use t2u.Compare.{uint_ord, name_ord, lookup-remove}
use t2u.World.{Ptr, Session, Rule, Effect, World}
use t2u.World.Monad.{M, load_rule, update}
use t2u.World.Laws.{update_self, update-update, update_same}
use t2u.Rule.Lifecycle.{delete_sessions}
use t2u.Consistency.Heap.{AreConsistent, IsConsistent}

-- The world with other heaps and effects.
abbrev pub with_heaps :
    World → (rules : Ptr → Option Rule) → (sessions : Ptr → Option Session) → List Effect → World
with_heaps w rules sessions es = record w {
  rule_heap = rules;
  session_heap = sessions;
  effects = es;
}

-- The rule with another content of one table.
abbrev pub set_connected : Rule → Dict ℕ Ptr → Rule
set_connected rule d = record rule { sessions = d }

abbrev pub set_connecting : Rule → Dict ℕ Ptr → Rule
set_connecting rule d = record rule { connecting_sessions = d }

module _ (r : Ptr) (table : Rule → Dict ℕ Ptr) (set : Rule → Dict ℕ Ptr → Rule) where
  -- Deleting one listed session gives a result, and frees that session only.
  pub record Deletes (delete : Ptr → M (Unit {0})) (w : World) (rule : Rule) (handle p : ℕ)
      : Type 0 where
    pub effects : List Effect
    pub session : Session
    pub was : w.session_heap p ≡ some session
    pub of_rule : session.rule ≡ r
    pub returns :
        delete p w
        ≡ some (
          tt,
          with_heaps w
              (update w.rule_heap r (some (set rule (Dict.remove (table rule) handle).1)))
              (update w.session_heap p none)
              effects,
        )
    pub ok : IsConsistent (
        with_heaps w
          (update w.rule_heap r (some (set rule (Dict.remove (table rule) handle).1)))
          (update w.session_heap p none)
          effects)

  -- A loop over a table gives a result: the table is empty then, each session that it listed is
  -- freed, and no session of another rule is.
  pub record Empties (loop : M (Unit {0})) (w : World) (rule : Rule) : Type 0 where
    pub effects : List Effect
    pub heap : Ptr → Option Session
    pub left : Dict ℕ Ptr
    pub returns :
        loop w ≡ some (tt, with_heaps w (update w.rule_heap r (some (set rule left))) heap effects)
    pub ok : IsConsistent (with_heaps w (update w.rule_heap r (some (set rule left))) heap effects)
    pub empty : Dict.entries left ≡ []
    pub shrinks : (q : Ptr) → (heap q ≡ none) ⊎ (heap q ≡ w.session_heap q)
    pub frees : (h q : ℕ) → Dict.lookup (table rule) h ≡ some q → heap q ≡ none
    pub spares : (q : Ptr) (s : Session) → w.session_heap q ≡ some s → s.rule ≢ r → heap q ≡ some s

  module _ (delete : Ptr → M (Unit {0}))
      (table_set : (rule : Rule) (d : Dict ℕ Ptr) → table (set rule d) ≡ d)
      (set_set : (rule : Rule) (d e : Dict ℕ Ptr) → set (set rule d) e ≡ set rule e)
      (set_same : (rule : Rule) → set rule (table rule) ≡ rule)
      (one : (w : World) (rule : Rule) (h p : ℕ)
        → IsConsistent w
        → w.rule_heap r ≡ some rule
        → Dict.lookup (table rule) h ≡ some p
        → Deletes delete w rule h p) where
    loop_stop :
        (fuel : ℕ) (w : World) (rule : Rule)
        → w.rule_heap r ≡ some rule
        → Dict.root (table rule) ≡ none
        → delete_sessions (suc fuel) table delete r w ≡ some (tt, w)
    unfolding delete_sessions load_rule
    loop_stop fuel w rule f g = ground arith

    loop_go :
        (fuel : ℕ) (w w' : World) (rule : Rule) (h p : ℕ)
        → w.rule_heap r ≡ some rule
        → Dict.root (table rule) ≡ some (h, p)
        → delete p w ≡ some (tt, w')
        → delete_sessions (suc fuel) table delete r w ≡ delete_sessions fuel table delete r w'
    unfolding delete_sessions load_rule
    loop_go fuel w w' rule h p f g e = ground arith

    stop :
        (fuel : ℕ) (w : World) (rule : Rule)
        → IsConsistent w
        → w.rule_heap r ≡ some rule
        → Dict.root (table rule) ≡ none
        → Empties (delete_sessions (suc fuel) table delete r) w rule
    stop fuel w rule ok f e =
        let same : update w.rule_heap r (some (set rule (table rule))) ≡ w.rule_heap =
          update_same w.rule_heap r _ (f ∙ ap some (sym (set_same rule))) in
        record {
          effects = w.effects;
          heap = w.session_heap;
          left = table rule;
          returns =
              loop_stop fuel w rule f e
              ∙ ap (λ rules. some (tt, with_heaps w rules w.session_heap w.effects)) (sym same);
          ok = subst (λ rules. AreConsistent w.context.rules rules w.session_heap) (sym same) ok;
          empty = Dict.entries_of_root_none (table rule) e;
          shrinks = λ q. inr refl;
          frees = λ h q g. absurd (ground (arith, Dict.lookup_of_root_none (table rule) h e, g));
          spares = λ q s g n. g;
        }

    go :
        (fuel : ℕ) (w : World) (rule : Rule) (h p : ℕ)
        → IsConsistent w
        → w.rule_heap r ≡ some rule
        → Dict.root (table rule) ≡ some (h, p)
        → Dict.lookup (table rule) h ≡ some p
        → (first : Deletes delete w rule h p)
        → Empties
            (delete_sessions fuel table delete r)
            (with_heaps w
              (update w.rule_heap r (some (set rule (Dict.remove (table rule) h).1)))
              (update w.session_heap p none)
              first.effects)
            (set rule (Dict.remove (table rule) h).1)
        → Empties (delete_sessions (suc fuel) table delete r) w rule
    go fuel w rule h p ok f e found first rest =
        let rule' = set rule (Dict.remove (table rule) h).1 in
        let same : update (update w.rule_heap r (some rule')) r (some (set rule' rest.left))
            ≡ update w.rule_heap r (some (set rule rest.left)) =
          update-update w.rule_heap r _ _
          ∙ ap (λ x. update w.rule_heap r (some x)) (set_set rule _ rest.left) in
        record {
          effects = rest.effects;
          heap = rest.heap;
          left = rest.left;
          returns =
              loop_go fuel w _ rule h p f e first.returns
              ∙ rest.returns
              ∙ ap (λ rules. some (tt, with_heaps w rules rest.heap rest.effects)) same;
          ok = subst (λ rules. AreConsistent w.context.rules rules rest.heap) same rest.ok;
          empty = rest.empty;
          shrinks = λ q. ground (arith, rest.shrinks q);
          frees = λ h' q g. elim (Bool-cases (h == h')) [
            | inl i ↦ ground (arith, i, g, found, rest.shrinks q)
            | inr i ↦ rest.frees h' q (
                rw (table_set rule (Dict.remove (table rule) h).1)
                  (ground (arith, lookup-remove (table rule) h h', i, g)))
          ];
          spares = λ q s g n. elim (Bool-cases (p == q)) [
            | inl i ↦ ground (arith, i, g, n, first.was, first.of_rule)
            | inr i ↦ rest.spares q s (ground (arith, i, g)) n
          ];
        }

    pub delete_sessions-Empties :
        (fuel : ℕ) (w : World) (rule : Rule)
        → IsConsistent w
        → w.rule_heap r ≡ some rule
        → length (Dict.entries (table rule)) < fuel
        → Empties (delete_sessions fuel table delete r) w rule
    delete_sessions-Empties zero w rule ok f lt = absurd (omega arith)
    delete_sessions-Empties (suc fuel) w rule ok f lt =
        elim (Option-cases (Dict.root (table rule))) [
          | inl e ↦ stop fuel w rule ok f e
          | inr ((h, p), e) ↦
              let found = Dict.lookup-root (table rule) h p e in
              let first = one w rule h p ok f found in
              let rule' = set rule (Dict.remove (table rule) h).1 in
              go fuel w rule h p ok f e found first (
                delete_sessions-Empties fuel _ rule' first.ok
                  (update_self w.rule_heap r (some rule')) (shorter rule h p fuel found lt))
        ]
      where
        shorter :
            (rule : Rule) (h p fuel : ℕ)
            → Dict.lookup (table rule) h ≡ some p
            → length (Dict.entries (table rule)) < suc fuel
            → length (Dict.entries (table (set rule (Dict.remove (table rule) h).1))) < fuel
        shorter rule h p fuel found lt =
            rw (table_set rule (Dict.remove (table rule) h).1)
              (omega (arith, Dict.length-remove (table rule) h p found, lt))
