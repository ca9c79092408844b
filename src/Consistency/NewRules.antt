-- ===== src/Consistency/NewRules.antt =====
-- A new rule (c/src/t2u_rule.c) keeps the tables consistent.
use t2u.Common.{
  ℕ, ◌≡◌, sym, ◌∙◌, ◌⊎◌, inl, inr, Bool, true, false, Bool-cases, none, some, List, arith, ◌==◌,
  subst, Allows,
}
use t2u.Rbtree.Dict
use t2u.Rbtree.Dict.{Dict}
use t2u.Compare.{uint_ord, name_ord, lookup-insert_name}
use t2u.World.{Ptr, Rule, ForwardMode, forward_client_mode, forward_server_mode, World}
use t2u.World.Monad.{update, emit}
use t2u.World.Laws.{update_self}
use t2u.Rule.Lifecycle.{
  ListenResult, no_socket, bind_failed, listen_failed, listening, new_rule, enter_rule,
  t2u_add_rule,
}
use t2u.Rule.Adding.{with_rule, enter_rule_lem}
use t2u.Consistency.Heap.{IsConsistent, Lists}

-- What a name leads to after an insertion: the new rule, or what it led to before.
insert-names :
    (names : Dict (List ℕ) Ptr) (service name : List ℕ) (r q : Ptr)
    → Dict.lookup (Dict.insert names service r) name ≡ some q
    → (r ≡ q) ⊎ (Dict.lookup names name ≡ some q)
insert-names names service name r q e = elim (lookup-insert_name names service name r) [
  | inl f ↦ inr (sym f ∙ e)
  | inr f ↦ inl (ground (arith, e, f))
]

module _ (w : World) (r : Ptr) (rule : Rule) (ok : IsConsistent w)
    (fresh : w.rule_heap r ≡ none) where
  stays :
      (q : Ptr)
      → (x : Rule) × (w.rule_heap q ≡ some x)
      → (x : Rule) × (update w.rule_heap r (some rule) q ≡ some x)
  stays q (x, f) = elim (Bool-cases (r == q)) [
    | inl g ↦ (rule, ground (arith, g))
    | inr g ↦ (x, ground (arith, g, f))
  ]

  -- A rule of the heap is the new one, or was there.
  is_new :
      (q : Ptr) (x : Rule)
      → update w.rule_heap r (some rule) q ≡ some x
      → (rule ≡ x) ⊎ (w.rule_heap q ≡ some x)
  is_new q x e = ground arith

  none_listed :
      (x : Rule) (table : Dict ℕ Ptr) (b : Bool) (q : Ptr)
      → ((h : ℕ) → Dict.lookup table h ≡ none)
      → Lists w.session_heap q table b
  none_listed x table b q empty h p e = absurd (ground (arith, empty h, e))

  with_rule-IsConsistent :
      ((h : ℕ) → Dict.lookup rule.sessions h ≡ none)
      → ((h : ℕ) → Dict.lookup rule.connecting_sessions h ≡ none)
      → IsConsistent (with_rule w r rule)
  with_rule-IsConsistent no_sessions no_connecting = record {
    named = λ name q g. elim (insert-names w.context.rules rule.service name r q g) [
      | inl e ↦ (
        rule,
        subst (λ x. update w.rule_heap r (some rule) x ≡ some rule) e
            (update_self w.rule_heap r (some rule)),
      )
      | inr e ↦ stays q (ok.named name q e)
    ];
    connected = λ q x g. elim (is_new q x g) [
      | inl e ↦
          subst (λ (y : Rule). Lists w.session_heap q y.sessions false) e
            (none_listed rule rule.sessions false q no_sessions)
      | inr e ↦ ok.connected q x e
    ];
    pending = λ q x g. elim (is_new q x g) [
      | inl e ↦
          subst (λ (y : Rule). Lists w.session_heap q y.connecting_sessions true) e
            (none_listed rule rule.connecting_sessions true q no_connecting)
      | inr e ↦ ok.pending q x e
    ];
    owned = λ p s g. stays s.rule (ok.owned p s g);
    bound = ok.bound;
    quiet = ok.quiet;
  }

module _ (w : World) (r : Ptr) (ok : IsConsistent w) (fresh : w.rule_heap r ≡ none) where
  enter_rule-IsConsistent :
      (mode : ForwardMode) (sock : ℕ) (service : List ℕ)
      → Allows (λ (a, x). IsConsistent x) (enter_rule r mode sock service w)
  enter_rule-IsConsistent mode sock service =
      subst (Allows (λ (a, x). IsConsistent x)) (sym (enter_rule_lem w r mode sock service)) (
        with_rule-IsConsistent w r (new_rule mode sock service) ok fresh
          (λ h. Dict.lookup-init {K = ℕ} {V = Ptr} h) (λ h. Dict.lookup-init {K = ℕ} {V = Ptr} h))

  pub add_rule-IsConsistent :
      (mode : ForwardMode) (result : ListenResult) (service : List ℕ)
      → Allows (λ (a, x). IsConsistent x) (t2u_add_rule r result mode service w)
  unfolding t2u_add_rule emit
  add_rule-IsConsistent forward_server_mode result service =
      enter_rule-IsConsistent forward_server_mode 0 service
  add_rule-IsConsistent forward_client_mode no_socket service = ok
  add_rule-IsConsistent forward_client_mode (bind_failed sock) service = ok
  add_rule-IsConsistent forward_client_mode (listen_failed sock) service = ok
  add_rule-IsConsistent forward_client_mode (listening sock) service =
      enter_rule-IsConsistent forward_client_mode sock service
