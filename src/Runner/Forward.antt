-- ===== src/Runner/Forward.antt =====
-- When the shared runner is there (c/src/t2u.c).
use t2u.Common.{
  ℕ, zero, suc, ◌<◌, ◌≡◌, ◌≢◌, refl, sym, ap, ◌∙◌, inl, inr, Option, Option-cases, none, some, List,
  [], ◌∷◌, ◌++◌, append-nil, append_assoc, length, arith, subst,
}
use t2u.Rbtree.Dict
use t2u.Rbtree.Dict.{Dict}
use t2u.Compare.{uint_ord, lookup-insert, lookup-remove}
use t2u.World.{Ptr}
use t2u.Runner.Contexts.{
  Global, t2u_runner_has_context, t2u_runner_new, create_forward, t2u_delete_context, is_last,
  delete_contexts, t2u_delete_runner, free_forward,
}

-- The context is in the tree.
abbrev pub Has : Global → (c : Ptr) → Type 0
Has g c = elim (g.contexts) [ none ↦ ⊥ × Unit {0} | some d ↦ Dict.lookup d c ≡ some c ]

-- Each key of the tree is the address of its context, and a runner that is there has a context.
pub record IsTidy (g : Global) : Type 0 where
  pub keyed : (d : Dict ℕ Ptr) (k c : ℕ) → g.contexts ≡ some d → Dict.lookup d k ≡ some c → k ≡ c
  pub used : (d : Dict ℕ Ptr) → g.contexts ≡ some d → Dict.root d ≢ none

-- A tree with an entry has a root.
pub root-ne-none : (d : Dict ℕ Ptr) (c v : Ptr) → Dict.lookup d c ≡ some v → Dict.root d ≢ none
root-ne-none d c v e f = ground (arith, e, Dict.lookup_of_root_none d c f)

create_forward_lem :
    (c : Ptr) (g : Global)
    → create_forward c g ≡ record g {
      contexts = some (elim (g.contexts) [
        | none ↦ Dict.insert t2u_runner_new c c
        | some d ↦ Dict.insert d c c
      ]);
    }
unfolding create_forward
create_forward_lem c g = ground arith

-- Of an insertion of a context under its own address.
insert-keyed :
    (d : Dict ℕ Ptr) (c : Ptr)
    → ((k v : ℕ) → Dict.lookup d k ≡ some v → k ≡ v)
    → (k v : ℕ) → Dict.lookup (Dict.insert d c c) k ≡ some v
    → k ≡ v
insert-keyed d c keyed k v e = elim (Option-cases (Dict.lookup d k)) [
  | inl f ↦ ground (arith, lookup-insert d c k c, e, f)
  | inr (u, f) ↦ ground (arith, lookup-insert d c k c, e, f, keyed k u f)
]

-- A new context is in the tree.
pub insert-has :
    (d : Dict ℕ Ptr) (c : Ptr)
    → ((k v : ℕ) → Dict.lookup d k ≡ some v → k ≡ v)
    → Dict.lookup (Dict.insert d c c) c ≡ some c
insert-has d c keyed = elim (Option-cases (Dict.lookup d c)) [
  | inl f ↦ ground (arith, lookup-insert d c c c, f)
  | inr (u, f) ↦ ground (arith, lookup-insert d c c c, f, keyed c u f)
]

delete_contexts-cases :
    (fuel : ℕ) (d : Dict ℕ Ptr) (deleted : List Ptr)
    → ((k v : ℕ) → Dict.lookup d k ≡ some v → k ≡ v)
    → length (Dict.entries d) < fuel
    → (freed : List Ptr) × (delete_contexts fuel d deleted ≡ some (deleted ++ freed))
      × (length freed ≡ length (Dict.entries d))
unfolding delete_contexts
delete_contexts-cases zero d deleted keyed lt = absurd (omega arith)
delete_contexts-cases (suc fuel) d deleted keyed lt = elim (Option-cases (Dict.root d)) [
  | inl e ↦ (
    [],
    rw (e, delete_contexts) (ap some (sym (append-nil deleted))),
    ap length (sym (Dict.entries_of_root_none d e)),
  )
  | inr ((k, c), e) ↦
      let found = Dict.lookup-root d k c e in
      let same = keyed k c found in
      let there : Dict.lookup d c ≡ some c = subst (λ x. Dict.lookup d x ≡ some c) same found in
      let (freed, f, n) =
        delete_contexts-cases fuel (Dict.remove d c).1 (deleted ++ c ∷ [])
          (λ q v g. keyed q v (ground (arith, lookup-remove d c q, g)))
          (omega (arith, Dict.length-remove d c c there)) in
      (
        c ∷ freed,
        rw (e, delete_contexts) (f ∙ ap some (append_assoc deleted (c ∷ []) freed)),
        omega (arith, n, Dict.length-remove d c c there),
      )
]

keyed_of :
    (d : Dict ℕ Ptr) (dl : List Ptr)
    → IsTidy (record { contexts = some d; deleted = dl })
    → (k v : ℕ) → Dict.lookup d k ≡ some v
    → k ≡ v
keyed_of d dl tidy k v e = tidy.keyed d k v refl e

IsTidy-of :
    (d : Dict ℕ Ptr) (dl : List Ptr)
    → ((k v : ℕ) → Dict.lookup d k ≡ some v → k ≡ v)
    → Dict.root d ≢ none
    → IsTidy (record { contexts = some d; deleted = dl })
IsTidy-of d dl keyed used = record {
  keyed = λ e k v f g. keyed k v (ground (arith, f, g));
  used = λ e f g. used (ground (arith, f, g));
}

-- The context was freed, and no other was. The others are in the tree as before, and the runner is
-- there as long as one of them is.
abbrev pub Frees : Global → (c : Ptr) → Option Global → Type 0
Frees g c o =
    (g' : Global) × (o ≡ some g')
    × IsTidy g'
    × (g'.deleted ≡ g.deleted ++ c ∷ [])
    × (¬ Has g' c)
    × ((q : Ptr) → c ≢ q → Has g q → Has g' q)

module _ (d : Dict ℕ Ptr) (dl : List Ptr) (c : Ptr) where
  abbrev before : Global
  before = record { contexts = some d; deleted = dl }

  free_last :
      Dict.root (Dict.remove d c).1 ≡ none
      → free_forward c before ≡ some (record { contexts = none; deleted = dl ++ c ∷ [] })
  unfolding free_forward t2u_delete_context is_last t2u_runner_has_context t2u_delete_runner
      delete_contexts
  free_last e = ground arith

  free_one :
      (k v : ℕ)
      → Dict.root (Dict.remove d c).1 ≡ some (k, v)
      → free_forward c before
        ≡ some (record { contexts = some (Dict.remove d c).1; deleted = dl ++ c ∷ [] })
  unfolding free_forward t2u_delete_context is_last t2u_runner_has_context
  free_one k v e = ground arith

  others_gone : Dict.root (Dict.remove d c).1 ≡ none → (q : Ptr) → c ≢ q → Dict.lookup d q ≢ some q
  others_gone e q n f =
      ground (arith, Dict.lookup_of_root_none (Dict.remove d c).1 q e, lookup-remove d c q, f, n)

  free-Frees : IsTidy before → Frees before c (free_forward c before)
  free-Frees tidy = elim (Option-cases (Dict.root (Dict.remove d c).1)) [
    | inl e ↦ (
      record { contexts = none; deleted = dl ++ c ∷ [] },
      free_last e,
      record { keyed = λ x k v f. cc; used = λ x f. cc },
      refl,
      (λ h. h.0),
      (λ q n f. absurd (others_gone e q n f)),
    )
    | inr ((k, v), e) ↦ (
      record { contexts = some (Dict.remove d c).1; deleted = dl ++ c ∷ [] },
      free_one k v e,
      IsTidy-of (Dict.remove d c).1 (dl ++ c ∷ [])
          (λ q u f. keyed_of d dl tidy q u (ground (arith, lookup-remove d c q, f))) (λ f. cc),
      refl,
      (λ h. ground (arith, lookup-remove d c c, h)),
      (λ q n f. ground (arith, lookup-remove d c q, n, f)),
    )
  ]

-- For contexts that were created and not freed yet, while no other thread is in `create_forward` or
-- `free_forward`: `free_forward` frees the context and no other. The others stay in the tree of the
-- runner, and the runner is deleted exactly if there are none.
pub free_forward-Frees : (c : Ptr) (g : Global) → IsTidy g → Has g c → Frees g c (free_forward c g)
free_forward-Frees c g tidy has = of_tree (g.contexts) (g.deleted) tidy has
  where
    of_tree :
        (o : Option (Dict ℕ Ptr)) (dl : List Ptr)
        → IsTidy (record { contexts = o; deleted = dl })
        → Has (record { contexts = o; deleted = dl }) c
        → Frees
            (record { contexts = o; deleted = dl })
            c
            (free_forward c (record { contexts = o; deleted = dl }))
    of_tree none dl tidy has = absurd has.0
    of_tree (some d) dl tidy has = free-Frees d dl c tidy

-- For a tree of contexts where each key is the address of its context, and a runner that has a
-- context if it is there: `create_forward` keeps both, enters the context, starts a runner if there
-- is none, and leaves the other contexts as they are.
pub create_forward-IsTidy :
    (c : Ptr) (g : Global)
    → IsTidy g
    → IsTidy (create_forward c g)
      × Has (create_forward c g) c
      × ((q : Ptr) → Has g q → Has (create_forward c g) q)
      × ((create_forward c g).deleted ≡ g.deleted)
unfolding create_forward t2u_runner_new
create_forward-IsTidy c g tidy = of_tree (g.contexts) (g.deleted) tidy
  where
    of_tree :
        (o : Option (Dict ℕ Ptr)) (dl : List Ptr)
        → IsTidy (record { contexts = o; deleted = dl })
        → let g' = create_forward c (record { contexts = o; deleted = dl }) in
          IsTidy g'
          × Has g' c
          × ((q : Ptr) → Has (record { contexts = o; deleted = dl }) q → Has g' q)
          × (g'.deleted ≡ dl)
    of_tree none dl tidy =
        let keyed = λ (k v : ℕ) (e : Dict.lookup {K = ℕ} {V = Ptr} Dict.init k ≡ some v).
          absurd {A = k ≡ v} (ground (arith, Dict.lookup-init {K = ℕ} {V = Ptr} k, e)) in
        let has = insert-has Dict.init c keyed in
        (
          IsTidy-of (Dict.insert Dict.init c c) dl (insert-keyed Dict.init c keyed)
              (root-ne-none (Dict.insert Dict.init c c) c c has),
          has,
          (λ q h. absurd h.0),
          refl,
        )
    of_tree (some d) dl tidy =
        let keyed = keyed_of d dl tidy in
        let has = insert-has d c keyed in
        (
          IsTidy-of (Dict.insert d c c) dl (insert-keyed d c keyed)
              (root-ne-none (Dict.insert d c c) c c has),
          has,
          (λ q h. ground (arith, lookup-insert d c q c, h)),
          refl,
        )
