-- ===== src/Runner/Race.antt =====
-- `free_forward` beside `create_forward` of another thread (c/src/t2u.c).
use t2u.Common.{
  ℕ, suc, ◌≡◌, Option-cases, none, some, List, [], ◌∷◌, ◌++◌, append_assoc, length, true, arith,
  inl, inr,
}
use t2u.Rbtree.Dict
use t2u.Rbtree.Dict.{Dict}
use t2u.Compare.{uint_ord, lookup-insert, lookup-remove}
use t2u.World.{Ptr}
use t2u.Runner.Contexts.{
  Global, t2u_runner_has_context, create_forward, t2u_delete_context, is_last, delete_contexts,
  t2u_delete_runner,
}
use t2u.Runner.Forward.{Has, root-ne-none, insert-has}

-- No context but this one is in the tree.
abbrev pub IsOnly : Dict ℕ Ptr → (c : Ptr) → Type 0
IsOnly d c = (k v : ℕ) → Dict.lookup d k ≡ some v → (k ≡ c) × (v ≡ c)

-- Without a lookup that succeeds there is no root.
root_none : (d : Dict ℕ Ptr) → ((k : ℕ) → Dict.lookup d k ≡ none) → Dict.root d ≡ none
root_none d empty = elim (Option-cases (Dict.root d)) [
  | inl e ↦ e
  | inr ((k, v), e) ↦ absurd (ground (arith, empty k, Dict.lookup-root d k v e))
]

removed-empty :
    (d : Dict ℕ Ptr) (c : Ptr) → IsOnly d c → (k : ℕ) → Dict.lookup (Dict.remove d c).1 k ≡ none
removed-empty d c only k = elim (Option-cases (Dict.lookup d k)) [
  | inl e ↦ ground (arith, lookup-remove d c k, e)
  | inr (v, e) ↦ ground (arith, lookup-remove d c k, only k v e)
]

delete_one :
    (fuel : ℕ) (d : Dict ℕ Ptr) (q : Ptr) (dl : List Ptr)
    → IsOnly d q
    → Dict.root d ≡ some (q, q)
    → delete_contexts (suc (suc fuel)) d dl ≡ some (dl ++ q ∷ [])
unfolding delete_contexts
delete_one fuel d q dl only e =
    ground (arith, e, root_none (Dict.remove d q).1 (removed-empty d q only))

delete_only :
    (d : Dict ℕ Ptr) (q : Ptr) (dl : List Ptr)
    → IsOnly d q
    → Dict.lookup d q ≡ some q
    → delete_contexts (suc (length (Dict.entries d))) d dl ≡ some (dl ++ q ∷ [])
delete_only d q dl only found = elim (Option-cases (Dict.root d)) [
  | inl e ↦ absurd (root-ne-none d q q found e)
  | inr ((k, v), e) ↦
      let (same, same') = only k v (Dict.lookup-root d k v e) in
      let e' : Dict.root d ≡ some (q, q) = ground (arith, e, same, same') in
      rw (Dict.length-remove d q q found)
        (delete_one (length (Dict.entries (Dict.remove d q).1)) d q dl only e')
]

inserted-IsOnly :
    (d : Dict ℕ Ptr) (q : Ptr) → ((k : ℕ) → Dict.lookup d k ≡ none) → IsOnly (Dict.insert d q q) q
inserted-IsOnly d q empty k v e = ground (arith, lookup-insert d q k q, empty k, e)

module _ (d : Dict ℕ Ptr) (dl : List Ptr) (c q : Ptr) where
  -- Where one thread frees the last context, the test of `free_forward` succeeds. If another thread
  -- creates a context then, before the first takes the mutex, `t2u_delete_runner` frees the new
  -- context as well, although `create_forward` has returned it.
  pub free_forward-Loses :
      IsOnly d c
      → let g : Global = record { contexts = some d; deleted = dl } in
        let freed = t2u_delete_context c g in
        (is_last freed ≡ true)
        × Has (create_forward q freed) q
        × (t2u_delete_runner (create_forward q freed)
            ≡ some (record { contexts = none; deleted = dl ++ c ∷ q ∷ [] }))
  unfolding t2u_delete_context create_forward is_last t2u_delete_runner t2u_runner_has_context
  free_forward-Loses only =
      let d' = (Dict.remove d c).1 in
      let empty = removed-empty d c only in
      let has = insert-has d' q (λ k v e. absurd (ground (arith, empty k, e))) in
      (
        ground (arith, root_none d' empty),
        has,
        ground (
          arith,
          delete_only (Dict.insert d' q q) q (dl ++ c ∷ []) (inserted-IsOnly d' q empty) has,
          append_assoc dl (c ∷ []) (q ∷ []),
        ),
      )
