-- ===== src/Runner/Contexts.antt =====
-- The runner that all contexts share (c/src/t2u.c), and its tree of contexts (c/src/t2u_runner.c,
-- c/src/t2u_context.c).
use t2u.Common.{
  ℕ, zero, suc, Option, none, some, List, [], ◌∷◌, ◌++◌, length, Bool, true, false, not,
  if◌then◌else◌,
}
use t2u.Rbtree.Dict
use t2u.Rbtree.Dict.{Dict}
use t2u.Compare.{uint_ord}
use t2u.World.{Ptr}

-- `g_runner`, by its tree of contexts: `none` is NULL. `deleted` lists the contexts that were
-- freed, in this order.
pub record Global : Type 0 where
  pub contexts : Option (Dict ℕ Ptr)
  pub deleted : List Ptr

-- `t2u_runner_has_context`
unfoldable pub t2u_runner_has_context : Dict ℕ Ptr → Bool
t2u_runner_has_context contexts = elim (Dict.root contexts) [ none ↦ false | some _ ↦ true ]

-- `t2u_runner_new`: the tree is empty.
unfoldable pub t2u_runner_new : Dict ℕ Ptr
t2u_runner_new = Dict.init

-- `create_forward`; `c` is the address of the new context, which `add_context_cb_` enters.
unfoldable pub create_forward : (c : Ptr) → Global → Global
create_forward c g = elim (g.contexts) [
  | none ↦ record g { contexts = some (Dict.insert t2u_runner_new c c) }
  | some contexts ↦ record g { contexts = some (Dict.insert contexts c c) }
]

-- `t2u_delete_context` of a context of this runner: `delete_context_cb_` takes it out of the tree and
-- frees it.
unfoldable pub t2u_delete_context : (c : Ptr) → Global → Global
t2u_delete_context c g = elim (g.contexts) [
  | none ↦ g
  | some contexts ↦ record {
    contexts = some (Dict.remove contexts c).1;
    deleted = g.deleted ++ c ∷ [];
  }
]

-- The test of `free_forward`, which it makes without the mutex.
unfoldable pub is_last : Global → Bool
is_last g = elim (g.contexts) [
  | none ↦ false
  | some contexts ↦ not (t2u_runner_has_context contexts)
]

-- The loop of `delete_runner_cb_`.
unfoldable pub delete_contexts : (fuel : ℕ) → Dict ℕ Ptr → List Ptr → Option (List Ptr)
delete_contexts zero contexts deleted = none
delete_contexts (suc fuel) contexts deleted = elim (Dict.root contexts) [
  | none ↦ some deleted
  | some (key, c) ↦ delete_contexts fuel (Dict.remove contexts c).1 (deleted ++ c ∷ [])
]

-- `t2u_delete_runner(g_runner); g_runner = NULL`
unfoldable pub t2u_delete_runner : Global → Option Global
t2u_delete_runner g = elim (g.contexts) [
  | none ↦ some g
  | some contexts ↦
      elim (delete_contexts (suc (length (Dict.entries contexts))) contexts g.deleted) [
        | none ↦ none
        | some deleted ↦ some (record { contexts = none; deleted = deleted })
      ]
]

-- `free_forward`
unfoldable pub free_forward : (c : Ptr) → Global → Option Global
free_forward c g =
    let g' = t2u_delete_context c g in if is_last g' then t2u_delete_runner g' else some g'
