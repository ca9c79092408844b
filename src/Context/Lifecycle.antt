-- ===== src/Context/Lifecycle.antt =====
-- How a context ends (c/src/t2u_context.c).
use t2u.Common.{ℕ, zero, suc, length, none, some}
use t2u.Rbtree.Dict
use t2u.Compare.{name_ord}
use t2u.World.Monad.{M, skip, fault, ◌>>=◌, ◌>>◌, get}
use t2u.Rule.Lifecycle.{delete_rule_cb}

-- The loop of `delete_context_cb_`: while the tree of the rules has a root, its rule is deleted.
-- `t2u_delete_rule` calls `delete_rule_cb_` at once there, since the loop is in the runner's thread.
unfoldable pub delete_rules : (fuel : ℕ) → M (Unit {0})
delete_rules zero = fault
delete_rules (suc fuel) = do
  w ← get
  elim (Dict.root w.context.rules) [
    | none ↦ skip
    | some (name, r) ↦ delete_rule_cb r >> delete_rules fuel
  ]

-- `delete_context_cb_`, up to the entry of the context in its runner.
unfoldable pub delete_context_cb : M (Unit {0})
delete_context_cb = do w ← get; delete_rules (suc (length (Dict.entries w.context.rules)))
