-- ===== src/Rbtree/Table.antt =====
-- c/src/t2u_rbtree.c: the tree and the operations that the program calls.
use t2u.Common.{ℕ, Ordering, compare, Bool, Option, none, some, [], ◌∷◌, if◌then◌else◌, ◌>>=◌}
use t2u.Rbtree.Insert.{insert_fixup}
use t2u.Rbtree.Remove.{remove_node}
use t2u.Rbtree.Node.{rb_black, rb_red, RbtreeNode, nil, node, in_left, in_right, Parents, set_color}

pub data ReturnCode : Type 0 where
  success out_of_memory not_found same_node : ReturnCode

-- `rbtree_cmp_proc`, by the sign of the C result.
abbrev pub RbtreeCmpProc {ℓ} : Type ℓ → Type ℓ
RbtreeCmpProc K = K → K → Ordering

pub record Rbtree {ℓ κ} (K : Type ℓ) (V : Type κ) : Type (ℓ ⊔ κ) where
  pub root : RbtreeNode K V
  pub cmp : RbtreeCmpProc K

-- `compare_default`: the order of the addresses that the keys have.
unfoldable pub compare_default {ℓ} : {K : Type ℓ} → (K → ℕ) → RbtreeCmpProc K
compare_default address a b = compare (address a) (address b)

module _ {ℓ κ} {K : Type ℓ} {V : Type κ} where
  -- `rbtree_init`; `memory` is false where `malloc` gives NULL, and `none` for the comparison is
  -- NULL.
  unfoldable pub rbtree_init :
      (memory : Bool) → (K → ℕ) → Option (RbtreeCmpProc K) → Option (Rbtree K V)
  rbtree_init memory address cmp =
      if memory
      then some
          (record { root = nil; cmp = elim cmp [ none ↦ compare_default address | some c ↦ c ] })
      else none

  -- `do_lookup`, with the parents of the place where it stops.
  unfoldable pub do_lookup :
      RbtreeCmpProc K → K → RbtreeNode K V → Parents K V → RbtreeNode K V × Parents K V
  do_lookup cmp key nil up = (nil, up)
  do_lookup cmp key (node c l k v r) up = elim (cmp k key) [
    | Ordering.eq ↦ (node c l k v r, up)
    | Ordering.lt ↦ do_lookup cmp key r (in_right c l k v ∷ up)
    | Ordering.gt ↦ do_lookup cmp key l (in_left c k v r ∷ up)
  ]

  -- `node == NULL ? NULL : node->data`
  abbrev pub data_of : RbtreeNode K V → Option V
  data_of nil = none
  data_of (node c l k v r) = some v

  unfoldable pub rbtree_lookup : Rbtree K V → K → Option V
  rbtree_lookup tree key = data_of (do_lookup tree.cmp key tree.root []).0

  -- `__rbtree_insert` of a node with this key and data, at the place where the search stopped.
  unfoldable pub insert_node :
      Rbtree K V → K → V → RbtreeNode K V → Parents K V → Option (ReturnCode × Rbtree K V)
  insert_node tree key v (node _ _ _ _ _) up = some (same_node, tree)
  insert_node tree key v nil up = do
    top ← insert_fixup (node rb_red nil key v nil) up
    top' ← set_color rb_black top
    some (success, record tree { root = top' })

  -- `rbtree_insert`; `memory` is false where `malloc` gives NULL.
  unfoldable pub rbtree_insert : Bool → Rbtree K V → K → V → Option (ReturnCode × Rbtree K V)
  rbtree_insert memory tree key v =
      if memory
      then (let (found, up) = do_lookup tree.cmp key tree.root [] in
          insert_node tree key v found up)
      else some (out_of_memory, tree)

  unfoldable pub remove_found :
      Rbtree K V → RbtreeNode K V → Parents K V → Option (ReturnCode × Rbtree K V)
  remove_found tree nil up = some (not_found, tree)
  remove_found tree (node c l k v r) up = do
    top ← remove_node (node c l k v r) up
    some (success, record tree { root = top })

  unfoldable pub rbtree_remove : Rbtree K V → K → Option (ReturnCode × Rbtree K V)
  rbtree_remove tree key =
      let (found, up) = do_lookup tree.cmp key tree.root [] in remove_found tree found up
