-- ===== src/Rbtree/Remove.antt =====
-- c/src/t2u_rbtree.c: `__rbtree_remove` and its six cases.
use t2u.Common.{
  ℕ, zero, suc, Bool, ◌&&◌, Option, none, some, [], ◌∷◌, ◌++◌, if◌then◌else◌, ◌>>=◌, length,
}
use t2u.Rbtree.Node.{
  RbColor, rb_black, rb_red, RbtreeNode, nil, node, Frame, in_left, in_right, Parents, is_black,
  is_red, get_color, set_color, sibling, parent_color, recolor, plug, rotate_left, rotate_right,
  rotate_parent, get_min,
}

module _ {ℓ κ} {K : Type ℓ} {V : Type κ} where
  -- `get_color(sibling->right) == RB_BLACK && get_color(sibling->left) == RB_BLACK`, in the order of
  -- either test: a read through the sibling, which is no NULL.
  unfoldable pub children_black : RbtreeNode K V → Option Bool
  children_black nil = none
  children_black (node c l k v r) = some (is_black (get_color r) && is_black (get_color l))

  unfoldable pub delete_case6 : Parents K V → Frame K V → Parents K V → Option (Parents K V)
  delete_case6 below (in_left c k v (node _ sl sk sv sr)) up = elim (get_color sr) [
    | rb_black ↦ none
    | rb_red ↦ do
      sr' ← set_color rb_black sr
      (p, s) ← rotate_parent (in_left rb_black k v (node c sl sk sv sr'))
      some (below ++ p ∷ s ∷ up)
  ]
  delete_case6 below (in_right c (node _ sl sk sv sr) k v) up = elim (get_color sl) [
    | rb_black ↦ none
    | rb_red ↦ do
      sl' ← set_color rb_black sl
      (p, s) ← rotate_parent (in_right rb_black (node c sl' sk sv sr) k v)
      some (below ++ p ∷ s ∷ up)
  ]
  delete_case6 below _ up = none

  -- The sibling as case 5 leaves it: turned towards the outer side.
  unfoldable pub straighten : Frame K V → Option (Frame K V)
  straighten (in_left c k v (node rb_black (node rb_red a ik iv b) sk sv r)) = elim (get_color r) [
    | rb_black ↦ do
      s ← rotate_right (node rb_red (node rb_black a ik iv b) sk sv r)
      some (in_left c k v s)
    | rb_red ↦ some (in_left c k v (node rb_black (node rb_red a ik iv b) sk sv r))
  ]
  straighten (in_left c k v nil) = none
  straighten (in_left c k v s) = some (in_left c k v s)
  straighten (in_right c (node rb_black l sk sv (node rb_red a ik iv b)) k v) = elim (get_color l) [
    | rb_black ↦ do
      s ← rotate_left (node rb_red l sk sv (node rb_black a ik iv b))
      some (in_right c s k v)
    | rb_red ↦ some (in_right c (node rb_black l sk sv (node rb_red a ik iv b)) k v)
  ]
  straighten (in_right c nil k v) = none
  straighten (in_right c s k v) = some (in_right c s k v)

  unfoldable pub delete_case5 : Parents K V → Frame K V → Parents K V → Option (Parents K V)
  delete_case5 below f up = do f' ← straighten f; delete_case6 below f' up

  unfoldable pub delete_case4 : Parents K V → Frame K V → Parents K V → Option (Parents K V)
  delete_case4 below f up =
      if is_red (parent_color f) && is_black (get_color (sibling f))
      then (do
        both ← children_black (sibling f)
        if both
            then (do s ← set_color rb_red (sibling f); some (below ++ recolor rb_black s f ∷ up))
            else delete_case5 below f up)
      else delete_case5 below f up

  -- `again` is the call of `delete_case1` on the parent.
  unfoldable pub delete_case3 :
      (Parents K V → Parents K V → Option (Parents K V))
      → Parents K V
      → Frame K V
      → Parents K V
      → Option (Parents K V)
  delete_case3 again below f up =
      if is_black (parent_color f) && is_black (get_color (sibling f))
      then (do
        both ← children_black (sibling f)
        if both
            then (do
              s ← set_color rb_red (sibling f)
              again (below ++ recolor rb_black s f ∷ []) up)
            else delete_case4 below f up)
      else delete_case4 below f up

  unfoldable pub delete_case2 :
      (Parents K V → Parents K V → Option (Parents K V))
      → Parents K V
      → Frame K V
      → Parents K V
      → Option (Parents K V)
  delete_case2 again below f up = elim (get_color (sibling f)) [
    | rb_black ↦ delete_case3 again below f up
    | rb_red ↦ do
      s ← set_color rb_black (sibling f)
      (p, g) ← rotate_parent (recolor rb_red s f)
      delete_case3 again below p (g ∷ up)
  ]

  -- `delete_case1` on the node that has the parents `up`; the node to be unlinked lies below it,
  -- by the chain `below`, and the result is its chain of parents. It climbs at most once for each
  -- parent, so the fuel `length up + 1` is enough.
  unfoldable pub delete_case1 : ℕ → Parents K V → Parents K V → Option (Parents K V)
  delete_case1 zero below up = none
  delete_case1 (suc fuel) below [] = some below
  delete_case1 (suc fuel) below (f ∷ up) = delete_case2 (delete_case1 fuel) below f up

  abbrev pub only_child : RbtreeNode K V → RbtreeNode K V → RbtreeNode K V
  only_child l nil = l
  only_child l (node c a k v b) = node c a k v b

  -- `replace_node`, and the new root painted black.
  abbrev pub replace_node : RbtreeNode K V → Parents K V → RbtreeNode K V
  replace_node child (f ∷ up) = plug child (f ∷ up)
  replace_node nil [] = nil
  replace_node (node c a k v b) [] = node rb_black a k v b

  -- The end of `__rbtree_remove`, for a node with at most one child. (The colour that the C code
  -- gives the node before it is freed is read by none of the cases.)
  unfoldable pub unlink_node : RbtreeNode K V → Parents K V → Option (RbtreeNode K V)
  unlink_node nil up = none
  unlink_node (node c (node _ _ _ _ _) k v (node _ _ _ _ _)) up = none
  unlink_node (node rb_red l k v r) up = some (replace_node (only_child l r) up)
  unlink_node (node rb_black l k v r) up = do
    up' ← delete_case1 (suc (length up)) [] up
    some (replace_node (only_child l r) up')

  -- The next node in order takes the place of one with two children: its key and data move up.
  unfoldable pub unlink_next :
      RbColor
      → RbtreeNode K V
      → RbtreeNode K V × Parents K V
      → Parents K V
      → Option (RbtreeNode K V)
  unlink_next c l (nil, path) up = none
  unlink_next c l (node nc nl nk nv nr, path) up =
      unlink_node (node nc nl nk nv nr) (path ++ in_right c l nk nv ∷ up)

  -- `__rbtree_remove`
  unfoldable pub remove_node : RbtreeNode K V → Parents K V → Option (RbtreeNode K V)
  remove_node (node c (node lc ll lk lv lr) k v (node rc rl rk rv rr)) up =
      unlink_next c (node lc ll lk lv lr) (get_min (node rc rl rk rv rr) []) up
  remove_node n up = unlink_node n up
