-- ===== src/Rbtree/Walk.antt =====
-- c/src/t2u_rbtree.c: `rbtree_min`, `rbtree_max`, `rbtree_prev` and `rbtree_next`. A node is given
-- with its parents; `nil` is the NULL that is returned at an end.
pub mod Order
use t2u.Common.{Option, none, some, [], ◌∷◌}
use t2u.Rbtree.Node.{RbtreeNode, nil, node, in_left, in_right, Parents, get_min, get_max}
use t2u.Rbtree.Table.{Rbtree}

module _ {ℓ κ} {K : Type ℓ} {V : Type κ} where
  unfoldable pub rbtree_min : Rbtree K V → RbtreeNode K V × Parents K V
  rbtree_min tree = get_min tree.root []

  unfoldable pub rbtree_max : Rbtree K V → RbtreeNode K V × Parents K V
  rbtree_max tree = get_max tree.root []

  -- The loop of `rbtree_next`: up while the node is a right child, then one more.
  unfoldable pub climb_next : RbtreeNode K V → Parents K V → RbtreeNode K V × Parents K V
  climb_next n [] = (nil, [])
  climb_next n (in_left c k v r ∷ up) = (node c n k v r, up)
  climb_next n (in_right c l k v ∷ up) = climb_next (node c l k v n) up

  -- The loop of `rbtree_prev`: up while the node is a left child, then one more.
  unfoldable pub climb_prev : RbtreeNode K V → Parents K V → RbtreeNode K V × Parents K V
  climb_prev n [] = (nil, [])
  climb_prev n (in_left c k v r ∷ up) = climb_prev (node c n k v r) up
  climb_prev n (in_right c l k v ∷ up) = (node c l k v n, up)

  unfoldable pub rbtree_next : RbtreeNode K V → Parents K V → Option (RbtreeNode K V × Parents K V)
  rbtree_next nil up = none
  rbtree_next (node c l k v nil) up = some (climb_next (node c l k v nil) up)
  rbtree_next (node c l k v (node c' a k' v' b)) up =
      some (get_min (node c' a k' v' b) (in_right c l k v ∷ up))

  unfoldable pub rbtree_prev : RbtreeNode K V → Parents K V → Option (RbtreeNode K V × Parents K V)
  rbtree_prev nil up = none
  rbtree_prev (node c nil k v r) up = some (climb_prev (node c nil k v r) up)
  rbtree_prev (node c (node c' a k' v' b) k v r) up =
      some (get_max (node c' a k' v' b) (in_left c k v r ∷ up))
