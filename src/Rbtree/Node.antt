-- ===== src/Rbtree/Node.antt =====
-- c/src/t2u_rbtree.c: nodes, parents and rotations. A node is held with its chain of parents, so
-- `node->parent` is the head of a list; a read through NULL and a failed `assert` are `none`.
use t2u.Common.{Bool, true, false, Option, none, some, List, [], ◌∷◌}

pub data RbColor : Type 0 where
  rb_black rb_red : RbColor

-- `struct rbtree_node *`; `nil` is NULL.
pub data RbtreeNode {ℓ κ} (K : Type ℓ) (V : Type κ) : Type (ℓ ⊔ κ) where
  nil : RbtreeNode K V
  node : RbColor → RbtreeNode K V → K → V → RbtreeNode K V → RbtreeNode K V

-- A parent, seen from the child that it was reached from: all of it but that child.
pub data Frame {ℓ κ} (K : Type ℓ) (V : Type κ) : Type (ℓ ⊔ κ) where
  in_left : RbColor → K → V → RbtreeNode K V → Frame K V
  in_right : RbColor → RbtreeNode K V → K → V → Frame K V

-- The chain of parents, nearest first.
abbrev pub Parents {ℓ κ} : Type ℓ → Type κ → Type (ℓ ⊔ κ)
Parents K V = List (Frame K V)

abbrev pub is_black : RbColor → Bool
is_black rb_black = true
is_black rb_red = false

abbrev pub is_red : RbColor → Bool
is_red rb_black = false
is_red rb_red = true

module _ {ℓ κ} {K : Type ℓ} {V : Type κ} where
  abbrev pub get_color : RbtreeNode K V → RbColor
  get_color nil = rb_black
  get_color (node c l k v r) = c

  abbrev pub set_color : RbColor → RbtreeNode K V → Option (RbtreeNode K V)
  set_color c nil = none
  set_color c (node _ l k v r) = some (node c l k v r)

  abbrev pub sibling : Frame K V → RbtreeNode K V
  sibling (in_left c k v r) = r
  sibling (in_right c l k v) = l

  abbrev pub parent_color : Frame K V → RbColor
  parent_color (in_left c k v r) = c
  parent_color (in_right c l k v) = c

  -- The frame with the parent and the sibling painted anew.
  abbrev pub recolor : RbColor → RbtreeNode K V → Frame K V → Frame K V
  recolor c s (in_left _ k v r) = in_left c k v s
  recolor c s (in_right _ l k v) = in_right c s k v

  -- `replace_node`: the subtree in the place that the parents leave open.
  abbrev pub plug : RbtreeNode K V → Parents K V → RbtreeNode K V
  plug t [] = t
  plug t (in_left c k v r ∷ up) = plug (node c t k v r) up
  plug t (in_right c l k v ∷ up) = plug (node c l k v t) up

  unfoldable pub rotate_left : RbtreeNode K V → Option (RbtreeNode K V)
  rotate_left (node c a k v (node c' b k' v' d)) = some (node c' (node c a k v b) k' v' d)
  rotate_left _ = none

  unfoldable pub rotate_right : RbtreeNode K V → Option (RbtreeNode K V)
  rotate_right (node c (node c' a k' v' b) k v d) = some (node c' a k' v' (node c b k v d))
  rotate_right _ = none

  -- `rotate_left(n->parent)` at a left child `n`, `rotate_right(n->parent)` at a right one: the two
  -- parents that `n` has then.
  unfoldable pub rotate_parent : Frame K V → Option (Frame K V × Frame K V)
  rotate_parent (in_left c k v (node c' a k' v' b)) = some (in_left c k v a, in_left c' k' v' b)
  rotate_parent (in_right c (node c' a k' v' b) k v) = some (in_right c b k v, in_right c' a k' v')
  rotate_parent _ = none

  -- `get_min`, with the parents of the node that it stops at.
  unfoldable pub get_min : RbtreeNode K V → Parents K V → RbtreeNode K V × Parents K V
  get_min nil up = (nil, up)
  get_min (node c nil k v r) up = (node c nil k v r, up)
  get_min (node c (node c' a k' v' b) k v r) up = get_min (node c' a k' v' b) (in_left c k v r ∷ up)

  unfoldable pub get_max : RbtreeNode K V → Parents K V → RbtreeNode K V × Parents K V
  get_max nil up = (nil, up)
  get_max (node c l k v nil) up = (node c l k v nil, up)
  get_max (node c l k v (node c' a k' v' b)) up =
      get_max (node c' a k' v' b) (in_right c l k v ∷ up)
