-- ===== src/Rbtree/Walk/Order.antt =====
-- c/src/t2u_rbtree.c: the walk through a tree goes along its list of entries.
use t2u.Common.{◌≡◌, refl, ◌∙◌, sym, List, [], ◌∷◌, ◌++◌, append-nil, append_assoc, Ensures}
use t2u.Rbtree.Node.{
  RbColor, RbtreeNode, nil, node, in_left, in_right, Parents, get_min, get_max, plug,
}
use t2u.Rbtree.Table.{Rbtree}
use t2u.Rbtree.Contents.{to_list, before, after}
use t2u.Rbtree.Walk.{rbtree_min, rbtree_max, climb_next, climb_prev, rbtree_next, rbtree_prev}

module _ {ℓ κ} {K : Type ℓ} {V : Type κ} where
  -- The entries from a node on, and those up to it; none for NULL.
  abbrev pub onward : RbtreeNode K V → Parents K V → List (K × V)
  onward nil up = []
  onward (node c l k v r) up = (k, v) ∷ to_list r ++ after up

  abbrev pub up_to : RbtreeNode K V → Parents K V → List (K × V)
  up_to nil up = []
  up_to (node c l k v r) up = before up ++ (to_list l ++ (k, v) ∷ [])

  -- A place of the same tree, or NULL.
  abbrev pub IsPlaceOf : RbtreeNode K V → RbtreeNode K V → Parents K V → Type (ℓ ⊔ κ)
  IsPlaceOf tree nil up = Unit
  IsPlaceOf tree (node c l k v r) up = plug (node c l k v r) up ≡ tree

  abbrev pub Goes : RbtreeNode K V → List (K × V) → RbtreeNode K V × Parents K V → Type (ℓ ⊔ κ)
  Goes tree es (n, up) = (onward n up ≡ es) × IsPlaceOf tree n up

  abbrev pub Comes : RbtreeNode K V → List (K × V) → RbtreeNode K V × Parents K V → Type (ℓ ⊔ κ)
  Comes tree es (n, up) = (up_to n up ≡ es) × IsPlaceOf tree n up

  get_min-Goes :
      (c : RbColor) (l : RbtreeNode K V) (k : K) (v : V) (r : RbtreeNode K V) (up : Parents K V)
      → Goes
          (plug (node c l k v r) up)
          (to_list (node c l k v r) ++ after up)
          (get_min (node c l k v r) up)
  unfolding get_min
  get_min-Goes c nil k v r up = (refl, refl)
  get_min-Goes c (node c' a k' v' b) k v r up =
      let (e, place) = get_min-Goes c' a k' v' b (in_left c k v r ∷ up) in
      (e ∙ sym (append_assoc (to_list (node c' a k' v' b)) ((k, v) ∷ to_list r) (after up)), place)

  get_max-Comes :
      (c : RbColor) (l : RbtreeNode K V) (k : K) (v : V) (r : RbtreeNode K V) (up : Parents K V)
      → Comes
          (plug (node c l k v r) up)
          (before up ++ to_list (node c l k v r))
          (get_max (node c l k v r) up)
  unfolding get_max
  get_max-Comes c l k v nil up = (refl, refl)
  get_max-Comes c l k v (node c' a k' v' b) up =
      let (e, place) = get_max-Comes c' a k' v' b (in_right c l k v ∷ up) in
      (e ∙ simp append_assoc, place)

  climb_next-Goes :
      (n : RbtreeNode K V) (up : Parents K V) → Goes (plug n up) (after up) (climb_next n up)
  unfolding climb_next
  climb_next-Goes n [] = (refl, tt)
  climb_next-Goes n (in_left c k v r ∷ up) = (refl, refl)
  climb_next-Goes n (in_right c l k v ∷ up) = climb_next-Goes (node c l k v n) up

  climb_prev-Comes :
      (n : RbtreeNode K V) (up : Parents K V) → Comes (plug n up) (before up) (climb_prev n up)
  unfolding climb_prev
  climb_prev-Comes n [] = (refl, tt)
  climb_prev-Comes n (in_left c k v r ∷ up) = climb_prev-Comes (node c n k v r) up
  climb_prev-Comes n (in_right c l k v ∷ up) = (refl, refl)

  rbtree_next-Goes :
      (c : RbColor) (l : RbtreeNode K V) (k : K) (v : V) (r : RbtreeNode K V) (up : Parents K V)
      → Ensures
          (Goes (plug (node c l k v r) up) (to_list r ++ after up))
          (rbtree_next (node c l k v r) up)
  unfolding rbtree_next
  rbtree_next-Goes c l k v nil up = climb_next-Goes (node c l k v nil) up
  rbtree_next-Goes c l k v (node c' a k' v' b) up =
      get_min-Goes c' a k' v' b (in_right c l k v ∷ up)

  rbtree_prev-Comes :
      (c : RbColor) (l : RbtreeNode K V) (k : K) (v : V) (r : RbtreeNode K V) (up : Parents K V)
      → Ensures
          (Comes (plug (node c l k v r) up) (before up ++ to_list l))
          (rbtree_prev (node c l k v r) up)
  unfolding rbtree_prev
  rbtree_prev-Comes c nil k v r up =
      let (e, place) = climb_prev-Comes (node c nil k v r) up in
      (e ∙ sym (append-nil (before up)), place)
  rbtree_prev-Comes c (node c' a k' v' b) k v r up =
      get_max-Comes c' a k' v' b (in_left c k v r ∷ up)

  -- `rbtree_next` at a node gives a result, and so does `rbtree_prev`: a place of the same tree, or
  -- NULL. The entries from the next node on are those behind the node, and none for NULL; the entries
  -- up to the previous node are those before the node, and none for NULL.
  pub rbtree_next-rbtree_prev :
      (c : RbColor) (l : RbtreeNode K V) (k : K) (v : V) (r : RbtreeNode K V) (up : Parents K V)
      → Ensures
          (Goes (plug (node c l k v r) up) (to_list r ++ after up))
          (rbtree_next (node c l k v r) up)
        × Ensures
            (Comes (plug (node c l k v r) up) (before up ++ to_list l))
            (rbtree_prev (node c l k v r) up)
  rbtree_next-rbtree_prev c l k v r up =
      (rbtree_next-Goes c l k v r up, rbtree_prev-Comes c l k v r up)

  -- From `rbtree_min` of a tree on there are all its entries, and up to `rbtree_max` too; both are
  -- places of the tree, or NULL.
  pub rbtree_min-rbtree_max :
      (tree : Rbtree K V)
      → Goes tree.root (to_list tree.root) (rbtree_min tree)
        × Comes tree.root (to_list tree.root) (rbtree_max tree)
  unfolding rbtree_min rbtree_max get_min get_max
  rbtree_min-rbtree_max tree = ends tree.root
    where
      ends :
          (n : RbtreeNode K V)
          → Goes n (to_list n) (get_min n []) × Comes n (to_list n) (get_max n [])
      ends nil = ((refl, tt), (refl, tt))
      ends (node c l k v r) =
          let (e, place) = get_min-Goes c l k v r [] in
          ((e ∙ append-nil (to_list (node c l k v r)), place), get_max-Comes c l k v r [])
