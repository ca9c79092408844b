-- ===== src/Rbtree/Contents/Unlink.antt =====
-- c/src/t2u_rbtree.c, `__rbtree_remove`: the entries after a node is unlinked.
use t2u.Common.{
  ◌⊎◌, inl, inr, subst, suc, ◌≡◌, refl, sym, ◌∙◌, some, List, [], ◌∷◌, ◌++◌, append-nil,
  append_assoc, Allows, Allows-bind, length, ◌>>=◌,
}
use t2u.Rbtree.Node.{
  RbColor, rb_black, rb_red, RbtreeNode, nil, node, in_left, in_right, Parents, plug, get_min,
}
use t2u.Rbtree.Remove.{
  delete_case1, only_child, replace_node, unlink_node, unlink_next, remove_node,
}
use t2u.Rbtree.Contents.{to_list, before, after, to_list-plug}
use t2u.Rbtree.Contents.Remove.{delete_case1-Keeps}

module _ {ℓ κ} {K : Type ℓ} {V : Type κ} where
  to_list-replace_node :
      (t : RbtreeNode K V) (up : Parents K V) → to_list (replace_node t up) ≡ to_list (plug t up)
  to_list-replace_node nil [] = refl
  to_list-replace_node (node c l k v r) [] = refl
  to_list-replace_node t (f ∷ up) = refl

  -- The list of a place whose node has gone, its subtrees left.
  abbrev pub without : RbtreeNode K V → RbtreeNode K V → Parents K V → List (K × V)
  without l r up = before up ++ (to_list l ++ to_list r) ++ after up

  only_child-plug :
      (l r : RbtreeNode K V) (up : Parents K V)
      → (l ≡ nil) ⊎ (r ≡ nil)
      → to_list (plug (only_child l r) up) ≡ without l r up
  only_child-plug l nil up o = simp (to_list-plug, append-nil)
  only_child-plug l (node c a k v b) up (inl e) = simp (e, to_list-plug)
  only_child-plug l (node c a k v b) up (inr e) = cc

  unlink_with :
      (c : RbColor) (k : K) (v : V) (l r : RbtreeNode K V) (up : Parents K V)
      → (l ≡ nil) ⊎ (r ≡ nil)
      → Allows
          (λ t. to_list t ≡ without l r up)
          (elim c [
            | rb_red ↦ some (replace_node (only_child l r) up)
            | rb_black ↦ do
              up' ← delete_case1 (suc (length up)) [] up
              some (replace_node (only_child l r) up')
          ])
  unlink_with rb_red k v l r up o =
      to_list-replace_node (only_child l r) up ∙ only_child-plug l r up o
  unlink_with rb_black k v l r up o =
      Allows-bind (λ up'. to_list (plug (only_child l r) up') ≡ without l r up) _
        (delete_case1 (suc (length up)) [] up) _
        (delete_case1-Keeps (only_child l r) (without l r up) (suc (length up)) [] up
          (only_child-plug l r up o))
        λ up' e. to_list-replace_node (only_child l r) up' ∙ e

  unlink_node-to_list :
      (c : RbColor) (k : K) (v : V) (l r : RbtreeNode K V) (up : Parents K V)
      → (l ≡ nil) ⊎ (r ≡ nil)
      → Allows (λ t. to_list t ≡ without l r up) (unlink_node (node c l k v r) up)
  unfolding unlink_node
  unlink_node-to_list rb_red k v nil r up o = unlink_with rb_red k v nil r up o
  unlink_node-to_list rb_red k v (node lc ll lk lv lr) nil up o =
      unlink_with rb_red k v (node lc ll lk lv lr) nil up o
  unlink_node-to_list rb_black k v nil r up o = unlink_with rb_black k v nil r up o
  unlink_node-to_list rb_black k v (node lc ll lk lv lr) nil up o =
      unlink_with rb_black k v (node lc ll lk lv lr) nil up o
  unlink_node-to_list c k v (node lc ll lk lv lr) (node rc rl rk rv rr) up (inl e) = cc
  unlink_node-to_list c k v (node lc ll lk lv lr) (node rc rl rk rv rr) up (inr e) = cc

  -- The walk to the least node: it has no left child, and nothing stands before it.
  abbrev IsMin : RbtreeNode K V → List (K × V) → RbtreeNode K V → Parents K V → Type (ℓ ⊔ κ)
  IsMin n es m path =
      (c : RbColor) × (k : K) × (v : V) × (r : RbtreeNode K V) × (m ≡ node c nil k v r)
      × (before path ≡ [])
      × (es ≡ (k, v) ∷ to_list r ++ after path)

  get_min-IsMin :
      (c : RbColor) (l : RbtreeNode K V) (k : K) (v : V) (r : RbtreeNode K V) (up : Parents K V)
      → before up ≡ []
      → let (m, path) = get_min (node c l k v r) up in
        IsMin (node c l k v r) (to_list (node c l k v r) ++ after up) m path
  unfolding get_min
  get_min-IsMin c nil k v r up e = (c, k, v, r, refl, e, refl)
  get_min-IsMin c (node c' a k' v' b) k v r up e =
      let (mc, mk, mv, mr, m, p, es) = get_min-IsMin c' a k' v' b (in_left c k v r ∷ up) e in
      (
        mc,
        mk,
        mv,
        mr,
        m,
        p,
        append_assoc (to_list (node c' a k' v' b)) ((k, v) ∷ to_list r) (after up) ∙ es,
      )

  before-append : (p q : Parents K V) → before (p ++ q) ≡ before q ++ before p
  before-append [] q = simp append-nil
  before-append (in_left c k v r ∷ p) q = before-append p q
  before-append (in_right c l k v ∷ p) q = simp (before-append p q, append_assoc)

  after-append : (p q : Parents K V) → after (p ++ q) ≡ after p ++ after q
  after-append [] q = refl
  after-append (in_left c k v r ∷ p) q = simp (after-append p q, append_assoc)
  after-append (in_right c l k v ∷ p) q = after-append p q

  unlink_next-to_list :
      (c : RbColor) (l r m : RbtreeNode K V) (path up : Parents K V)
      → IsMin r (to_list r ++ []) m path
      → Allows (λ t. to_list t ≡ without l r up) (unlink_next c l (m, path) up)
  unfolding unlink_next
  unlink_next-to_list c l r m path up (mc, mk, mv, mr, e, p, es) =
      rw (e, unlink_next)
        (subst (λ xs. Allows (λ t. to_list t ≡ xs) (unlink_node (node mc nil mk mv mr) around)) same
          (unlink_node-to_list mc mk mv nil mr around (inl refl)))
    where
      around : Parents K V
      around = path ++ in_right c l mk mv ∷ up

      same : without nil mr around ≡ without l r up
      same = simp (before-append, after-append, p, append_assoc, sym (append-nil (to_list r)) ∙ es)

  -- A removal takes one entry out of the list and keeps the order of the others.
  pub remove_node-to_list :
      (c : RbColor) (l : RbtreeNode K V) (k : K) (v : V) (r : RbtreeNode K V) (up : Parents K V)
      → Allows (λ t. to_list t ≡ without l r up) (remove_node (node c l k v r) up)
  unfolding remove_node
  remove_node-to_list c nil k v r up = unlink_node-to_list c k v nil r up (inl refl)
  remove_node-to_list c (node lc ll lk lv lr) k v nil up =
      unlink_node-to_list c k v (node lc ll lk lv lr) nil up (inr refl)
  remove_node-to_list c (node lc ll lk lv lr) k v (node rc rl rk rv rr) up =
      unlink_next-to_list c (node lc ll lk lv lr) (node rc rl rk rv rr) _ _ up
        (get_min-IsMin rc rl rk rv rr [] refl)
