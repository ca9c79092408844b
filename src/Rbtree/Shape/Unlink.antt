-- ===== src/Rbtree/Shape/Unlink.antt =====
-- c/src/t2u_rbtree.c, `__rbtree_remove`: no fault, and a tree that keeps the red-black rules.
use t2u.Common.{
  ℕ, suc, ◌≡◌, refl, ◌⊎◌, inl, inr, some, [], ◌∷◌, ◌++◌, arith, Ensures, Ensures-bind, length,
  ◌>>=◌,
}
use t2u.Rbtree.Node.{
  RbColor, rb_black, rb_red, RbtreeNode, nil, node, in_left, in_right, Parents, get_color, get_min,
}
use t2u.Rbtree.Remove.{
  delete_case1, only_child, replace_node, unlink_node, unlink_next, remove_node,
}
use t2u.Rbtree.Shape.{raise, height, IsShaped, FitsIn, Fits, plug-IsShaped, FitsIn-black}
use t2u.Rbtree.Shape.Remove.{IsSettled, delete_case1-IsSettled}

module _ {ℓ κ} {K : Type ℓ} {V : Type κ} where
  -- The rules, the root's colour included.
  abbrev pub IsRedBlack : RbtreeNode K V → Type 0
  IsRedBlack t = IsShaped t × (get_color t ≡ rb_black)

  replace_node-IsRedBlack :
      (t : RbtreeNode K V) (up : Parents K V) → IsSettled t up → IsRedBlack (replace_node t up)
  replace_node-IsRedBlack t (f ∷ up) (s, inl e) = ground arith
  replace_node-IsRedBlack t (f ∷ up) (s, inr e) = (s, e)
  replace_node-IsRedBlack nil [] h = (tt, refl)
  replace_node-IsRedBlack (node c l k v r) [] h = ground arith

  only_child-Fits :
      (l r : RbtreeNode K V) (up : Parents K V)
      → IsShaped l
      → IsShaped r
      → height l ≡ height r
      → get_color l ≡ rb_black
      → get_color r ≡ rb_black
      → FitsIn (height l) rb_red up
      → Fits (only_child l r) up
  only_child-Fits l nil up sl sr e cl cr f = (sl, rw cl (FitsIn-black (height l) rb_red up f))
  only_child-Fits l (node c a k v b) up sl sr e cl cr f =
      ground (arith, FitsIn-black (height l) rb_red up f)

  only_child-Lacks :
      (l r : RbtreeNode K V) (up : Parents K V)
      → IsShaped l
      → IsShaped r
      → height l ≡ height r
      → FitsIn (suc (height l)) rb_black up
      → IsShaped (only_child l r) × FitsIn (suc (height (only_child l r))) rb_black up
  only_child-Lacks l nil up sl sr e f = (sl, f)
  only_child-Lacks l (node c a k v b) up sl sr e f = ground arith

  unlink_red :
      (l : RbtreeNode K V) (k : K) (v : V) (r : RbtreeNode K V) (up : Parents K V)
      → Fits (node rb_red l k v r) up
      → IsRedBlack (replace_node (only_child l r) up)
  unlink_red l k v r up h =
      let (s, root) =
        plug-IsShaped (only_child l r) up
          (only_child-Fits l r up h.0.0 h.0.1 h.0.2 h.0.3.0 h.0.3.1 h.1) in
      replace_node-IsRedBlack (only_child l r) up (s, inr root)

  unlink_black :
      (l : RbtreeNode K V) (k : K) (v : V) (r : RbtreeNode K V) (up : Parents K V)
      → Fits (node rb_black l k v r) up
      → Ensures IsRedBlack
          (do up' ← delete_case1 (suc (length up)) [] up; some (replace_node (only_child l r) up'))
  unlink_black l k v r up h =
      Ensures-bind (IsSettled (only_child l r)) IsRedBlack (delete_case1 (suc (length up)) [] up) _
        (delete_case1-IsSettled (only_child l r) (suc (length up)) [] up (omega arith)
          (only_child-Lacks l r up h.0.0 h.0.1 h.0.2 h.1) (inl refl))
        λ up' s. replace_node-IsRedBlack (only_child l r) up' s

  unlink_node-IsRedBlack :
      (c : RbColor) (l : RbtreeNode K V) (k : K) (v : V) (r : RbtreeNode K V) (up : Parents K V)
      → Fits (node c l k v r) up
      → (l ≡ nil) ⊎ (r ≡ nil)
      → Ensures IsRedBlack (unlink_node (node c l k v r) up)
  unfolding unlink_node
  unlink_node-IsRedBlack rb_red nil k v r up h o = unlink_red nil k v r up h
  unlink_node-IsRedBlack rb_red (node lc ll lk lv lr) k v nil up h o =
      unlink_red (node lc ll lk lv lr) k v nil up h
  unlink_node-IsRedBlack rb_black nil k v r up h o = unlink_black nil k v r up h
  unlink_node-IsRedBlack rb_black (node lc ll lk lv lr) k v nil up h o =
      unlink_black (node lc ll lk lv lr) k v nil up h
  unlink_node-IsRedBlack c (node lc ll lk lv lr) k v (node rc rl rk rv rr) up h (inl e) = cc
  unlink_node-IsRedBlack c (node lc ll lk lv lr) k v (node rc rl rk rv rr) up h (inr e) = cc

  -- The walk to the least node starts at any place: only its own part of the chain counts.
  abbrev IsLeast : RbtreeNode K V → Type (ℓ ⊔ κ)
  IsLeast m = (c : RbColor) × (k : K) × (v : V) × (r : RbtreeNode K V) × (m ≡ node c nil k v r)

  get_min-Fits :
      (c : RbColor) (l : RbtreeNode K V) (k : K) (v : V) (r : RbtreeNode K V) (p q : Parents K V)
      → Fits (node c l k v r) (p ++ q)
      → let (m, path) = get_min (node c l k v r) p in IsLeast m × Fits m (path ++ q)
  unfolding get_min
  get_min-Fits c nil k v r p q h = ((c, k, v, r, refl), h)
  get_min-Fits c (node d a j w b) k v r p q h =
      get_min-Fits d a j w b (in_left c k v r ∷ p) q (ground arith)

  -- The key and the data of a parent play no part.
  FitsIn-rekey :
      (h : ℕ) (d : RbColor) (path : Parents K V) (c : RbColor) (l : RbtreeNode K V) (k j : K)
      (v w : V) (up : Parents K V)
      → FitsIn h d (path ++ in_right c l k v ∷ up)
      → FitsIn h d (path ++ in_right c l j w ∷ up)
  FitsIn-rekey h d [] c l k j v w up f = f
  FitsIn-rekey h d (in_left e x y r ∷ path) c l k j v w up f =
      (f.0, f.1, f.2, FitsIn-rekey (raise e h) e path c l k j v w up f.3)
  FitsIn-rekey h d (in_right e r x y ∷ path) c l k j v w up f =
      (f.0, f.1, f.2, FitsIn-rekey (raise e h) e path c l k j v w up f.3)

  unlink_next-IsRedBlack :
      (c : RbColor) (l m : RbtreeNode K V) (path : Parents K V) (k : K) (v : V) (up : Parents K V)
      → IsLeast m
      → Fits m (path ++ in_right c l k v ∷ up)
      → Ensures IsRedBlack (unlink_next c l (m, path) up)
  unfolding unlink_next
  unlink_next-IsRedBlack c l m path k v up (mc, mk, mv, mr, e) h =
      let (s, f) = rw e at h in
      rw (e, unlink_next)
        (unlink_node-IsRedBlack mc nil mk mv mr (path ++ in_right c l mk mv ∷ up)
          (s, FitsIn-rekey (raise mc 0) mc path c l k mk v mv up f) (inl refl))

  -- A removal hits no NULL and no failed assertion, and leaves a red-black tree.
  pub remove_node-IsRedBlack :
      (c : RbColor) (l : RbtreeNode K V) (k : K) (v : V) (r : RbtreeNode K V) (up : Parents K V)
      → Fits (node c l k v r) up
      → Ensures IsRedBlack (remove_node (node c l k v r) up)
  unfolding remove_node
  remove_node-IsRedBlack c nil k v r up h = unlink_node-IsRedBlack c nil k v r up h (inl refl)
  remove_node-IsRedBlack c (node lc ll lk lv lr) k v nil up h =
      unlink_node-IsRedBlack c (node lc ll lk lv lr) k v nil up h (inr refl)
  remove_node-IsRedBlack c (node lc ll lk lv lr) k v (node rc rl rk rv rr) up h =
      let l : RbtreeNode K V = node lc ll lk lv lr in
      let (least, fits) = get_min-Fits rc rl rk rv rr [] (in_right c l k v ∷ up) (ground arith) in
      unlink_next-IsRedBlack c l _ _ k v up least fits
