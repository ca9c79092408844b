-- ===== src/Rbtree/Shape/Remove.antt =====
-- c/src/t2u_rbtree.c, `delete_case1` to `delete_case6`: no fault, enough fuel, and a chain of
-- parents that a subtree one black level lower fits into.
use t2u.Common.{
  ℕ, zero, suc, ◌<◌, true, false, ◌&&◌, ◌≡◌, refl, ◌⊎◌, inl, inr, Option, [], ◌∷◌, ◌++◌, arith,
  Ensures, Ensures-bind, length,
}
use t2u.Rbtree.Node.{
  RbColor, rb_black, rb_red, RbtreeNode, nil, node, Frame, in_left, in_right, Parents, get_color,
  is_black, sibling, parent_color, plug, rotate_left, rotate_right, rotate_parent,
}
use t2u.Rbtree.Remove.{
  children_black, delete_case6, straighten, delete_case5, delete_case4, delete_case3, delete_case2,
  delete_case1,
}
use t2u.Rbtree.Contents.{plug-append}
use t2u.Rbtree.Shape.{height, IsShaped, FitsIn, plug-IsShaped, FitsIn-black}

colors_of :
    (a b : RbColor)
    → (((is_black b && is_black a) ≡ true) × (a ≡ rb_black) × (b ≡ rb_black))
      ⊎ (((is_black b && is_black a) ≡ false) × ((a ≡ rb_red) ⊎ (b ≡ rb_red)))
colors_of rb_black rb_black = inl (refl, refl, refl)
colors_of rb_black rb_red = inr (refl, inr refl)
colors_of rb_red rb_black = inr (refl, inl refl)
colors_of rb_red rb_red = inr (refl, inl refl)

module _ {ℓ κ} {K : Type ℓ} {V : Type κ} (t : RbtreeNode K V) where
  -- The whole tree round `t` keeps the rules, and its root is black unless `t` is the root.
  abbrev pub IsSettled : Parents K V → Type (ℓ ⊔ κ)
  IsSettled up = IsShaped (plug t up) × ((up ≡ []) ⊎ (get_color (plug t up) ≡ rb_black))

  -- The subtree `u` lacks one black level under the parents `up`.
  abbrev Lacks : RbtreeNode K V → Parents K V → Type 0
  Lacks u up = IsShaped u × FitsIn (suc (height u)) rb_black up

  colors :
      (l r : RbtreeNode K V)
      → (((is_black (get_color r) && is_black (get_color l)) ≡ true)
          × (get_color l ≡ rb_black)
          × (get_color r ≡ rb_black))
        ⊎ (((is_black (get_color r) && is_black (get_color l)) ≡ false)
            × ((get_color l ≡ rb_red) ⊎ (get_color r ≡ rb_red)))
  colors l r = colors_of (get_color l) (get_color r)

  module _ (below : Parents K V) where
    abbrev here : RbtreeNode K V
    here = plug t below

    settle :
        (f : Frame K V) (p up : Parents K V)
        → IsShaped (plug here (f ∷ p))
        → FitsIn (height (plug here (f ∷ p))) (get_color (plug here (f ∷ p))) up
        → IsSettled (below ++ (f ∷ p ++ up))
    settle f p up s h =
        rw (plug-append t below (f ∷ p ++ up), plug-append here (f ∷ p) up)
          (let (shaped, root) = plug-IsShaped (plug here (f ∷ p)) up (s, h) in (shaped, inr root))

    abbrev OuterRed : Frame K V → Type 0
    OuterRed (in_left c k v (node rb_black l sk sv r)) = get_color r ≡ rb_red
    OuterRed (in_right c (node rb_black l sk sv r) k v) = get_color l ≡ rb_red
    OuterRed _ = ⊥

    delete_case6-IsSettled :
        (f : Frame K V) (up : Parents K V)
        → Lacks here (f ∷ up)
        → OuterRed f
        → Ensures IsSettled (delete_case6 below f up)
    unfolding delete_case6 rotate_parent
    delete_case6-IsSettled (in_left c k v (node rb_black l sk sv (node rb_red a ik iv b))) up h o =
        settle (in_left rb_black k v l) (in_left c sk sv (node rb_black a ik iv b) ∷ []) up
          (ground arith) (ground arith)
    delete_case6-IsSettled (in_right c (node rb_black (node rb_red a ik iv b) sk sv r) k v) up h o =
        settle (in_right rb_black r k v) (in_right c (node rb_black a ik iv b) sk sv ∷ []) up
          (ground arith) (ground arith)
    delete_case6-IsSettled f up h o = absurd (ground arith)

    -- The sibling is black, and a child of it is red.
    abbrev HasRed : Frame K V → Type 0
    HasRed (in_left c k v (node rb_black l sk sv r)) =
        (get_color l ≡ rb_red) ⊎ (get_color r ≡ rb_red)
    HasRed (in_right c (node rb_black l sk sv r) k v) =
        (get_color l ≡ rb_red) ⊎ (get_color r ≡ rb_red)
    HasRed _ = ⊥

    straighten-OuterRed :
        (f : Frame K V) (up : Parents K V)
        → Lacks here (f ∷ up)
        → HasRed f
        → Ensures (λ g. Lacks here (g ∷ up) × OuterRed g) (straighten f)
    unfolding straighten rotate_left rotate_right
    straighten-OuterRed (in_left c k v (node rb_black nil sk sv r)) up h o = ground arith
    straighten-OuterRed (in_left c k v (node rb_black (node rb_black a ik iv b) sk sv r)) up h o =
        ground arith
    straighten-OuterRed (in_left c k v (node rb_black (node rb_red a ik iv b) sk sv r)) up h o =
        ground arith
    straighten-OuterRed (in_right c (node rb_black l sk sv nil) k v) up h o = ground arith
    straighten-OuterRed (in_right c (node rb_black l sk sv (node rb_black a ik iv b)) k v) up h o =
        ground arith
    straighten-OuterRed (in_right c (node rb_black l sk sv (node rb_red a ik iv b)) k v) up h o =
        ground arith
    straighten-OuterRed f up h o = absurd (ground arith)

    delete_case5-IsSettled :
        (f : Frame K V) (up : Parents K V)
        → Lacks here (f ∷ up)
        → HasRed f
        → Ensures IsSettled (delete_case5 below f up)
    unfolding delete_case5
    delete_case5-IsSettled f up h o =
        Ensures-bind (λ g. Lacks here (g ∷ up) × OuterRed g) IsSettled (straighten f) _
          (straighten-OuterRed f up h o) λ g (lacks, red). delete_case6-IsSettled g up lacks red

    delete_case4-IsSettled :
        (f : Frame K V) (up : Parents K V)
        → Lacks here (f ∷ up)
        → get_color (sibling f) ≡ rb_black
        → (parent_color f ≡ rb_black → HasRed f)
        → Ensures IsSettled (delete_case4 below f up)
    unfolding delete_case4 children_black
    delete_case4-IsSettled (in_left rb_black k v s) up h b o =
        delete_case5-IsSettled (in_left rb_black k v s) up h (o refl)
    delete_case4-IsSettled (in_right rb_black s k v) up h b o =
        delete_case5-IsSettled (in_right rb_black s k v) up h (o refl)
    delete_case4-IsSettled (in_left rb_red k v nil) up h b o = absurd (ground arith)
    delete_case4-IsSettled (in_right rb_red nil k v) up h b o = absurd (ground arith)
    delete_case4-IsSettled (in_left rb_red k v (node rb_red l sk sv r)) up h b o = cc
    delete_case4-IsSettled (in_right rb_red (node rb_red l sk sv r) k v) up h b o = cc
    delete_case4-IsSettled (in_left rb_red k v (node rb_black l sk sv r)) up h b o =
        elim (colors l r) [
          | inl (e, lb, rb) ↦ rw e (
              settle (in_left rb_black k v (node rb_red l sk sv r)) [] up (ground arith)
                (FitsIn-black (suc (height here)) rb_red up h.1.3))
          | inr (e, red) ↦
              rw e (delete_case5-IsSettled (in_left rb_red k v (node rb_black l sk sv r)) up h red)
        ]
    delete_case4-IsSettled (in_right rb_red (node rb_black l sk sv r) k v) up h b o =
        elim (colors l r) [
          | inl (e, lb, rb) ↦ rw e (
              settle (in_right rb_black (node rb_red l sk sv r) k v) [] up (ground arith)
                (ground (arith, FitsIn-black (suc (height here)) rb_red up h.1.3)))
          | inr (e, red) ↦
              rw e (delete_case5-IsSettled (in_right rb_red (node rb_black l sk sv r) k v) up h red)
        ]

  -- What the call of `delete_case1` on the parent must give.
  abbrev Climbs : (Parents K V → Parents K V → Option (Parents K V)) → Parents K V → Type (ℓ ⊔ κ)
  Climbs again up =
      (below : Parents K V)
      → Lacks (plug t below) up
      → get_color (plug t below) ≡ rb_black
      → Ensures IsSettled (again below up)

  module _ (again : Parents K V → Parents K V → Option (Parents K V)) (below : Parents K V) where
    -- Both the parent and the sibling's children are black: the sibling turns red, and the parent
    -- is the next node that lacks a level.
    climb :
        (f : Frame K V) (up : Parents K V)
        → Climbs again up
        → IsShaped (plug (plug t below) (f ∷ []))
        → FitsIn (suc (height (plug (plug t below) (f ∷ [])))) rb_black up
        → get_color (plug (plug t below) (f ∷ [])) ≡ rb_black
        → Ensures IsSettled (again (below ++ f ∷ []) up)
    climb f up next s fits c =
        next (below ++ f ∷ []) (rw (plug-append t below (f ∷ [])) (s, fits))
          (rw (plug-append t below (f ∷ [])) c)

    delete_case3-IsSettled :
        (f : Frame K V) (up : Parents K V)
        → (parent_color f ≡ rb_black → Climbs again up)
        → Lacks (plug t below) (f ∷ up)
        → get_color (sibling f) ≡ rb_black
        → Ensures IsSettled (delete_case3 again below f up)
    unfolding delete_case3 children_black
    delete_case3-IsSettled (in_left rb_red k v s) up next h b =
        delete_case4-IsSettled below (in_left rb_red k v s) up h b (λ e. cc)
    delete_case3-IsSettled (in_right rb_red s k v) up next h b =
        delete_case4-IsSettled below (in_right rb_red s k v) up h b (λ e. cc)
    delete_case3-IsSettled (in_left rb_black k v nil) up next h b = absurd (ground arith)
    delete_case3-IsSettled (in_right rb_black nil k v) up next h b = absurd (ground arith)
    delete_case3-IsSettled (in_left rb_black k v (node rb_red l sk sv r)) up next h b = cc
    delete_case3-IsSettled (in_right rb_black (node rb_red l sk sv r) k v) up next h b = cc
    delete_case3-IsSettled (in_left rb_black k v (node rb_black l sk sv r)) up next h b =
        elim (colors l r) [
          | inl (e, lb, rb) ↦ rw e (
              climb (in_left rb_black k v (node rb_red l sk sv r)) up (next refl) (ground arith)
                h.1.3 refl)
          | inr (e, red) ↦ rw e (
              delete_case4-IsSettled below (in_left rb_black k v (node rb_black l sk sv r)) up h b
                (λ _. red))
        ]
    delete_case3-IsSettled (in_right rb_black (node rb_black l sk sv r) k v) up next h b =
        elim (colors l r) [
          | inl (e, lb, rb) ↦ rw e (
              climb (in_right rb_black (node rb_red l sk sv r) k v) up (next refl) (ground arith)
                (ground arith) refl)
          | inr (e, red) ↦ rw e (
              delete_case4-IsSettled below (in_right rb_black (node rb_black l sk sv r) k v) up h b
                (λ _. red))
        ]

    delete_case2-IsSettled :
        (f : Frame K V) (up : Parents K V)
        → Climbs again up
        → Lacks (plug t below) (f ∷ up)
        → Ensures IsSettled (delete_case2 again below f up)
    unfolding delete_case2 rotate_parent
    delete_case2-IsSettled (in_left c k v nil) up next h = absurd (ground arith)
    delete_case2-IsSettled (in_right c nil k v) up next h = absurd (ground arith)
    delete_case2-IsSettled (in_left c k v (node rb_black l sk sv r)) up next h =
        delete_case3-IsSettled (in_left c k v (node rb_black l sk sv r)) up (λ _. next) h refl
    delete_case2-IsSettled (in_right c (node rb_black l sk sv r) k v) up next h =
        delete_case3-IsSettled (in_right c (node rb_black l sk sv r) k v) up (λ _. next) h refl
    delete_case2-IsSettled (in_left c k v (node rb_red l sk sv r)) up next h =
        delete_case3-IsSettled (in_left rb_red k v l) (in_left rb_black sk sv r ∷ up) (λ e. cc)
          (ground arith) (ground arith)
    delete_case2-IsSettled (in_right c (node rb_red l sk sv r) k v) up next h =
        delete_case3-IsSettled (in_right rb_red r k v) (in_right rb_black l sk sv ∷ up) (λ e. cc)
          (ground arith) (ground arith)

  -- The cases end with no fault, and the fuel is enough.
  pub delete_case1-IsSettled :
      (fuel : ℕ) (below up : Parents K V)
      → length up < fuel
      → Lacks (plug t below) up
      → (below ≡ []) ⊎ (get_color (plug t below) ≡ rb_black)
      → Ensures IsSettled (delete_case1 fuel below up)
  unfolding delete_case1
  delete_case1-IsSettled zero below up n h b = absurd (omega arith)
  delete_case1-IsSettled (suc fuel) below [] n h b = (h.0, b)
  delete_case1-IsSettled (suc fuel) below (f ∷ up) n h b =
      delete_case2-IsSettled (delete_case1 fuel) below f up
        (λ below' lacks black.
          delete_case1-IsSettled fuel below' up (omega arith) lacks (inr black))
        h
