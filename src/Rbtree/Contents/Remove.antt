-- ===== src/Rbtree/Contents/Remove.antt =====
-- c/src/t2u_rbtree.c, `__rbtree_remove`: the entries of the tree.
use t2u.Common.{
  ℕ, zero, suc, ◌≡◌, refl, Option, List, [], ◌∷◌, ◌++◌, append-nil, append_assoc, Allows,
  Allows-bind, Allows-if, Allows-all, if◌then◌else◌, Bool, ◌>>=◌,
}
use t2u.Rbtree.Node.{
  RbColor, rb_black, rb_red, RbtreeNode, nil, node, Frame, in_left, in_right, Parents, set_color,
  sibling, recolor, plug, rotate_left, rotate_right, rotate_parent,
}
use t2u.Rbtree.Remove.{
  children_black, delete_case6, straighten, delete_case5, delete_case4, delete_case3, delete_case2,
  delete_case1,
}
use t2u.Rbtree.Contents.{to_list, plug-append, to_list-plug_congr}

module _ {ℓ κ} {K : Type ℓ} {V : Type κ} where
  -- Two short chains of parents that give a subtree the same entries do so below any other parents.
  reroute :
      (t : RbtreeNode K V) (below p q up : Parents K V) (es : List (K × V))
      → to_list (plug (plug t below) p) ≡ to_list (plug (plug t below) q)
      → to_list (plug t (below ++ (q ++ up))) ≡ es
      → to_list (plug t (below ++ (p ++ up))) ≡ es
  reroute t below p q up es e h =
      rw (plug-append t below (p ++ up), plug-append (plug t below) p up)
        (to_list-plug_congr (plug (plug t below) p) (plug (plug t below) q) up es e
          (rw (← plug-append (plug t below) q up, ← plug-append t below (q ++ up)) h))

  module _ (t : RbtreeNode K V) (es : List (K × V)) where
    -- The chain of parents puts the subtree among the same entries.
    abbrev Keeps : Parents K V → Type (ℓ ⊔ κ)
    Keeps up = to_list (plug t up) ≡ es

    delete_case6-Keeps :
        (below : Parents K V) (f : Frame K V) (up : Parents K V)
        → Keeps (below ++ f ∷ up)
        → Allows Keeps (delete_case6 below f up)
    unfolding delete_case6 rotate_parent
    delete_case6-Keeps below (in_left c k v nil) up h = tt
    delete_case6-Keeps below (in_left c k v (node sc sl sk sv nil)) up h = tt
    delete_case6-Keeps below (in_left c k v (node sc sl sk sv (node rb_black a ik iv b))) up h = tt
    delete_case6-Keeps below (in_left c k v (node sc sl sk sv (node rb_red a ik iv b))) up h =
        reroute t below (in_left rb_black k v sl ∷ in_left c sk sv (node rb_black a ik iv b) ∷ [])
          (in_left c k v (node sc sl sk sv (node rb_red a ik iv b)) ∷ []) up es (simp append_assoc)
          h
    delete_case6-Keeps below (in_right c nil k v) up h = tt
    delete_case6-Keeps below (in_right c (node sc nil sk sv sr) k v) up h = tt
    delete_case6-Keeps below (in_right c (node sc (node rb_black a ik iv b) sk sv sr) k v) up h = tt
    delete_case6-Keeps below (in_right c (node sc (node rb_red a ik iv b) sk sv sr) k v) up h =
        reroute t below (in_right rb_black sr k v ∷ in_right c (node rb_black a ik iv b) sk sv ∷ [])
          (in_right c (node sc (node rb_red a ik iv b) sk sv sr) k v ∷ []) up es (simp append_assoc)
          h

    straighten-Keeps :
        (below : Parents K V) (f : Frame K V) (up : Parents K V)
        → Keeps (below ++ f ∷ up)
        → Allows (λ g. Keeps (below ++ g ∷ up)) (straighten f)
    unfolding straighten rotate_left rotate_right
    straighten-Keeps below (in_left c k v nil) up h = tt
    straighten-Keeps below (in_left c k v (node rb_red l sk sv r)) up h = h
    straighten-Keeps below (in_left c k v (node rb_black nil sk sv r)) up h = h
    straighten-Keeps below (in_left c k v (node rb_black (node rb_black a ik iv b) sk sv r)) up h =
        h
    straighten-Keeps below
          (in_left c k v (node rb_black (node rb_red a ik iv b) sk sv (node rb_red x y z w))) up h =
        h
    straighten-Keeps below (in_left c k v (node rb_black (node rb_red a ik iv b) sk sv r)) up h =
        reroute t below (in_left c k v (node rb_black a ik iv (node rb_red b sk sv r)) ∷ [])
          (in_left c k v (node rb_black (node rb_red a ik iv b) sk sv r) ∷ []) up es
          (simp append_assoc) h
    straighten-Keeps below (in_right c nil k v) up h = tt
    straighten-Keeps below (in_right c (node rb_red l sk sv r) k v) up h = h
    straighten-Keeps below (in_right c (node rb_black l sk sv nil) k v) up h = h
    straighten-Keeps below (in_right c (node rb_black l sk sv (node rb_black a ik iv b)) k v) up h =
        h
    straighten-Keeps below
          (in_right c (node rb_black (node rb_red x y z w) sk sv (node rb_red a ik iv b)) k v) up
          h =
        h
    straighten-Keeps below (in_right c (node rb_black l sk sv (node rb_red a ik iv b)) k v) up h =
        reroute t below (in_right c (node rb_black (node rb_red l sk sv a) ik iv b) k v ∷ [])
          (in_right c (node rb_black l sk sv (node rb_red a ik iv b)) k v ∷ []) up es
          (simp append_assoc) h

    repaint-Keeps :
        (below : Parents K V) (d c : RbColor) (f : Frame K V) (up : Parents K V)
        → Keeps (below ++ f ∷ up)
        → Allows (λ s. Keeps (below ++ recolor c s f ∷ up)) (set_color d (sibling f))
    repaint-Keeps below d c (in_left e k v nil) up h = tt
    repaint-Keeps below d c (in_left e k v (node x l sk sv r)) up h =
        reroute t below (in_left c k v (node d l sk sv r) ∷ [])
          (in_left e k v (node x l sk sv r) ∷ []) up es refl h
    repaint-Keeps below d c (in_right e nil k v) up h = tt
    repaint-Keeps below d c (in_right e (node x l sk sv r) k v) up h =
        reroute t below (in_right c (node d l sk sv r) k v ∷ [])
          (in_right e (node x l sk sv r) k v ∷ []) up es refl h

    delete_case5-Keeps :
        (below : Parents K V) (f : Frame K V) (up : Parents K V)
        → Keeps (below ++ f ∷ up)
        → Allows Keeps (delete_case5 below f up)
    unfolding delete_case5
    delete_case5-Keeps below f up h =
        Allows-bind (λ g. Keeps (below ++ g ∷ up)) Keeps (straighten f) _
          (straighten-Keeps below f up h) λ g k. delete_case6-Keeps below g up k

    -- Cases 3 and 4 test both children of the sibling, and go on in one of two ways.
    if_both-Keeps :
        (b : Bool) (s : RbtreeNode K V) (yes_way no_way : Option (Parents K V))
        → Allows Keeps yes_way
        → Allows Keeps no_way
        → Allows Keeps
            (if b then (do both ← children_black s; if both then yes_way else no_way) else no_way)
    if_both-Keeps b s yes_way no_way h k =
        Allows-if Keeps b _ no_way
          (Allows-bind (λ _. Unit {0}) Keeps (children_black s) _
            (Allows-all (λ _. Unit {0}) (children_black s) (λ _. tt))
            λ both _. Allows-if Keeps both yes_way no_way h k)
          k

    delete_case4-Keeps :
        (below : Parents K V) (f : Frame K V) (up : Parents K V)
        → Keeps (below ++ f ∷ up)
        → Allows Keeps (delete_case4 below f up)
    unfolding delete_case4
    delete_case4-Keeps below f up h =
        if_both-Keeps _ (sibling f) _ _
          (Allows-bind (λ s. Keeps (below ++ recolor rb_black s f ∷ up)) Keeps
            (set_color rb_red (sibling f)) _ (repaint-Keeps below rb_red rb_black f up h)
            (λ s k. k))
          (delete_case5-Keeps below f up h)

    module _ (again : Parents K V → Parents K V → Option (Parents K V))
        (again-Keeps : (below up : Parents K V)
          → Keeps (below ++ up)
          → Allows Keeps (again below up)) where
      delete_case3-Keeps :
          (below : Parents K V) (f : Frame K V) (up : Parents K V)
          → Keeps (below ++ f ∷ up)
          → Allows Keeps (delete_case3 again below f up)
      unfolding delete_case3
      delete_case3-Keeps below f up h =
          if_both-Keeps _ (sibling f) _ _
            (Allows-bind (λ s. Keeps (below ++ recolor rb_black s f ∷ up)) Keeps
              (set_color rb_red (sibling f)) _ (repaint-Keeps below rb_red rb_black f up h)
              λ s k. again-Keeps (below ++ recolor rb_black s f ∷ []) up (rw append_assoc k))
            (delete_case4-Keeps below f up h)

      delete_case2-Keeps :
          (below : Parents K V) (f : Frame K V) (up : Parents K V)
          → Keeps (below ++ f ∷ up)
          → Allows Keeps (delete_case2 again below f up)
      unfolding delete_case2 rotate_parent
      delete_case2-Keeps below (in_left c k v nil) up h =
          delete_case3-Keeps below (in_left c k v nil) up h
      delete_case2-Keeps below (in_left c k v (node rb_black l sk sv r)) up h =
          delete_case3-Keeps below (in_left c k v (node rb_black l sk sv r)) up h
      delete_case2-Keeps below (in_left c k v (node rb_red l sk sv r)) up h =
          delete_case3-Keeps below (in_left rb_red k v l) (in_left rb_black sk sv r ∷ up) (
            reroute t below (in_left rb_red k v l ∷ in_left rb_black sk sv r ∷ [])
              (in_left c k v (node rb_red l sk sv r) ∷ []) up es (simp append_assoc) h)
      delete_case2-Keeps below (in_right c nil k v) up h =
          delete_case3-Keeps below (in_right c nil k v) up h
      delete_case2-Keeps below (in_right c (node rb_black l sk sv r) k v) up h =
          delete_case3-Keeps below (in_right c (node rb_black l sk sv r) k v) up h
      delete_case2-Keeps below (in_right c (node rb_red l sk sv r) k v) up h =
          delete_case3-Keeps below (in_right rb_red r k v) (in_right rb_black l sk sv ∷ up) (
            reroute t below (in_right rb_red r k v ∷ in_right rb_black l sk sv ∷ [])
              (in_right c (node rb_red l sk sv r) k v ∷ []) up es (simp append_assoc) h)

    -- Whatever the six cases do, the node keeps its neighbours.
    pub delete_case1-Keeps :
        (fuel : ℕ) (below up : Parents K V)
        → Keeps (below ++ up)
        → Allows Keeps (delete_case1 fuel below up)
    unfolding delete_case1
    delete_case1-Keeps zero below up h = tt
    delete_case1-Keeps (suc fuel) below [] h = rw (← append-nil below) h
    delete_case1-Keeps (suc fuel) below (f ∷ up) h =
        delete_case2-Keeps (delete_case1 fuel) (delete_case1-Keeps fuel) below f up h
