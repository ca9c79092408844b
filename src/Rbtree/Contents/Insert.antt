-- ===== src/Rbtree/Contents/Insert.antt =====
-- c/src/t2u_rbtree.c, `__rbtree_insert`: the entries of the tree.
use t2u.Common.{◌≡◌, refl, List, [], ◌∷◌, append_assoc, Allows}
use t2u.Rbtree.Node.{
  rb_black, rb_red, RbtreeNode, nil, node, in_left, in_right, Parents, plug, rotate_left,
  rotate_right,
}
use t2u.Rbtree.Insert.{insert_fixup}
use t2u.Rbtree.Contents.{to_list, to_list-plug_congr}

module _ {ℓ κ} {K : Type ℓ} {V : Type κ} where
  -- The loop of the insertion keeps the entries and their order.
  pub insert_fixup-to_list :
      (n : RbtreeNode K V) (up : Parents K V) (es : List (K × V))
      → to_list (plug n up) ≡ es
      → Allows (λ t. to_list t ≡ es) (insert_fixup n up)
  unfolding insert_fixup rotate_left rotate_right
  insert_fixup-to_list n [] es h = h
  insert_fixup-to_list n (in_left rb_black k v r ∷ up) es h = h
  insert_fixup-to_list n (in_right rb_black l k v ∷ up) es h = h
  insert_fixup-to_list n (in_left rb_red k v r ∷ []) es h = tt
  insert_fixup-to_list n (in_right rb_red l k v ∷ []) es h = tt
  insert_fixup-to_list n (in_left rb_red k v r ∷ in_left c gk gv (node rb_red a uk uv b) ∷ up) es
        h =
      insert_fixup-to_list (node rb_red (node rb_black n k v r) gk gv (node rb_black a uk uv b)) up
        es
        (to_list-plug_congr _ (node c (node rb_red n k v r) gk gv (node rb_red a uk uv b)) up es
          refl h)
  insert_fixup-to_list n (in_left rb_red k v r ∷ in_left c gk gv nil ∷ up) es h =
      to_list-plug_congr _ (node c (node rb_red n k v r) gk gv nil) up es (simp append_assoc) h
  insert_fixup-to_list n (in_left rb_red k v r ∷ in_left c gk gv (node rb_black a uk uv b) ∷ up) es
        h =
      to_list-plug_congr _ (node c (node rb_red n k v r) gk gv (node rb_black a uk uv b)) up es
        (simp append_assoc) h
  insert_fixup-to_list n (in_right rb_red l k v ∷ in_left c gk gv (node rb_red a uk uv b) ∷ up) es
        h =
      insert_fixup-to_list (node rb_red (node rb_black l k v n) gk gv (node rb_black a uk uv b)) up
        es
        (to_list-plug_congr _ (node c (node rb_red l k v n) gk gv (node rb_red a uk uv b)) up es
          refl h)
  insert_fixup-to_list nil (in_right rb_red l k v ∷ in_left c gk gv nil ∷ up) es h = tt
  insert_fixup-to_list (node nc x nk nv y) (in_right rb_red l k v ∷ in_left c gk gv nil ∷ up) es h =
      to_list-plug_congr _ (node c (node rb_red l k v (node nc x nk nv y)) gk gv nil) up es
        (simp append_assoc) h
  insert_fixup-to_list nil (in_right rb_red l k v ∷ in_left c gk gv (node rb_black a uk uv b) ∷ up)
        es h =
      tt
  insert_fixup-to_list (node nc x nk nv y)
        (in_right rb_red l k v ∷ in_left c gk gv (node rb_black a uk uv b) ∷ up) es h =
      to_list-plug_congr _
        (node c (node rb_red l k v (node nc x nk nv y)) gk gv (node rb_black a uk uv b)) up es
        (simp append_assoc) h
  insert_fixup-to_list n (in_right rb_red l k v ∷ in_right c (node rb_red a uk uv b) gk gv ∷ up) es
        h =
      insert_fixup-to_list (node rb_red (node rb_black a uk uv b) gk gv (node rb_black l k v n)) up
        es
        (to_list-plug_congr _ (node c (node rb_red a uk uv b) gk gv (node rb_red l k v n)) up es
          refl h)
  insert_fixup-to_list n (in_right rb_red l k v ∷ in_right c nil gk gv ∷ up) es h =
      to_list-plug_congr _ (node c nil gk gv (node rb_red l k v n)) up es (simp append_assoc) h
  insert_fixup-to_list n (in_right rb_red l k v ∷ in_right c (node rb_black a uk uv b) gk gv ∷ up)
        es h =
      to_list-plug_congr _ (node c (node rb_black a uk uv b) gk gv (node rb_red l k v n)) up es
        (simp append_assoc) h
  insert_fixup-to_list n (in_left rb_red k v r ∷ in_right c (node rb_red a uk uv b) gk gv ∷ up) es
        h =
      insert_fixup-to_list (node rb_red (node rb_black a uk uv b) gk gv (node rb_black n k v r)) up
        es
        (to_list-plug_congr _ (node c (node rb_red a uk uv b) gk gv (node rb_red n k v r)) up es
          refl h)
  insert_fixup-to_list nil (in_left rb_red k v r ∷ in_right c nil gk gv ∷ up) es h = tt
  insert_fixup-to_list (node nc x nk nv y) (in_left rb_red k v r ∷ in_right c nil gk gv ∷ up) es h =
      to_list-plug_congr _ (node c nil gk gv (node rb_red (node nc x nk nv y) k v r)) up es
        (simp append_assoc) h
  insert_fixup-to_list nil (in_left rb_red k v r ∷ in_right c (node rb_black a uk uv b) gk gv ∷ up)
        es h =
      tt
  insert_fixup-to_list (node nc x nk nv y)
        (in_left rb_red k v r ∷ in_right c (node rb_black a uk uv b) gk gv ∷ up) es h =
      to_list-plug_congr _
        (node c (node rb_black a uk uv b) gk gv (node rb_red (node nc x nk nv y) k v r)) up es
        (simp append_assoc) h
