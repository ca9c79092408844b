-- ===== src/Rbtree/Contract.antt =====
-- c/src/t2u_rbtree.c: the operations keep the tree valid, never fault, and are those of a sorted
-- list of entries.
use t2u.Common.{
  ◌≡◌, refl, ◌∙◌, sym, ap, true, none, some, List, [], ◌∷◌, ◌++◌, append-nil, append_assoc,
  Ensures-and, arith, Ensures, Ensures-bind, ◌>>=◌,
}
use t2u.Rbtree.Node.{RbColor, rb_black, rb_red, RbtreeNode, nil, node, Parents, set_color}
use t2u.Rbtree.Insert.{insert_fixup}
use t2u.Rbtree.Remove.{remove_node}
use t2u.Rbtree.Table.{
  ReturnCode, success, not_found, same_node, Rbtree, do_lookup, rbtree_lookup, insert_node,
  rbtree_insert, remove_found, rbtree_remove,
}
use t2u.Rbtree.Contents.{to_list, before, after, to_list-plug}
use t2u.Rbtree.Contents.Insert.{insert_fixup-to_list}
use t2u.Rbtree.Contents.Unlink.{without, remove_node-to_list}
use t2u.Rbtree.Entries.{IsLawful, find, put, drop_key, IsSorted, Below}
use t2u.Rbtree.Entries.Laws.{
  IsSorted-split, find-Below, find-Above, put_between, put_present, drop_key_present,
  drop_key-Below, drop_key-Above, put-IsSorted, drop_key-IsSorted,
}
use t2u.Rbtree.Shape.{IsShaped, Fits, do_lookup-Fits}
use t2u.Rbtree.Shape.Insert.{NonNil, insert_fixup-IsMended}
use t2u.Rbtree.Shape.Unlink.{IsRedBlack, remove_node-IsRedBlack}
use t2u.Rbtree.Order.{Brackets, HasKey, do_lookup-plug, do_lookup-Brackets, data_of-do_lookup}

module _ {ℓ κ} {K : Type ℓ} {V : Type κ} where
  pub record IsValid (tree : Rbtree K V) : Type ℓ where
    pub lawful : IsLawful tree.cmp
    pub sorted : IsSorted tree.cmp (to_list tree.root)
    pub red_black : IsRedBlack tree.root

  -- On a valid tree, `rbtree_lookup` is the search of the list of entries.
  pub rbtree_lookup-find :
      (tree : Rbtree K V) (key : K)
      → IsValid tree
      → rbtree_lookup tree key ≡ find tree.cmp key (to_list tree.root)
  unfolding rbtree_lookup
  rbtree_lookup-find tree key v = data_of-do_lookup tree.cmp v.lawful key tree.root [] v.sorted

  -- What is known of the place where a search for `key` stops.
  record IsFound (tree : Rbtree K V) (key : K) (n : RbtreeNode K V) (up : Parents K V)
      : Type (ℓ ⊔ κ) where
    entries : to_list tree.root ≡ before up ++ to_list n ++ after up
    fits : Fits n up
    brackets : Brackets tree.cmp key up
    has_key : HasKey tree.cmp key n

  do_lookup-IsFound :
      (tree : Rbtree K V) (key : K)
      → IsValid tree
      → let (n, up) = do_lookup tree.cmp key tree.root [] in IsFound tree key n up
  do_lookup-IsFound tree key v = record {
    entries =
        ap to_list (sym (do_lookup-plug tree.cmp key tree.root []))
        ∙ to_list-plug (do_lookup tree.cmp key tree.root []).0
            (do_lookup tree.cmp key tree.root []).1;
    fits = do_lookup-Fits tree.cmp key tree.root [] v.red_black;
    brackets = (do_lookup-Brackets tree.cmp v.lawful key tree.root [] v.sorted (tt, tt)).0;
    has_key = (do_lookup-Brackets tree.cmp v.lawful key tree.root [] v.sorted (tt, tt)).1;
  }

  module _ (tree : Rbtree K V) (key : K) (up : Parents K V) (ok : IsValid tree) where
    missing_entries : IsFound tree key nil up → to_list tree.root ≡ before up ++ after up
    missing_entries f = simp (f.entries, append-nil)

    missing_none : IsFound tree key nil up → find tree.cmp key (to_list tree.root) ≡ none
    missing_none f =
        rw
          (missing_entries f, find-Below tree.cmp ok.lawful key (before up) (after up) f.brackets.0)
          (find-Above tree.cmp ok.lawful key (after up) f.brackets.1)

    module _ (c : RbColor) (l : RbtreeNode K V) (k : K) (w : V) (r : RbtreeNode K V)
        (f : IsFound tree key (node c l k w r) up) where
      abbrev smaller : List (K × V)
      smaller = before up ++ to_list l

      abbrev greater : List (K × V)
      greater = to_list r ++ after up

      present_entries : to_list tree.root ≡ smaller ++ (k, w) ∷ greater
      present_entries = simp (f.entries, append_assoc)

      present-Below : Below tree.cmp key smaller
      present-Below =
          let e = ok.lawful.eq_of_cmp k key f.has_key in
          rw (← e)
            (IsSorted-split tree.cmp ok.lawful k w smaller greater
              (rw present_entries at ok.sorted)).0

      present_some : find tree.cmp key (to_list tree.root) ≡ some w
      unfolding find
      present_some =
          rw
            (
              present_entries,
              find-Below tree.cmp ok.lawful key smaller ((k, w) ∷ greater) present-Below,
            )
            (rw (f.has_key, find))

  -- What an insertion gives: the list operation, and a return code that says if it was done.
  abbrev pub Inserts : Rbtree K V → K → V → ReturnCode × Rbtree K V → Type (ℓ ⊔ κ)
  Inserts tree key v (code, tree') =
      IsValid tree'
      × (tree'.cmp ≡ tree.cmp)
      × (to_list tree'.root ≡ put tree.cmp key v (to_list tree.root))
      × (code
          ≡ elim (find tree.cmp key (to_list tree.root)) [ none ↦ success | some _ ↦ same_node ])

  insert_node-Inserts :
      (tree : Rbtree K V) (key : K) (v : V) (n : RbtreeNode K V) (up : Parents K V)
      → IsValid tree
      → IsFound tree key n up
      → Ensures (Inserts tree key v) (insert_node tree key v n up)
  unfolding insert_node
  insert_node-Inserts tree key v (node c l k w r) up ok f = (
    ok,
    refl,
    rw (present_entries tree key up ok c l k w r f) (
        sym (
          put_present tree.cmp ok.lawful key k v w _ _ (present-Below tree key up ok c l k w r f)
            f.has_key)),
    rw (present_some tree key up ok c l k w r f),
  )
  insert_node-Inserts tree key v nil up ok f =
      Ensures-bind (λ t. (IsShaped t × NonNil t) × (to_list t ≡ before up ++ (key, v) ∷ after up))
        (Inserts tree key v) (insert_fixup (node rb_red nil key v nil) up) _
        (Ensures-and _ _ (insert_fixup (node rb_red nil key v nil) up)
          (insert_fixup-IsMended nil key v nil up (tt, tt, refl, (refl, refl)) f.fits.1)
          (insert_fixup-to_list (node rb_red nil key v nil) up (before up ++ (key, v) ∷ after up)
            (to_list-plug (node rb_red nil key v nil) up ∙ simp append_assoc)))
        λ t (shape, e). blacken t shape e
    where
      same : put tree.cmp key v (to_list tree.root) ≡ before up ++ (key, v) ∷ after up
      same =
          rw (missing_entries tree key up ok f)
            (put_between tree.cmp ok.lawful key v (before up) (after up) f.brackets.0 f.brackets.1)

      sorted : IsSorted tree.cmp (before up ++ (key, v) ∷ after up)
      sorted = rw same at (put-IsSorted tree.cmp ok.lawful key v (to_list tree.root) ok.sorted)

      blacken :
          (t : RbtreeNode K V)
          → IsShaped t × NonNil t
          → to_list t ≡ before up ++ (key, v) ∷ after up
          → Ensures
              (Inserts tree key v)
              (do top ← set_color rb_black t; some (success, record tree { root = top }))
      blacken nil s e = absurd s.1
      blacken (node c l k w r) s e = (
        record { lawful = ok.lawful; sorted = rw e sorted; red_black = (ground arith) },
        refl,
        e ∙ sym same,
        rw (missing_none tree key up ok f),
      )

  -- On a valid tree and with memory for the node, `rbtree_insert` gives a result (no assertion and
  -- no access to a null pointer fails): a valid tree with the same comparison, whose entries in order
  -- are those of the sorted list with the entry put in, where an entry under the key stays as it is;
  -- the code is `success` if the key was missing and `same_node` if it was there.
  pub rbtree_insert-Inserts :
      (tree : Rbtree K V) (key : K) (v : V)
      → IsValid tree
      → Ensures (Inserts tree key v) (rbtree_insert true tree key v)
  unfolding rbtree_insert
  rbtree_insert-Inserts tree key v ok =
      insert_node-Inserts tree key v _ _ ok (do_lookup-IsFound tree key ok)

  -- What a removal gives: the list operation, and a return code that says if the key was there.
  abbrev pub Removes : Rbtree K V → K → ReturnCode × Rbtree K V → Type (ℓ ⊔ κ)
  Removes tree key (code, tree') =
      IsValid tree'
      × (tree'.cmp ≡ tree.cmp)
      × (to_list tree'.root ≡ drop_key tree.cmp key (to_list tree.root))
      × (code
          ≡ elim (find tree.cmp key (to_list tree.root)) [ none ↦ not_found | some _ ↦ success ])

  remove_found-Removes :
      (tree : Rbtree K V) (key : K) (n : RbtreeNode K V) (up : Parents K V)
      → IsValid tree
      → IsFound tree key n up
      → Ensures (Removes tree key) (remove_found tree n up)
  unfolding remove_found
  remove_found-Removes tree key nil up ok f =
      (ok, refl, sym same, rw (missing_none tree key up ok f))
    where
      same : drop_key tree.cmp key (to_list tree.root) ≡ to_list tree.root
      same = rw (missing_entries tree key up ok f) (
          drop_key-Below tree.cmp ok.lawful key (before up) (after up) f.brackets.0
          ∙ ap (◌++◌ (before up)) (drop_key-Above tree.cmp ok.lawful key (after up) f.brackets.1))
  remove_found-Removes tree key (node c l k w r) up ok f =
      Ensures-bind (λ t. IsRedBlack t × (to_list t ≡ without l r up)) (Removes tree key)
        (remove_node (node c l k w r) up) _
        (Ensures-and _ _ (remove_node (node c l k w r) up)
          (remove_node-IsRedBlack c l k w r up f.fits) (remove_node-to_list c l k w r up))
        λ t (shape, e). (
          record { lawful = ok.lawful; sorted = rw (e ∙ sym same) sorted; red_black = shape },
          refl,
          e ∙ sym same,
          rw (present_some tree key up ok c l k w r f),
        )
    where
      same : drop_key tree.cmp key (to_list tree.root) ≡ without l r up
      same = rw (present_entries tree key up ok c l k w r f) (
          drop_key_present tree.cmp ok.lawful key k w _ _ (present-Below tree key up ok c l k w r f)
            f.has_key
          ∙ simp append_assoc)

      sorted : IsSorted tree.cmp (drop_key tree.cmp key (to_list tree.root))
      sorted = drop_key-IsSorted tree.cmp ok.lawful key (to_list tree.root) ok.sorted

  -- On a valid tree, `rbtree_remove` gives a result (no assertion and no access to a null pointer
  -- fails, and its fuel is enough): a valid tree with the same comparison, whose entries in order are
  -- those of the sorted list without the key; the code is `not_found` if the key was missing and
  -- `success` if it was there.
  pub rbtree_remove-Removes :
      (tree : Rbtree K V) (key : K)
      → IsValid tree
      → Ensures (Removes tree key) (rbtree_remove tree key)
  unfolding rbtree_remove
  rbtree_remove-Removes tree key ok =
      remove_found-Removes tree key _ _ ok (do_lookup-IsFound tree key ok)
