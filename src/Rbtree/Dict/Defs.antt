-- ===== src/Rbtree/Dict/Defs.antt =====
-- c/src/t2u_rbtree.h over valid trees.
use t2u.Common.{
  subst, ◌∙◌, ◌∷◌, ◌≡◌, refl, Ordering, true, Option, none, some, List, arith, Ensures-eq-some,
}
use t2u.Rbtree.Node.{RbtreeNode, nil, node, get_color}
use t2u.Rbtree.Table.{ReturnCode, Rbtree, rbtree_lookup, rbtree_insert, rbtree_remove}
use t2u.Rbtree.Contents.{to_list}
use t2u.Rbtree.Entries.{IsLawful, IsSorted, change}
use t2u.Rbtree.Entries.Laws.{
  IsSorted-split, change-Below, change-Above, change-IsSorted, Above-trans, Below-trans,
}
use t2u.Rbtree.Shape.{height, IsShaped}
use t2u.Rbtree.Shape.Unlink.{IsRedBlack}
use t2u.Rbtree.Contract.{IsValid, Inserts, Removes, rbtree_insert-Inserts, rbtree_remove-Removes}

-- A comparison with its laws.
pub record Ord {ℓ} (K : Type ℓ) : Type ℓ where
  pub cmp : K → K → Ordering
  pub lawful : IsLawful cmp

module _ {ℓ κ} (K : Type ℓ) (V : Type κ) ⦃o : Ord K⦄ where
  pub record Dict : Type (ℓ ⊔ κ) where
    pub node : RbtreeNode K V
    pub sorted : IsSorted o.cmp (to_list node)
    pub red_black : IsRedBlack node

module _ {ℓ κ} {K : Type ℓ} {V : Type κ} ⦃o : Ord K⦄ where
  abbrev pub tree_of : Dict K V → Rbtree K V
  tree_of d = record { root = d.node; cmp = o.cmp }

  pub tree_of-IsValid : (d : Dict K V) → IsValid (tree_of d)
  tree_of-IsValid d = record { lawful = o.lawful; sorted = d.sorted; red_black = d.red_black }

  unfoldable pub entries : Dict K V → List (K × V)
  entries d = to_list d.node

  -- `rbtree_init`
  unfoldable pub init : Dict K V
  init = record { node = nil; sorted = tt; red_black = (tt, refl) }

  -- `rbtree_lookup`
  unfoldable pub lookup : Dict K V → K → Option V
  lookup d key = rbtree_lookup (tree_of d) key

  -- A run of the C function on this tree, with what it is known to give.
  pub inserted :
      (d : Dict K V) (key : K) (v : V)
      → (r : ReturnCode × Rbtree K V) × (rbtree_insert true (tree_of d) key v ≡ some r)
        × Inserts (tree_of d) key v r
  inserted d key v =
      Ensures-eq-some (rbtree_insert true (tree_of d) key v)
        (rbtree_insert-Inserts (tree_of d) key v (tree_of-IsValid d))

  pub removed :
      (d : Dict K V) (key : K)
      → (r : ReturnCode × Rbtree K V) × (rbtree_remove (tree_of d) key ≡ some r)
        × Removes (tree_of d) key r
  removed d key =
      Ensures-eq-some (rbtree_remove (tree_of d) key)
        (rbtree_remove-Removes (tree_of d) key (tree_of-IsValid d))

  of_tree : (t : Rbtree K V) → IsValid t → t.cmp ≡ o.cmp → Dict K V
  of_tree t valid e = record {
    node = t.root;
    sorted = subst (λ c. IsSorted c (to_list t.root)) e valid.sorted;
    red_black = valid.red_black;
  }

  -- `rbtree_insert`
  unfoldable pub insert : Dict K V → K → V → Dict K V
  unfolding inserted of_tree
  insert d key v = let (r, _, p) = inserted d key v in of_tree r.1 p.0 p.1

  -- `rbtree_remove`
  unfoldable pub remove : Dict K V → K → ReturnCode × Dict K V
  unfolding removed of_tree
  remove d key = let (r, _, p) = removed d key in (r.0, of_tree r.1 p.0 p.1)

  -- `tree->root`, by its key and data
  unfoldable pub root : Dict K V → Option (K × V)
  root d = elim d.node [ nil ↦ none | node c l k v r ↦ some (k, v) ]

  unfoldable pub modify_node : K → (V → V) → RbtreeNode K V → RbtreeNode K V
  modify_node q f nil = nil
  modify_node q f (node c l k v r) = elim (o.cmp k q) [
    | Ordering.eq ↦ node c l k (f v) r
    | Ordering.lt ↦ node c l k v (modify_node q f r)
    | Ordering.gt ↦ node c (modify_node q f l) k v r
  ]

  pub modify_node-height :
      (q : K) (f : V → V) (t : RbtreeNode K V)
      → (height (modify_node q f t) ≡ height t) × (get_color (modify_node q f t) ≡ get_color t)
  unfolding modify_node
  modify_node-height q f nil = (refl, refl)
  modify_node-height q f (node c l k v r) = ground (arith, modify_node-height q f l)

  pub modify_node-IsShaped :
      (q : K) (f : V → V) (t : RbtreeNode K V) → IsShaped t → IsShaped (modify_node q f t)
  unfolding modify_node
  modify_node-IsShaped q f nil s = tt
  modify_node-IsShaped q f (node c l k v r) s = ground (
    arith,
    modify_node-IsShaped q f l,
    modify_node-IsShaped q f r,
    modify_node-height q f l,
    modify_node-height q f r,
  )

  pub modify_node-change :
      (q : K) (f : V → V) (t : RbtreeNode K V)
      → IsSorted o.cmp (to_list t)
      → to_list (modify_node q f t) ≡ change o.cmp q f (to_list t)
  unfolding modify_node change
  modify_node-change q f nil s = refl
  modify_node-change q f (node c l k v r) s =
      let (low, high, sl, sr) = IsSorted-split o.cmp o.lawful k v (to_list l) (to_list r) s in
      ground (
        arith,
        modify_node-change q f l sl,
        modify_node-change q f r sr,
        change-Below o.cmp o.lawful q f (to_list l) ((k, v) ∷ to_list r),
        change-Above o.cmp o.lawful q f (to_list l) ((k, v) ∷ to_list r),
        o.lawful.eq_of_cmp k q,
        low,
        λ (e : o.cmp k q ≡ Ordering.lt). Below-trans o.cmp o.lawful q k e (to_list l) low,
        λ (e : o.cmp k q ≡ Ordering.gt). Above-trans o.cmp o.lawful q k e (to_list r) high,
      )

  -- A write through the data pointer of the node with this key; nothing if there is none.
  unfoldable pub modify : Dict K V → K → (V → V) → Dict K V
  unfolding modify_node
  modify d q f = record {
    node = modify_node q f d.node;
    sorted =
        rw (modify_node-change q f d.node d.sorted)
          (change-IsSorted o.cmp o.lawful q f (to_list d.node) d.sorted);
    red_black = (
      modify_node-IsShaped q f d.node d.red_black.0,
      (modify_node-height q f d.node).1 ∙ d.red_black.1,
    );
  }
