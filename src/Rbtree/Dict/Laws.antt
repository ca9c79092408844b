-- ===== src/Rbtree/Dict/Laws.antt =====
-- The laws by which the users of a tree know it (c/src/t2u_rbtree.h).
use t2u.Common.{◌≡◌, ◌∙◌, refl, Option, none, some, [], arith, length, suc}
use t2u.Rbtree.Node.{RbtreeNode, nil, node}
use t2u.Rbtree.Table.{success, not_found, do_lookup, data_of, rbtree_lookup}
use t2u.Rbtree.Contents.{to_list}
use t2u.Rbtree.Entries.{at_key, find, put, drop_key, change, IsSorted, AllValues}
use t2u.Rbtree.Entries.Laws.{
  or_else, map_some, find-put, find-drop_key, find-change, length-drop_key, find-AllValues,
}
use t2u.Rbtree.Contract.{rbtree_lookup-find}
use t2u.Rbtree.Dict.Defs.{
  Ord, Dict, init, lookup, insert, remove, root, modify, entries, inserted, removed, tree_of,
  tree_of-IsValid, modify_node-change,
}

module _ {ℓ κ} {K : Type ℓ} {V : Type κ} ⦃o : Ord K⦄ where
  pub entries-init : entries {K = K} {V = V} init ≡ []
  unfolding entries init
  entries-init = refl

  pub entries-insert :
      (d : Dict K V) (k : K) (v : V) → entries (insert d k v) ≡ put o.cmp k v (entries d)
  unfolding entries insert
  entries-insert d k v = (inserted d k v).2.2

  pub entries-remove :
      (d : Dict K V) (k : K) → entries (remove d k).1 ≡ drop_key o.cmp k (entries d)
  unfolding entries remove
  entries-remove d k = (removed d k).2.2

  pub entries-modify :
      (d : Dict K V) (k : K) (f : V → V) → entries (modify d k f) ≡ change o.cmp k f (entries d)
  unfolding entries modify
  entries-modify d k f = modify_node-change k f d.node d.sorted

  pub entries-IsSorted : (d : Dict K V) → IsSorted o.cmp (entries d)
  unfolding entries
  entries-IsSorted d = d.sorted

  pub lookup-find : (d : Dict K V) (k : K) → lookup d k ≡ find o.cmp k (entries d)
  unfolding lookup entries
  lookup-find d k = rbtree_lookup-find (tree_of d) k (tree_of-IsValid d)

  pub lookup-init : (k : K) → lookup {V = V} init k ≡ none
  unfolding lookup init rbtree_lookup do_lookup
  lookup-init k = refl

  pub lookup-insert :
      (d : Dict K V) (k q : K) (v : V)
      → lookup (insert d k v) q ≡ at_key (o.cmp k q) (or_else (lookup d q) v) (lookup d q)
  lookup-insert d k q v =
      rw (lookup-find (insert d k v) q, entries-insert d k v, lookup-find d q)
        (find-put o.cmp o.lawful q k v (entries d) (entries-IsSorted d))

  pub lookup-remove :
      (d : Dict K V) (k q : K) → lookup (remove d k).1 q ≡ at_key (o.cmp k q) (none) (lookup d q)
  lookup-remove d k q =
      rw (lookup-find (remove d k).1 q, entries-remove d k, lookup-find d q)
        (find-drop_key o.cmp o.lawful q k (entries d) (entries-IsSorted d))

  pub lookup-modify :
      (d : Dict K V) (k q : K) (f : V → V)
      → lookup (modify d k f) q ≡ at_key (o.cmp k q) (map_some f (lookup d q)) (lookup d q)
  lookup-modify d k q f =
      rw (lookup-find (modify d k f) q, entries-modify d k f, lookup-find d q)
        (find-change o.cmp o.lawful q k f (entries d))

  -- `rbtree_remove` says if there was an entry.
  pub remove_code :
      (d : Dict K V) (k : K)
      → (remove d k).0 ≡ elim (lookup d k) [ none ↦ not_found | some _ ↦ success ]
  unfolding remove
  remove_code d k = rw (lookup-find d k) (unfold entries in (removed d k).2.3)

  pub length-remove :
      (d : Dict K V) (k : K) (v : V)
      → lookup d k ≡ some v
      → length (entries d) ≡ suc (length (entries (remove d k).1))
  length-remove d k v e =
      rw (entries-remove d k)
        (length-drop_key o.cmp o.lawful k v (entries d) (rw (lookup-find d k) at e))

  -- The root is an entry, and there is one unless the tree is empty.
  pub lookup-root : (d : Dict K V) (k : K) (v : V) → root d ≡ some (k, v) → lookup d k ≡ some v
  unfolding root lookup rbtree_lookup do_lookup
  lookup-root d k v e = at_node d.node e
    where
      at_node :
          (n : RbtreeNode K V)
          → (elim n as (λ _. Option (K × V)) [ nil ↦ none | node c l j w r ↦ some (j, w) ])
            ≡ some (k, v)
          → data_of (do_lookup o.cmp k n []).0 ≡ some v
      at_node nil e = cc
      at_node (node c l j w r) e = ground (arith, o.lawful.cmp_refl k)

  pub entries_of_root_none : (d : Dict K V) → root d ≡ none → entries d ≡ []
  unfolding root entries
  entries_of_root_none d e = at_node d.node e
    where
      at_node :
          (n : RbtreeNode K V)
          → (elim n as (λ _. Option (K × V)) [ nil ↦ none | node c l j w r ↦ some (j, w) ]) ≡ none
          → to_list n ≡ []
      at_node nil e = refl
      at_node (node c l j w r) e = cc

  pub lookup_of_root_none : (d : Dict K V) (k : K) → root d ≡ none → lookup d k ≡ none
  unfolding root lookup rbtree_lookup do_lookup
  lookup_of_root_none d k e = at_node d.node e
    where
      at_node :
          (n : RbtreeNode K V)
          → (elim n as (λ _. Option (K × V)) [ nil ↦ none | node c l j w r ↦ some (j, w) ]) ≡ none
          → data_of (do_lookup o.cmp k n []).0 ≡ none
      at_node nil e = refl
      at_node (node c l j w r) e = cc

  pub lookup-AllValues :
      (P : V → Type 0) (d : Dict K V)
      → ((k : K) (v : V) → lookup d k ≡ some v → P v)
      → AllValues P (entries d)
  lookup-AllValues P d h =
      find-AllValues o.cmp o.lawful P (entries d) (entries-IsSorted d)
        (λ k v e. h k v (lookup-find d k ∙ e))
