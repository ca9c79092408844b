-- ===== src/Examples/Trees.antt =====
-- Runs of the tree operations of c/src/t2u_rbtree.c on small trees.
use t2u.Common.{
  [], ◌∷◌, none, ℕ, ◌≡◌, ◌≤◌, ◌^◌, ◌*◌, ◌+◌, refl, true, false, some, length, Ensures, arith,
}
use t2u.Rbtree.Node.{
  rb_black, rb_red, nil, node, in_right, Parents, plug, rotate_left, rotate_parent,
}
use t2u.Rbtree.Table.{
  Rbtree, success, out_of_memory, not_found, same_node, rbtree_lookup, rbtree_insert, rbtree_remove,
  rbtree_init, compare_default, do_lookup, insert_node, remove_found,
}
use t2u.Rbtree.Insert.{insert_fixup}
use t2u.Rbtree.Remove.{
  remove_node, unlink_node, delete_case1, delete_case2, delete_case3, children_black, delete_case4,
  delete_case5, straighten, delete_case6,
}
use t2u.Rbtree.Contents.{to_list}
use t2u.Rbtree.Walk.{rbtree_min, rbtree_max, rbtree_next, rbtree_prev}
use t2u.Rbtree.Walk.Order.{Goes, Comes, rbtree_next-rbtree_prev, rbtree_min-rbtree_max}
use t2u.Rbtree.Entries.{find}
use t2u.Rbtree.Shape.{height}
use t2u.Rbtree.Contract.{
  IsValid, Inserts, Removes, rbtree_lookup-find, rbtree_insert-Inserts, rbtree_remove-Removes,
}
use t2u.Rbtree.Depth.{do_lookup_steps}
use t2u.Compare.{compare_uint_ptr, compare_uint_ptr-IsLawful}

-- The keys 2, 4, 6 and 8, with a red leaf.
abbrev table : Rbtree ℕ ℕ
table = record {
  root =
      node rb_black (node rb_black nil 2 20 nil) 4 40
        (node rb_black nil 6 60 (node rb_red nil 8 80 nil));
  cmp = compare_uint_ptr;
}

-- The place of a right child of the root.
abbrev right_of_root : Parents ℕ ℕ
right_of_root = in_right rb_black (node rb_black nil 2 20 nil) 4 40 ∷ []

table-IsValid : IsValid table
unfolding compare_uint_ptr
table-IsValid = record {
  lawful = compare_uint_ptr-IsLawful;
  sorted = ground arith;
  red_black = ground arith;
}

rbtree_lookup-find_example : rbtree_lookup table 6 ≡ find table.cmp 6 (to_list table.root)
rbtree_lookup-find_example = rbtree_lookup-find table 6 table-IsValid

rbtree_insert-Inserts_example : Ensures (Inserts table 9 90) (rbtree_insert true table 9 90)
rbtree_insert-Inserts_example = rbtree_insert-Inserts table 9 90 table-IsValid

rbtree_remove-Removes_example : Ensures (Removes table 2) (rbtree_remove table 2)
rbtree_remove-Removes_example = rbtree_remove-Removes table 2 table-IsValid

do_lookup_steps_example :
    (length (do_lookup table.cmp 8 table.root []).1 ≤ 2 * height table.root)
    × (2 ^ height table.root ≤ length (to_list table.root) + 1)
do_lookup_steps_example = do_lookup_steps table 8 table-IsValid

-- The red uncle case and a rotation.
insert_rotates :
    rbtree_insert true table 9 90
    ≡ some (
      success,
      record table {
        root =
            node rb_black
              (node rb_black nil 2 20 nil)
              4
              40
              (node rb_black (node rb_red nil 6 60 nil) 8 80 (node rb_red nil 9 90 nil));
      },
    )
unfolding rbtree_insert insert_node do_lookup compare_uint_ptr insert_fixup rotate_left
insert_rotates = refl

remove_rotates :
    rbtree_remove table 2
    ≡ some (
      success,
      record table {
        root = node rb_black (node rb_black nil 4 40 nil) 6 60 (node rb_black nil 8 80 nil);
      },
    )
unfolding rbtree_remove remove_found do_lookup compare_uint_ptr remove_node unlink_node delete_case1
    delete_case2 delete_case3 children_black delete_case4 delete_case5 straighten delete_case6
    rotate_parent
remove_rotates = refl

insert_twice : rbtree_insert true table 4 44 ≡ some (same_node, table)
unfolding rbtree_insert insert_node do_lookup compare_uint_ptr
insert_twice = refl

insert_without_memory : rbtree_insert false table 9 90 ≡ some (out_of_memory, table)
unfolding rbtree_insert
insert_without_memory = refl

remove_missing : rbtree_remove table 5 ≡ some (not_found, table)
unfolding rbtree_remove remove_found do_lookup compare_uint_ptr
remove_missing = refl

rbtree_next-rbtree_prev_example :
    Ensures
      (Goes (plug (node rb_black nil 6 60 (node rb_red nil 8 80 nil)) right_of_root) ((8, 80) ∷ []))
      (rbtree_next (node rb_black nil 6 60 (node rb_red nil 8 80 nil)) right_of_root)
    × Ensures
        (Comes
          (plug (node rb_black nil 6 60 (node rb_red nil 8 80 nil)) right_of_root)
          ((2, 20) ∷ (4, 40) ∷ []))
        (rbtree_prev (node rb_black nil 6 60 (node rb_red nil 8 80 nil)) right_of_root)
rbtree_next-rbtree_prev_example =
    rbtree_next-rbtree_prev rb_black nil 6 60 (node rb_red nil 8 80 nil) right_of_root

rbtree_min-rbtree_max_example :
    Goes table.root (to_list table.root) (rbtree_min table)
    × Comes table.root (to_list table.root) (rbtree_max table)
rbtree_min-rbtree_max_example = rbtree_min-rbtree_max table

-- A tree without a comparison compares addresses.
init_default :
    rbtree_init {V = ℕ} true (λ k. k + 100) none
    ≡ some (record { root = nil; cmp = compare_default (λ k. k + 100) })
unfolding rbtree_init
init_default = refl
