-- ===== src/Maple/Examples.antt =====
-- Runs of maple_tree.c on small trees of numbers, and the theorems at such inputs.
use latte_c.Prelude.{ℕ, ◌≡◌, refl, some, arith, false}
use latte_c.Cmp.{private_uint64_cmp, private_uint64_cmp-IsOrder}
use latte_c.Entries.{insert_entry, lookup_entry, remove_entry, is_new, is_old}
use latte_c.Maple.{
  MapleNode, null, node, MapleTree, maple_tree_put, maple_tree_get, maple_tree_remove, entries,
  node_count, insert_node, settle_left, settle_right, rotate_left, rotate_right, size_inc, size_dec,
  remove_node, remove_found,
}
use latte_c.Maple.Refine.{
  IsTreap, maple_tree_put_refines, maple_tree_remove_refines, maple_tree_get_lem,
}
use latte_c.Maple.Iterator.{
  MapleTreeIterator, iterate, handed_out, iterate-get_iterator, maple_tree_get_iterator,
  iterator_has_next,
}

abbrev leaf : ℕ → ℕ → ℕ → MapleNode ℕ ℕ
leaf k v p = node null k v null p

-- 2, 1, 5 and 4 with the priorities 9, 3, 7 and 6.
abbrev sample : MapleTree ℕ ℕ
sample = record { root = node (leaf 1 10 3) 2 20 (node (leaf 4 40 6) 5 50 null 7) 9; size = 4 }

-- A key with the highest priority goes to the root, by two rotations.
put_three :
    maple_tree_put private_uint64_cmp 20 sample 3 30
    ≡ some (
      record {
        root = node (node (leaf 1 10 3) 2 20 null 9) 3 30 (node (leaf 4 40 6) 5 50 null 7) 20;
        size = 5;
      },
      1,
    )
unfolding maple_tree_put private_uint64_cmp insert_node settle_left rotate_right settle_right
    rotate_left size_inc
put_three = refl

-- The root has two children: the right one is the higher.
remove_two :
    maple_tree_remove private_uint64_cmp sample 2
    ≡ some (record { root = node (node (leaf 1 10 3) 4 40 null 6) 5 50 null 7; size = 3 }, 1)
unfolding maple_tree_remove private_uint64_cmp remove_node node_count remove_found rotate_left
    size_dec
remove_two = refl

sample-IsTreap : IsTreap private_uint64_cmp sample
unfolding private_uint64_cmp
sample-IsTreap = record {
  ordered = ((refl, (refl, (refl, tt))), ((refl, (refl, tt)), ((refl, tt), (tt, tt))));
  heap = omega arith;
  counted = refl;
}

maple_tree_put_refines_example :
    (tree' : MapleTree ℕ ℕ) × (maple_tree_put private_uint64_cmp 20 sample 3 30
      ≡ some (tree', is_new (lookup_entry private_uint64_cmp 3 (entries sample.root))))
    × (entries tree'.root ≡ insert_entry private_uint64_cmp 3 30 (entries sample.root))
    × IsTreap private_uint64_cmp tree'
maple_tree_put_refines_example =
    maple_tree_put_refines private_uint64_cmp private_uint64_cmp-IsOrder 20 sample 3 30
      sample-IsTreap

maple_tree_remove_refines_example :
    (tree' : MapleTree ℕ ℕ) × (maple_tree_remove private_uint64_cmp sample 2
      ≡ some (tree', is_old (lookup_entry private_uint64_cmp 2 (entries sample.root))))
    × (entries tree'.root ≡ remove_entry private_uint64_cmp 2 (entries sample.root))
    × IsTreap private_uint64_cmp tree'
maple_tree_remove_refines_example =
    maple_tree_remove_refines private_uint64_cmp private_uint64_cmp-IsOrder sample 2 sample-IsTreap

maple_tree_get_lem_example :
    maple_tree_get private_uint64_cmp sample 4
    ≡ lookup_entry private_uint64_cmp 4 (entries sample.root)
maple_tree_get_lem_example =
    maple_tree_get_lem private_uint64_cmp private_uint64_cmp-IsOrder sample 4 sample-IsTreap

iterate-get_iterator_example :
    (it : MapleTreeIterator ℕ ℕ) × (maple_tree_get_iterator sample ≡ some it)
    × ((rest : MapleTreeIterator ℕ ℕ) × (iterate (node_count sample.root) it
          ≡ some (handed_out (entries sample.root), rest))
        × (iterator_has_next rest ≡ false))
unfolding node_count
iterate-get_iterator_example = iterate-get_iterator sample (omega arith)
