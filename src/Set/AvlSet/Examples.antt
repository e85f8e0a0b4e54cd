-- ===== src/Set/AvlSet/Examples.antt =====
-- A set of numbers over an AVL tree.
use latte_c.Prelude.{ℕ, ◌≡◌, refl, some, arith}
use latte_c.Cmp.{private_uint64_cmp, private_uint64_cmp-IsOrder}
use latte_c.Entries.{insert_entry, lookup_entry, is_new}
use latte_c.Avl.{null, node, avl_tree_get, avl_node_search}
use latte_c.Avl.Order.{entries, IsOrdered}
use latte_c.Avl.Flat.{IsFlat}
use latte_c.Set.{SetNode, set_add, set_contains, avl_set_contains}
use latte_c.Set.AvlSet.{over, is_root, set_add-set_contains}

-- 10 and 5, as two calls of set_add leave them.
abbrev sample : SetNode ℕ
sample = node (node null 5 tt null 0) 10 tt null 0

-- 5 is in the set, and set_contains says that it is not.
contains_five : set_contains (over private_uint64_cmp sample) 5 ≡ 0
unfolding set_contains avl_set_contains avl_tree_get avl_node_search private_uint64_cmp
contains_five = refl

abbrev sample-IsFlat : IsFlat sample
sample-IsFlat = omega arith

sample-IsOrdered : IsOrdered private_uint64_cmp sample
unfolding private_uint64_cmp
sample-IsOrdered = ((tt, refl, tt), tt, (tt, tt, tt, tt), tt)

set_add-set_contains_example :
    (t' : SetNode ℕ) × (set_add (over private_uint64_cmp sample) 7
      ≡ some
          (over private_uint64_cmp t', is_new (lookup_entry private_uint64_cmp 7 (entries sample))))
    × (entries t' ≡ insert_entry private_uint64_cmp 7 tt (entries sample))
    × ((x : ℕ) → set_contains (over private_uint64_cmp t') x ≡ is_root private_uint64_cmp t' x)
set_add-set_contains_example =
    set_add-set_contains private_uint64_cmp private_uint64_cmp-IsOrder sample 7 sample-IsFlat
      sample-IsOrdered
