-- ===== src/Avl/Examples.antt =====
-- Runs of avl_tree.c on small trees of numbers, and the theorems at such inputs.
use latte_c.Prelude.{ℕ, ◌≡◌, ◌≢◌, refl, none, some, [], ◌∷◌, same, sign, arith, false}
use latte_c.Cmp.{private_uint64_cmp, private_uint64_cmp-IsOrder}
use latte_c.Avl.{
  AvlNode, null, node, avl_tree_put, avl_tree_get, avl_tree_remove, find_min_value_node,
  node_length,
}
use latte_c.Avl.Flat.{IsFlat}
use latte_c.Avl.Order.{entries, IsOrdered}
use latte_c.Entries.{insert_entry, lookup_entry, is_new}
use latte_c.Avl.Put.{avl_tree_put_refines}
use latte_c.Avl.Search.{avl_tree_get-root_only, root_if_same}
use latte_c.Avl.Remove.{avl_tree_remove_total, Keeps, key_of}
use latte_c.Avl.RemoveOrdered.{avl_tree_remove_other, avl_tree_remove_root_duplicates}
use latte_c.Avl.Iterator.{
  AvlIterator, iterate, as_pairs, iterate_lem, avl_tree_iterator_new, avl_tree_iterator_has_next,
}

abbrev leaf : ℕ → ℕ → AvlNode ℕ ℕ
leaf k v = node null k v null 1

-- 10, 1, 5 and 15 put in turn, as tree_test.c does.
abbrev sample : AvlNode ℕ ℕ
sample = node (node null 1 0 (leaf 5 0) 0) 10 0 (leaf 15 0) 0

-- 2, 1, 5, 4 put in turn.
abbrev bent : AvlNode ℕ ℕ
bent = node (leaf 1 10) 2 20 (node (leaf 4 40) 5 50 null 1) 1

put_four :
    avl_tree_put private_uint64_cmp (node (node null 1 0 (leaf 5 0) 0) 10 0 null 0) 15 0
    ≡ some (sample, 1)
unfolding avl_tree_put private_uint64_cmp
put_four = refl

-- Ascending keys: the third is put below the second, and nothing rotates.
ascending :
    avl_tree_put private_uint64_cmp (node null 1 0 (leaf 2 0) 0) 3 0
    ≡ some (node null 1 0 (node null 2 0 (leaf 3 0) 0) 0, 1)
unfolding avl_tree_put private_uint64_cmp
ascending = refl

-- 5 is in the tree, and is not found.
get_five : avl_tree_get private_uint64_cmp sample 5 ≡ null
unfolding avl_tree_get private_uint64_cmp
get_five = refl

abbrev sample-IsFlat : IsFlat sample
sample-IsFlat = omega arith

sample-IsOrdered : IsOrdered private_uint64_cmp sample
unfolding private_uint64_cmp
sample-IsOrdered = (
  (tt, refl, (tt, refl, tt)),
  (tt, refl, tt),
  (tt, (tt, refl, tt), tt, (tt, tt, tt, tt)),
  (tt, tt, tt, tt),
)

bent-IsOrdered : IsOrdered private_uint64_cmp bent
unfolding private_uint64_cmp
bent-IsOrdered = (
  (tt, refl, tt),
  ((tt, refl, tt), refl, tt),
  (tt, tt, tt, tt),
  ((tt, refl, tt), tt, (tt, tt, tt, tt), tt),
)

avl_tree_put_refines_example :
    (t' : AvlNode ℕ ℕ) × (avl_tree_put private_uint64_cmp sample 7 3
      ≡ some (t', is_new (lookup_entry private_uint64_cmp 7 (entries sample))))
    × (entries t' ≡ insert_entry private_uint64_cmp 7 3 (entries sample))
    × IsOrdered private_uint64_cmp t'
    × IsFlat t'
avl_tree_put_refines_example =
    avl_tree_put_refines private_uint64_cmp private_uint64_cmp-IsOrder sample 7 3 (omega arith)
      sample-IsOrdered

avl_tree_get-root_only_example :
    avl_tree_get private_uint64_cmp sample 5 ≡ root_if_same private_uint64_cmp sample 5
avl_tree_get-root_only_example =
    avl_tree_get-root_only private_uint64_cmp private_uint64_cmp-IsOrder sample 5 sample-IsOrdered

avl_tree_remove_total_example :
    (t' : AvlNode ℕ ℕ) × (d : ℕ) × (avl_tree_remove private_uint64_cmp sample 10 ≡ some (t', d))
    × IsFlat t'
avl_tree_remove_total_example = avl_tree_remove_total private_uint64_cmp sample 10 (omega arith)

not_root : sign (private_uint64_cmp 5 10) ≢ same
unfolding private_uint64_cmp
not_root = cc

avl_tree_remove_other_example : Keeps private_uint64_cmp sample 5
avl_tree_remove_other_example =
    avl_tree_remove_other private_uint64_cmp private_uint64_cmp-IsOrder (node null 1 0 (leaf 5 0) 0)
      10 0 (leaf 15 0) 0 5 (omega arith) sample-IsOrdered not_root

avl_tree_remove_root_duplicates_example :
    (least : ℕ) × (t' : AvlNode ℕ ℕ) × (key_of (find_min_value_node (node (leaf 4 40) 5 50 null 1))
      ≡ some least)
    × (avl_tree_remove private_uint64_cmp bent 2 ≡ some (t', 0))
    × (entries t' ≡ (1, 10) ∷ (least, 20) ∷ (4, 40) ∷ (5, 50) ∷ [])
avl_tree_remove_root_duplicates_example =
    avl_tree_remove_root_duplicates private_uint64_cmp private_uint64_cmp-IsOrder null 1 10 null 1 2
      20 null 4 40 null 1 5 50 null 1 1 (omega arith) bent-IsOrdered

iterate_lem_example :
    (rest : AvlIterator ℕ ℕ) × (iterate none (node_length sample) (avl_tree_iterator_new sample)
      ≡ some (as_pairs none (entries sample), rest))
    × (avl_tree_iterator_has_next rest ≡ false)
iterate_lem_example = iterate_lem none sample
