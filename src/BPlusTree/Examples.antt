-- ===== src/BPlusTree/Examples.antt =====
-- Runs of b_plus_tree.c on small trees of numbers, and the theorems at such inputs.
use latte_c.Prelude.{◌>>=◌, ℕ, ◌≡◌, refl, none, some, List, [], ◌∷◌, length, false, arith}
use latte_c.Cmp.{private_uint64_cmp, private_uint64_cmp-IsOrder}
use latte_c.Entries.{insert_entry, lookup_entry}
use latte_c.BPlusTree.{
  BPlusNode, leaf, inner, last, more, BPlusTree, b_plus_tree_new, splice, b_plus_tree_node_new,
  b_plus_tree_node_split, height, child_at,
}
use latte_c.BPlusTree.Inserting.{b_plus_tree_insert, b_plus_tree_node_insert, leaf_insert, slot}
use latte_c.BPlusTree.Finding.{
  b_plus_tree_find, b_plus_tree_update, b_plus_tree_insert_or_update, private_b_plus_tree_find,
  cell_at,
}
use latte_c.BPlusTree.Find.{search_entries}
use latte_c.BPlusTree.Refine.{
  root_entries, IsValid, b_plus_tree_new-IsValid, b_plus_tree_insert_refines, b_plus_tree_find_lem,
}
use latte_c.BPlusTree.ChainInsert.{IsLinkedTree}
use latte_c.BPlusTree.Iterator.{
  BPlusTreeIteratorData, b_plus_tree_get_iterator, b_plus_tree_iterator_has_next_func, root_leaves,
  iterate,
}
use latte_c.BPlusTree.Listed.{b_plus_tree_insert-iterate}
use latte_c.BPlusTree.Update.{b_plus_tree_update_refines, b_plus_tree_insert_or_update_refines}
use latte_c.BPlusTree.Below.{Reaches, b_plus_tree_below_first}

abbrev Tree : Type 0
Tree = BPlusTree ℕ ℕ

abbrev sample_root : BPlusNode ℕ ℕ
sample_root = inner (
    more (leaf 0 ((10, 1) ∷ (20, 2) ∷ []) (some 1)) 30 3
      (last (leaf 1 ((30, 3) ∷ (40, 4) ∷ (50, 5) ∷ []) none)))

-- 10, 20, 30, 40 and 50 inserted in turn at order 4: the root has split.
abbrev sample : Tree
sample = record { root = some sample_root; order = 4; fresh = 2 }

abbrev full : Tree
full = record {
  root = some (leaf 0 ((10, 1) ∷ (20, 2) ∷ (30, 3) ∷ (40, 4) ∷ []) none);
  order = 4;
  fresh = 1;
}

insert_fifty : b_plus_tree_insert private_uint64_cmp full 50 5 ≡ some sample
unfolding b_plus_tree_insert b_plus_tree_node_insert b_plus_tree_node_split b_plus_tree_node_new
    splice height leaf_insert slot private_uint64_cmp
insert_fifty = refl

-- At the odd order 3 the separator is the last key on its left, and the search for it goes to
-- the right, where it is below all keys.
abbrev odd : Tree
odd = record { root = some (leaf 0 ((1, 1) ∷ (2, 2) ∷ (3, 3) ∷ []) none); order = 3; fresh = 1 }

odd_loses_two :
    (b_plus_tree_insert private_uint64_cmp odd 4 4 >>= λ tree.
    b_plus_tree_find private_uint64_cmp tree 2)
    ≡ none
unfolding b_plus_tree_insert b_plus_tree_node_insert b_plus_tree_node_split b_plus_tree_node_new
    splice height leaf_insert slot private_uint64_cmp b_plus_tree_find private_b_plus_tree_find
    child_at cell_at
odd_loses_two = refl

sample-IsValid : IsValid private_uint64_cmp sample
unfolding private_uint64_cmp
sample-IsValid = record {
  even = refl;
  big = omega arith;
  well_formed = record {
    depth = 1;
    heads = (tt, record { value = 3; tail = (40, 4) ∷ (50, 5) ∷ []; begins = refl }, tt);
    ascending = (
      (refl, (refl, (refl, (refl, tt)))),
      ((refl, (refl, (refl, tt))), ((refl, (refl, tt)), ((refl, tt), (tt, tt)))),
    );
    shape = omega arith;
  };
}

b_plus_tree_new-IsValid_example :
    IsValid private_uint64_cmp (b_plus_tree_new {K = ℕ} {V = ℕ} 4 0)
    × (root_entries (b_plus_tree_new {K = ℕ} {V = ℕ} 4 0).root ≡ [])
b_plus_tree_new-IsValid_example = b_plus_tree_new-IsValid private_uint64_cmp 4 0 refl (omega arith)

b_plus_tree_insert_refines_example :
    (tree' : Tree) × (b_plus_tree_insert private_uint64_cmp sample 15 9 ≡ some tree')
    × (root_entries tree'.root ≡ insert_entry private_uint64_cmp 15 9 (root_entries sample.root))
    × IsValid private_uint64_cmp tree'
unfolding private_uint64_cmp
b_plus_tree_insert_refines_example =
    b_plus_tree_insert_refines private_uint64_cmp private_uint64_cmp-IsOrder sample 15 9
      sample-IsValid ((λ e. cc e), ((λ e. cc e), ((λ e. cc e), ((λ e. cc e), ((λ e. cc e), tt)))))

b_plus_tree_find_lem_example :
    b_plus_tree_find private_uint64_cmp sample 30
    ≡ search_entries private_uint64_cmp 30 (root_entries sample.root)
b_plus_tree_find_lem_example =
    b_plus_tree_find_lem private_uint64_cmp private_uint64_cmp-IsOrder sample 30 sample-IsValid

b_plus_tree_update_refines_example :
    (tree' : Tree) × (b_plus_tree_update private_uint64_cmp sample 30 9 ≡ some tree')
    × (root_entries tree'.root ≡ insert_entry private_uint64_cmp 30 9 (root_entries sample.root))
    × IsValid private_uint64_cmp tree'
unfolding private_uint64_cmp lookup_entry
b_plus_tree_update_refines_example =
    b_plus_tree_update_refines private_uint64_cmp private_uint64_cmp-IsOrder sample 30 9 3
      sample-IsValid refl

b_plus_tree_insert_or_update_refines_example :
    (tree' : Tree) × (b_plus_tree_insert_or_update private_uint64_cmp sample 35 9 ≡ some tree')
    × (root_entries tree'.root ≡ insert_entry private_uint64_cmp 35 9 (root_entries sample.root))
    × IsValid private_uint64_cmp tree'
unfolding private_uint64_cmp
b_plus_tree_insert_or_update_refines_example =
    b_plus_tree_insert_or_update_refines private_uint64_cmp private_uint64_cmp-IsOrder sample 35 9
      sample-IsValid (λ e. cc e)

b_plus_tree_below_first_example :
    ((es : List (ℕ × ℕ)) × Reaches private_uint64_cmp 5 sample_root es
      × (slot private_uint64_cmp 5 es ≡ 0))
    × (b_plus_tree_find private_uint64_cmp sample 5 ≡ none)
    × (b_plus_tree_insert_or_update private_uint64_cmp sample 5 9 ≡ none)
unfolding private_uint64_cmp
b_plus_tree_below_first_example =
    b_plus_tree_below_first private_uint64_cmp 5 private_uint64_cmp-IsOrder sample sample_root 10 1
      9 ((20, 2) ∷ (30, 3) ∷ (40, 4) ∷ (50, 5) ∷ []) sample-IsValid refl refl refl

sample-IsLinkedTree : IsLinkedTree sample
sample-IsLinkedTree = record {
  linked = (refl, (refl, tt));
  apart = (((λ e. absurd (omega (arith, e))), tt), (tt, tt));
  older = (omega arith, (omega arith, tt));
}

b_plus_tree_insert-iterate_example :
    (tree' : Tree) × (b_plus_tree_insert private_uint64_cmp sample 15 9 ≡ some tree')
    × IsLinkedTree tree'
    × ((rest : BPlusTreeIteratorData ℕ ℕ) × (iterate
            (root_leaves tree'.root)
            (length (root_entries tree'.root))
            (b_plus_tree_get_iterator tree')
          ≡ some (insert_entry private_uint64_cmp 15 9 (root_entries sample.root), rest))
        × (b_plus_tree_iterator_has_next_func rest ≡ false))
unfolding private_uint64_cmp
b_plus_tree_insert-iterate_example =
    b_plus_tree_insert-iterate private_uint64_cmp private_uint64_cmp-IsOrder sample 15 9
      sample-IsValid sample-IsLinkedTree
      ((λ e. cc e), ((λ e. cc e), ((λ e. cc e), ((λ e. cc e), ((λ e. cc e), tt)))))
