-- ===== src/BPlusTree/Removing/Examples.antt =====
-- Removals from small B+ trees of numbers, and the theorems at such inputs.
use latte_c.Prelude.{
  below, same, above, ℕ, ◌≡◌, ◌≢◌, refl, none, some, List, [], ◌∷◌, ◌++◌, true, arith,
}
use latte_c.Cmp.{private_uint64_cmp, private_uint64_cmp-IsOrder}
use latte_c.BPlusTree.{
  BPlusNode, leaf, inner, Children, last, more, BPlusTree, child_at, height, separators,
}
use latte_c.BPlusTree.Inserting.{slot}
use latte_c.BPlusTree.Finding.{b_plus_tree_find, private_b_plus_tree_find, cell_at}
use latte_c.BPlusTree.Removing.{
  shift_left, carried, pair_at, put_back, b_plus_tree_borrow_key_from_sibling,
  b_plus_tree_merge_nodes, moved_children, drop_child, b_plus_tree_move_leaf,
  b_plus_tree_adjust_leaf_balance, b_plus_tree_find_leaf, index_of, b_plus_tree_leaf_node_remove,
  b_plus_tree_remove,
}
use latte_c.BPlusTree.Removing.Parted.{AreParted}
use latte_c.BPlusTree.Removing.Refine.{IsPartedRoot, Removal, b_plus_tree_remove_refines}
use latte_c.BPlusTree.Removing.Lost.{borrow_loses, drop_child_lem}

-- Two leaves below a root, of order 4.
abbrev two_leaves : List (ℕ × ℕ) → ℕ → List (ℕ × ℕ) → BPlusNode ℕ ℕ
two_leaves es k fs = inner (more (leaf 0 es (some 1)) k 0 (last (leaf 1 fs none)))

abbrev of_order_four : BPlusNode ℕ ℕ → BPlusTree ℕ ℕ
of_order_four root = record { root = some root; order = 4; fresh = 9 }

-- 10 leaves its leaf too small, which borrows 30 from the right.
borrow_from_right :
    b_plus_tree_remove private_uint64_cmp
      (of_order_four (two_leaves ((10, 1) ∷ (20, 2) ∷ []) 30 ((30, 3) ∷ (40, 4) ∷ (50, 5) ∷ [])))
      10
    ≡ some (
      true,
      of_order_four (
          inner (
            more
              (leaf 0 ((20, 2) ∷ (30, 3) ∷ []) (some 1))
              40
              4
              (last (leaf 1 ((40, 4) ∷ (50, 5) ∷ []) none)))),
    )
unfolding b_plus_tree_remove b_plus_tree_find_leaf child_at height slot private_uint64_cmp
    b_plus_tree_leaf_node_remove index_of shift_left b_plus_tree_adjust_leaf_balance pair_at
    b_plus_tree_borrow_key_from_sibling put_back
borrow_from_right = refl

-- The leaves merge, and the root is left with one child.
merge_two :
    b_plus_tree_remove private_uint64_cmp
      (of_order_four (two_leaves ((10, 1) ∷ (20, 2) ∷ []) 30 ((30, 3) ∷ (40, 4) ∷ [])))
      40
    ≡ some (true, of_order_four (inner (last (leaf 0 ((10, 1) ∷ (20, 2) ∷ (30, 3) ∷ []) none))))
unfolding b_plus_tree_remove b_plus_tree_find_leaf child_at height slot private_uint64_cmp
    b_plus_tree_leaf_node_remove index_of shift_left b_plus_tree_adjust_leaf_balance pair_at
    b_plus_tree_merge_nodes put_back
merge_two = refl

-- 40 is taken out, and 30 is gone in its place.
borrow_loses_thirty :
    b_plus_tree_remove private_uint64_cmp
      (of_order_four (two_leaves ((10, 1) ∷ (20, 2) ∷ (25, 6) ∷ []) 30 ((30, 3) ∷ (40, 4) ∷ [])))
      40
    ≡ some (
      true,
      of_order_four (
          inner (
            more
              (leaf 0 ((10, 1) ∷ (20, 2) ∷ []) (some 1))
              25
              6
              (last (leaf 1 ((25, 6) ∷ (40, 4) ∷ []) none)))),
    )
unfolding b_plus_tree_remove b_plus_tree_find_leaf child_at height slot private_uint64_cmp
    b_plus_tree_leaf_node_remove index_of shift_left b_plus_tree_adjust_leaf_balance pair_at
    b_plus_tree_borrow_key_from_sibling carried put_back
borrow_loses_thirty = refl

abbrev middle : BPlusNode ℕ ℕ
middle = inner (
    more (leaf 1 ((20, 2) ∷ (21, 2) ∷ []) (some 2)) 22 0
      (last (leaf 2 ((22, 2) ∷ (23, 2) ∷ []) (some 3))))

abbrev right : BPlusNode ℕ ℕ
right = inner (
    more (leaf 3 ((30, 3) ∷ (31, 3) ∷ []) (some 4)) 32 0
      (last (leaf 4 ((32, 3) ∷ (33, 3) ∷ []) none)))

-- The only key of the first child is taken out, and 20 is read for outside a leaf.
move_leaf_loses_twenty :
    (b_plus_tree_remove private_uint64_cmp
        (of_order_four (
          inner (
            more
              (inner (last (leaf 0 ((10, 1) ∷ []) (some 1))))
              20
              0
              (more middle 30 0 (last right)))))
        10
      ≡ some (true, of_order_four (inner (more middle 20 0 (last right)))))
    × (b_plus_tree_find private_uint64_cmp
          (of_order_four (inner (more middle 20 0 (last right))))
          20
        ≡ none)
unfolding b_plus_tree_remove b_plus_tree_find_leaf child_at height slot private_uint64_cmp
    b_plus_tree_leaf_node_remove index_of shift_left b_plus_tree_adjust_leaf_balance
    b_plus_tree_move_leaf drop_child moved_children put_back b_plus_tree_find
    private_b_plus_tree_find cell_at
move_leaf_loses_twenty = (refl, refl)

abbrev sample_root : BPlusNode ℕ ℕ
sample_root = two_leaves ((10, 1) ∷ (20, 2) ∷ []) 30 ((30, 3) ∷ (40, 4) ∷ (50, 5) ∷ [])

sample_root-IsPartedRoot : IsPartedRoot private_uint64_cmp sample_root
unfolding private_uint64_cmp
sample_root-IsPartedRoot = record {
  depth = 1;
  parted = (tt, (refl, (refl, tt)), tt, ((λ e. cc e), ((λ e. cc e), ((λ e. cc e), tt))), tt);
  ascending = (
    (refl, (refl, (refl, (refl, tt)))),
    ((refl, (refl, (refl, tt))), ((refl, (refl, tt)), ((refl, tt), (tt, tt)))),
  );
  deep = (tt, tt);
}

b_plus_tree_remove_refines_example :
    Removal private_uint64_cmp 10
      (of_order_four sample_root)
      (b_plus_tree_remove private_uint64_cmp (of_order_four sample_root) 10)
unfolding private_uint64_cmp
b_plus_tree_remove_refines_example =
    b_plus_tree_remove_refines private_uint64_cmp private_uint64_cmp-IsOrder 10
      (of_order_four sample_root) sample_root refl sample_root-IsPartedRoot
      (omega arith, ((λ e. cc e), (λ e. cc e)))

borrow_loses_example :
    (cells : List (ℕ × ℕ)) × (b_plus_tree_leaf_node_remove private_uint64_cmp 40
        (([] ++ (30, 3) ∷ []) ++ (40, 4) ∷ [])
      ≡ some cells)
    × (b_plus_tree_borrow_key_from_sibling 0 cells (((10, 1) ∷ (20, 2) ∷ []) ++ (25, 6) ∷ [])
        ≡ some ((25, 6) ∷ [] ++ (40, 4) ∷ [], (25, 6), (10, 1) ∷ (20, 2) ∷ []))
unfolding private_uint64_cmp
borrow_loses_example =
    borrow_loses private_uint64_cmp private_uint64_cmp-IsOrder 40 4 [] ((10, 1) ∷ (20, 2) ∷ [])
      (30, 3) (25, 6) ((refl, tt), (tt, tt))

abbrev lossy : Children ℕ ℕ
lossy = more (inner (last (leaf 0 [] (some 1)))) 20 0 (more middle 30 0 (last right))

lossy-AreParted : AreParted private_uint64_cmp lossy
unfolding private_uint64_cmp
lossy-AreParted =
    let n : same ≡ below → ⊥ = λ e. cc e in
    let m : above ≡ below → ⊥ = λ e. cc e in
    (
      tt,
      tt,
      (m, tt),
      (n, (m, (m, (m, (m, (m, (m, (m, tt)))))))),
      (
        (tt, (refl, (refl, tt)), tt, (n, (m, tt)), tt),
        (refl, (refl, (refl, (refl, tt)))),
        tt,
        (n, (m, (m, (m, tt)))),
        (tt, (refl, (refl, tt)), tt, (n, (m, tt)), tt),
      ),
    )

drop_child_lem_example :
    (ds : Children ℕ ℕ) × (put : BPlusNode ℕ ℕ → Children ℕ ℕ) × (drop_child 0
        (more (inner (last (leaf 0 [] (some 1)))) 20 0 (more middle 30 0 (last right)))
      ≡ some ds)
    × (child_at 0 ds ≡ some (middle, put))
    × (slot private_uint64_cmp 20 (separators ds) ≢ 0)
unfolding private_uint64_cmp
drop_child_lem_example =
    drop_child_lem private_uint64_cmp private_uint64_cmp-IsOrder 20
      (inner (last (leaf 0 [] (some 1)))) 20 0 middle 30 0 (last right) lossy-AreParted
      (λ m. m.0 refl)
