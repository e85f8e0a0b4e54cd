-- ===== src/BPlusTree/Listed.antt =====
-- Insertion and iteration in b_plus_tree.c together.
use latte_c.Prelude.{
  Yields, ℕ, zero, suc, ◌≡◌, ap, ◌∙◌, Option, none, some, List, [], ◌∷◌, ◌++◌, length, false,
}
use latte_c.Cmp.{CmpFunc, IsOrder}
use latte_c.Entries.{Misses, insert_entry}
use latte_c.BPlusTree.{BPlusNode, leaf, inner, Children, last, more, BPlusTree}
use latte_c.BPlusTree.Inserting.{b_plus_tree_insert}
use latte_c.BPlusTree.Shape.{Shaped, AllShaped}
use latte_c.BPlusTree.Refine.{root_entries, IsValid, IsEmptyOrRoot, b_plus_tree_insert_refines}
use latte_c.BPlusTree.Chain.{Leaf, leaves, child_leaves}
use latte_c.BPlusTree.ChainInsert.{IsLinkedTree, b_plus_tree_insert-IsLinkedTree}
use latte_c.BPlusTree.Iterator.{
  BPlusTreeIteratorData, b_plus_tree_get_iterator, b_plus_tree_iterator_has_next_func, root_leaves,
  iterate,
}
use latte_c.BPlusTree.Iterate.{AreNonempty, iterate-linked}

module _ {ℓ κ} {K : Type ℓ} {V : Type κ} where
  AreNonempty-append :
      (ls ms : List (Leaf K V)) → AreNonempty ls → AreNonempty ms → AreNonempty (ls ++ ms)
  AreNonempty-append [] ms h g = g
  AreNonempty-append (l ∷ ls) ms h g = (h.0, AreNonempty-append ls ms h.1 g)

  mutual
    leaves-AreNonempty :
        (order : ℕ) (n : BPlusNode K V) (d : ℕ) → Shaped order n d → AreNonempty (leaves n)
    leaves-AreNonempty order (leaf id es next) zero h = (h.0, tt)
    leaves-AreNonempty order (leaf id es next) (suc d) h = absurd h
    leaves-AreNonempty order (inner cs) zero h = absurd h
    leaves-AreNonempty order (inner cs) (suc d) h = child_leaves-AreNonempty order cs d h.1

    child_leaves-AreNonempty :
        (order : ℕ) (cs : Children K V) (d : ℕ)
        → AllShaped order cs d
        → AreNonempty (child_leaves cs)
    child_leaves-AreNonempty order (last c) d h = leaves-AreNonempty order c d h
    child_leaves-AreNonempty order (more c k v cs) d h =
        AreNonempty-append (leaves c) (child_leaves cs) (leaves-AreNonempty order c d h.0)
          (child_leaves-AreNonempty order cs d h.1)

  module _ (cmp : CmpFunc K) where
    root_leaves-AreNonempty :
        (order : ℕ) (root : Option (BPlusNode K V))
        → IsEmptyOrRoot cmp order root
        → AreNonempty (root_leaves root)
    root_leaves-AreNonempty order none w = tt
    root_leaves-AreNonempty order (some n) w = leaves-AreNonempty order n w.depth w.shape

    -- In a valid B+ tree (of an even order of at least 2; the keys ascend, each separator is the
    -- first key on its right, no leaf is empty, no node has more keys than the order, and all
    -- leaves are equally deep) whose leaves have different addresses, each of which was given out
    -- before the next new one, and are linked in the order of the tree: a client that asks
    -- has_next and next of the iterator in turn, for as many rounds as the tree has entries, is
    -- handed the entries in order, and no call reads through NULL or outside an array; then
    -- has_next is false.
    pub iterate-b_plus_tree_get_iterator :
        (tree : BPlusTree K V)
        → IsValid cmp tree
        → IsLinkedTree tree
        → (rest : BPlusTreeIteratorData K V) × (iterate
              (root_leaves tree.root)
              (length (root_entries tree.root))
              (b_plus_tree_get_iterator tree)
            ≡ some (root_entries tree.root, rest))
          × (b_plus_tree_iterator_has_next_func rest ≡ false)
    iterate-b_plus_tree_get_iterator tree w h =
        iterate-linked tree h.apart h.linked
          (root_leaves-AreNonempty tree.order tree.root w.well_formed)

    -- With a comparator that is a total order, on a valid B+ tree (of an even order of at least
    -- 2; the keys ascend, each separator is the first key on its right, no leaf is empty, no node
    -- has more keys than the order, and all leaves are equally deep) whose leaves have different
    -- addresses, each of which was given out before the next new one, and are linked in the order
    -- of the tree: the insertion of a key that the tree does not hold ends and leaves a tree
    -- whose leaves are so linked, and a client that then asks has_next and next of its iterator
    -- in turn, for as many rounds as it has entries, is handed the old entries with the pair in
    -- its place; then has_next is false.
    pub b_plus_tree_insert-iterate :
        IsOrder cmp
        → (tree : BPlusTree K V) (key : K) (value : V) → IsValid cmp tree
        → IsLinkedTree tree
        → Misses cmp key (root_entries tree.root)
        → (tree' : BPlusTree K V) × (b_plus_tree_insert cmp tree key value ≡ some tree')
          × IsLinkedTree tree'
          × ((rest : BPlusTreeIteratorData K V) × (iterate
                  (root_leaves tree'.root)
                  (length (root_entries tree'.root))
                  (b_plus_tree_get_iterator tree')
                ≡ some (insert_entry cmp key value (root_entries tree.root), rest))
              × (b_plus_tree_iterator_has_next_func rest ≡ false))
    b_plus_tree_insert-iterate o tree key value w h m =
        let (tree', e, all, w') = b_plus_tree_insert_refines cmp o tree key value w m in
        let kept =
          b_plus_tree_insert-IsLinkedTree cmp tree.order key value tree.root tree.fresh h in
        let h' : IsLinkedTree tree' =
          yielded (b_plus_tree_insert cmp tree key value) tree' e kept in
        let (rest, done, over) = iterate-b_plus_tree_get_iterator tree' w' h' in
        (tree', e, h', (rest, done ∙ ap (λ es. some (es, rest)) all, over))
      where
        yielded :
            (out : Option (BPlusTree K V)) (tree' : BPlusTree K V)
            → out ≡ some tree'
            → Yields out IsLinkedTree
            → IsLinkedTree tree'
        yielded out tree' e y = rw e at y
