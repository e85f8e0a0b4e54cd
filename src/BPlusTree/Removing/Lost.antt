-- ===== src/BPlusTree/Removing/Lost.antt =====
-- Where a removal goes wrong: the shift of the cells in b_plus_tree_borrow_key_from_sibling, and the
-- separator that b_plus_tree_move_leaf gives up.
use latte_c.Prelude.{
  ◌-◌, ◌≡◌, ◌≢◌, refl, sym, ap, ◌∙◌, some, List, [], ◌∷◌, ◌++◌, append-nil, length, length-append,
  arith, Sign-cases, sign, inl, inr,
}
use latte_c.Cmp.{CmpFunc, IsOrder}
use latte_c.Entries.{
  AllKeys-append_left, AllKeys-append_right, Misses, remove_entry, remove-append_right,
  remove-cons_same, IsAscending, IsAscending-Split,
}
use latte_c.Entries.Ordered.{Misses-left}
use latte_c.BPlusTree.{BPlusNode, Children, more, separators, child_at}
use latte_c.BPlusTree.Inserting.{slot}
use latte_c.BPlusTree.Shape.{entries, child_entries}
use latte_c.BPlusTree.Sides.{slot-cons}
use latte_c.BPlusTree.Removing.Parted.{NoneBelow, AreParted, Misses-below}
use latte_c.BPlusTree.Removing.{
  drop_child, moved_children, kept, carried, borrowed, b_plus_tree_leaf_node_remove,
  b_plus_tree_borrow_key_from_sibling,
}
use latte_c.BPlusTree.Removing.Cells.{
  b_plus_tree_leaf_node_remove_lem, carried_lem, snoc_last, kept-snoc,
}
use latte_c.BPlusTree.Removing.Borrow.{borrow-last}

module _ {ℓ κ} {K : Type ℓ} {V : Type κ} (cmp : CmpFunc K) (o : IsOrder cmp) where
  -- The cells behind the first, where the loop has moved all but the last.
  borrowed-two :
      (e : K × V) (xs : List (K × V)) (w z : K × V)
      → borrowed e ((xs ++ w ∷ []) ++ z ∷ []) ≡ e ∷ xs ++ z ∷ []
  unfolding carried
  borrowed-two e [] w z = refl
  borrowed-two e (x ∷ xs) w z =
      let (zs, u, f, g) = carried_lem x (xs ++ w ∷ []) z in
      let firsts : zs ≡ x ∷ xs =
        sym (kept-snoc zs u) ∙ ap (λ (t : List (K × V)). kept t) (sym f) ∙ kept-snoc (x ∷ xs) w in
      let count : length ((xs ++ w ∷ []) ++ z ∷ []) - 1 ≡ length (xs ++ w ∷ []) =
        omega (arith, length-append (xs ++ w ∷ []) (z ∷ [])) in
      ap (λ (t : List (K × V)). e ∷ t) (rw count g ∙ ap (λ (t : List (K × V)). t ++ z ∷ []) firsts)

  -- With a comparator that is a total order, on a leaf of at least two keys in ascending order
  -- and for its last key: after b_plus_tree_leaf_node_remove and the loan from the left sibling
  -- by b_plus_tree_borrow_key_from_sibling, the leaf holds the removed key again, and the key
  -- before it is gone.
  pub borrow_loses :
      (key : K) (u : V) (rest init : List (K × V)) (w e : K × V)
      → IsAscending cmp ((rest ++ w ∷ []) ++ (key, u) ∷ [])
      → (cells : List (K × V)) × (b_plus_tree_leaf_node_remove cmp key
            ((rest ++ w ∷ []) ++ (key, u) ∷ [])
          ≡ some cells)
        × (b_plus_tree_borrow_key_from_sibling 0 cells (init ++ e ∷ [])
            ≡ some (e ∷ rest ++ (key, u) ∷ [], e, init))
  borrow_loses key u rest init w e a =
      let split = IsAscending-Split cmp (rest ++ w ∷ []) key u [] a in
      let others =
        Misses-left cmp o key key (rest ++ w ∷ []) split.left_below (λ q. cc (o.cmp_self key, q)) in
      let gone : remove_entry cmp key ((rest ++ w ∷ []) ++ (key, u) ∷ []) ≡ rest ++ w ∷ [] =
        remove-append_right cmp key (rest ++ w ∷ []) ((key, u) ∷ []) others
        ∙ ap (λ (t : List (K × V)). (rest ++ w ∷ []) ++ t)
            (remove-cons_same cmp key key u [] (o.cmp_self key))
        ∙ append-nil (rest ++ w ∷ []) in
      elim (b_plus_tree_leaf_node_remove_lem cmp key ((rest ++ w ∷ []) ++ (key, u) ∷ [])) [
        | inl (q, m) ↦
            absurd
              ((AllKeys-append_right cmp _ (rest ++ w ∷ []) ((key, u) ∷ []) m).0 (o.cmp_self key))
        | inr (cells, q, h) ↦
            let end = snoc_last h.rest (rest ++ w ∷ []) h.last (key, u) (sym h.old) in
            let whole : cells ≡ (rest ++ w ∷ []) ++ (key, u) ∷ [] =
              h.new ∙ (λ i. gone i ++ end i ∷ []) in
            (
              cells,
              q,
              borrow-last init cells e
                  ∙ ap (λ (t : List (K × V)). some (t, e, init))
                      (ap (borrowed e) whole ∙ borrowed-two e rest w (key, u)),
            )
      ]

  -- With a comparator that is a total order, among children whose separators part the keys: where
  -- b_plus_tree_move_leaf takes out the first of at least three, its neighbour comes first, but a
  -- search for a key of the neighbour goes to a later child.
  pub drop_child_lem :
      (key : K) (c : BPlusNode K V) (k : K) (v : V) (d : BPlusNode K V) (j : K) (w : V)
      (cs : Children K V)
      → AreParted cmp (more c k v (more d j w cs))
      → (Misses cmp key (entries d) → ⊥)
      → (ds : Children K V) × (put : BPlusNode K V → Children K V) × (drop_child 0
            (more c k v (more d j w cs))
          ≡ some ds)
        × (child_at 0 ds ≡ some (d, put))
        × (slot cmp key (separators ds) ≢ 0)
  unfolding drop_child moved_children child_at
  drop_child_lem key c k v d j w cs a here =
      let over = AllKeys-append_left cmp _ (entries d) (child_entries cs) a.3 in
      (
        more d k v (moved_children j w cs),
        (λ d'. more d' k v (moved_children j w cs)),
        refl,
        refl,
        (λ z. here (first z over)),
      )
    where
      first :
          slot cmp key (separators (more d k v (moved_children j w cs))) ≡ 0
          → NoneBelow cmp k (entries d)
          → Misses cmp key (entries d)
      first z over = elim (Sign-cases (sign (cmp key k))) [
        | inl q ↦ Misses-below cmp o key k (entries d) q over
        | inr (inl q) ↦ absurd (
            omega (
              arith,
              z,
              slot-cons cmp o key k v (separators (moved_children j w cs)) (λ r. cc (q, r)),
            ))
        | inr (inr q) ↦ absurd (
            omega (
              arith,
              z,
              slot-cons cmp o key k v (separators (moved_children j w cs)) (λ r. cc (q, r)),
            ))
      ]
