-- ===== src/BPlusTree/Removing/Adjust.antt =====
-- b_plus_tree_adjust_leaf_balance below a parent with two children at least.
use latte_c.Prelude.{
  ℕ, zero, suc, ◌+◌, ◌/◌, ◌<◌, ◌≤◌, ◌≡◌, ◌≢◌, refl, sym, ap, ◌∙◌, Option, some, List, [], ◌∷◌, ◌++◌,
  length, arith, inl, inr, sign, same, true, false, Bool-cases, ltb, ltb→lt, Snoc-of,
}
use latte_c.Cmp.{CmpFunc, IsOrder}
use latte_c.Entries.{remove_entry, IsAscending, remove-append_left, remove-append_right}
use latte_c.BPlusTree.{BPlusNode, leaf, Children, last, more, separators, num_keys, child_at}
use latte_c.BPlusTree.Inserting.{slot}
use latte_c.BPlusTree.Removing.{
  Pair, pair_at, TreeNodeInfo, kept, b_plus_tree_borrow_key_from_sibling, b_plus_tree_merge_nodes,
  borrow_left, borrow_right, merge_leaf, with_children, left_lends, b_plus_tree_adjust_leaf_balance,
}
use latte_c.BPlusTree.Shape.{entries, child_entries}
use latte_c.BPlusTree.Removing.Parted.{AllDeep, AreParted, ChildrenRemoved}
use latte_c.BPlusTree.Removing.Focus.{found_node, found_behind}
use latte_c.BPlusTree.Removing.Cells.{Shrunk, kept-snoc, borrowed_lem}
use latte_c.BPlusTree.Removing.Siblings.{PairFocus, pair_at_lem}
use latte_c.BPlusTree.Removing.Borrow.{
  Deep-IsLeaf, borrow-last, Misses-front, Misses-rear, borrow_left_puts, borrow_right_puts,
}

at_most : (m n : ℕ) → n ≤ m → ltb m n ≡ false
at_most m n h = ground arith

module _ {ℓ κ} {K : Type ℓ} {V : Type κ} where
  child_at-bound :
      (i : ℕ) (cs : Children K V) (x : BPlusNode K V × (BPlusNode K V → Children K V))
      → child_at i cs ≡ some x
      → i ≤ length (separators cs)
  unfolding child_at
  child_at-bound zero cs x e = omega arith
  child_at-bound (suc i) (last c) x e = absurd (cc e)
  child_at-bound (suc i) (more c k v cs) x e =
      let (y, f) = found_behind c k v x (child_at i cs) e in omega (arith, child_at-bound i cs y f)

module _ {ℓ κ} {K : Type ℓ} {V : Type κ} (cmp : CmpFunc K) (o : IsOrder cmp) (key : K)
    (order : ℕ) where
  -- The leaf `l`, with its cells after the removal, among the children `cs`.
  module _ (cs : Children K V) (id : ℕ) (es cells : List (K × V)) (next : Option ℕ)
      (h : Shrunk cmp key es cells) where
    pub kept_lem : kept cells ≡ remove_entry cmp key es
    kept_lem = rw (h.new) (kept-snoc (remove_entry cmp key es) h.last)

    borrow_left_lem :
        (i : ℕ) (p : Pair K V)
        → pair_at i cs ≡ some p
        → PairFocus cmp o key 0 i cs p
        → p.right ≡ leaf id es next
        → order / 2 < num_keys p.left
        → sign (cmp key h.last.0) ≢ same
        → (ds : Children K V) × (borrow_left order (suc i) cs (id, cells, next) ≡ some ds)
          × ChildrenRemoved cmp key 0 cs ds
    borrow_left_lem i p eq f er lends ok =
        let l = Deep-IsLeaf p.left f.deep_left in
        let some_es : l.es ≢ [] = λ z. absurd (
          omega (
            arith,
            ap (λ (t : BPlusNode K V). num_keys t) l.node,
            ap (λ (t : List (K × V)). length t) z,
          )) in
        let s = Snoc-of l.es some_es in
        let el : p.left ≡ leaf l.id (s.init ++ s.last ∷ []) l.next =
          l.node ∙ ap (λ (t : List (K × V)). leaf l.id t l.next) s.parts in
        let whole = borrowed_lem cmp key es cells s.last h ok in
        (
          p.put (leaf l.id s.init l.next) s.last (leaf id (s.last ∷ remove_entry cmp key es) next),
          rw (eq, el, borrow-last s.init cells s.last, whole) refl,
          borrow_left_puts cmp o key i cs p f id es next l.id s.init s.last l.next el er h.present,
        )

    borrow_right_lem :
        (i : ℕ) (p : Pair K V)
        → pair_at i cs ≡ some p
        → PairFocus cmp o key 0 i cs p
        → p.left ≡ leaf id es next
        → 1 < num_keys p.right
        → (ds : Children K V) × (borrow_right order i cs (id, cells, next) ≡ some ds)
          × ChildrenRemoved cmp key 0 cs ds
    unfolding b_plus_tree_borrow_key_from_sibling
    borrow_right_lem i p eq f el lends =
        let l = Deep-IsLeaf p.right f.deep_right in
        let many : 1 < length l.es = omega (arith, ap (λ (t : BPlusNode K V). num_keys t) l.node) in
        of_entries l.id l.es l.next l.node many
      where
        of_entries :
            (id' : ℕ) (rs : List (K × V)) (next' : Option ℕ)
            → p.right ≡ leaf id' rs next'
            → 1 < length rs
            → (ds : Children K V) × (borrow_right order i cs (id, cells, next) ≡ some ds)
              × ChildrenRemoved cmp key 0 cs ds
        of_entries id' [] next' er many = absurd (omega arith)
        of_entries id' (x ∷ []) next' er many = absurd (omega arith)
        of_entries id' (x ∷ y ∷ rest) next' er many = (
          p.put (leaf id (remove_entry cmp key es ++ x ∷ []) next) y (leaf id' (y ∷ rest) next'),
          rw (eq, er, b_plus_tree_borrow_key_from_sibling, kept_lem) refl,
          borrow_right_puts cmp o key i cs p f id es next id' x y rest next' el er h.present,
        )

    merge_left_lem :
        (i : ℕ) (p : Pair K V)
        → pair_at i cs ≡ some p
        → PairFocus cmp o key 0 i cs p
        → p.right ≡ leaf id es next
        → num_keys p.left + length (kept cells) ≤ order
        → (ds : Children K V) × (merge_leaf order (suc i) cs (id, cells, next) ≡ some ds)
          × ChildrenRemoved cmp key 0 cs ds
    unfolding b_plus_tree_merge_nodes
    merge_left_lem i p eq f er room =
        let l = Deep-IsLeaf p.left f.deep_left in
        let keys = ap (λ (t : BPlusNode K V). num_keys t) l.node in
        let fits : ltb order (length l.es + length (kept cells)) ≡ false =
          at_most order (length l.es + length (kept cells)) (omega (arith, keys, room)) in
        let whole : entries p.left ++ entries p.right ≡ l.es ++ es =
          (λ j. entries (l.node j) ++ entries (er j)) in
        let misses = Misses-front cmp o key l.es es (rw (sym whole) f.ascending) h.present in
        (
          p.merged (leaf l.id (l.es ++ remove_entry cmp key es) next),
          rw (eq, l.node, b_plus_tree_merge_nodes, fits, kept_lem) refl,
          f.merges (leaf l.id (l.es ++ remove_entry cmp key es) next)
              (sym (remove-append_right cmp key l.es es misses)
                ∙ ap (remove_entry cmp key) (sym whole))
              tt tt,
        )

    merge_right_lem :
        (p : Pair K V)
        → pair_at 0 cs ≡ some p
        → PairFocus cmp o key 0 0 cs p
        → p.left ≡ leaf id es next
        → length (kept cells) + num_keys p.right ≤ order
        → (ds : Children K V) × (merge_leaf order 0 cs (id, cells, next) ≡ some ds)
          × ChildrenRemoved cmp key 0 cs ds
    unfolding b_plus_tree_merge_nodes
    merge_right_lem p eq f el room =
        let l = Deep-IsLeaf p.right f.deep_right in
        let keys = ap (λ (t : BPlusNode K V). num_keys t) l.node in
        let fits : ltb order (length (kept cells) + length l.es) ≡ false =
          at_most order (length (kept cells) + length l.es) (omega (arith, keys, room)) in
        let whole : entries p.left ++ entries p.right ≡ es ++ l.es =
          (λ j. entries (el j) ++ entries (l.node j)) in
        let misses = Misses-rear cmp o key es l.es (rw (sym whole) f.ascending) h.present in
        (
          p.merged (leaf id (remove_entry cmp key es ++ l.es) l.next),
          rw (eq, l.node, b_plus_tree_merge_nodes, fits, kept_lem) refl,
          f.merges (leaf id (remove_entry cmp key es ++ l.es) l.next)
              (sym (remove-append_left cmp key es l.es misses)
                ∙ ap (remove_entry cmp key) (sym whole))
              tt tt,
        )

    -- The children after the balance, for each index of the leaf.
    abbrev pub Balanced : ℕ → List (TreeNodeInfo K V) → Type (ℓ ⊔ κ)
    Balanced i stack =
        (ds : Children K V) × (b_plus_tree_adjust_leaf_balance order i cs stack (id, cells, next)
          ≡ with_children order stack ds)
        × ChildrenRemoved cmp key 0 cs ds

    module _ (stack : List (TreeNodeInfo K V)) (a : AreParted cmp cs) (s : AllDeep cs 0)
        (t : IsAscending cmp (child_entries cs)) (few : length (kept cells) < order / 2)
        (pair : 0 < length (separators cs)) (ok : sign (cmp key h.last.0) ≢ same)
        (put : BPlusNode K V → Children K V) where
      balance_first :
          slot cmp key (separators cs) ≡ 0
          → child_at 0 cs ≡ some (leaf id es next, put)
          → Balanced 0 stack
      unfolding b_plus_tree_adjust_leaf_balance
      balance_first w at =
          let (p, eq, f) = pair_at_lem cmp o key 0 0 cs a s t pair (inl w) in
          let el = found_node (p.left, f.put_left) (leaf id es next, put) (sym f.at_left ∙ at) in
          let here : ltb 0 (length (separators cs)) ≡ true = ground arith in
          elim (Bool-cases (ltb (order / 2) (num_keys p.right))) [
            | inl lends ↦
                let (ds, e, r) = borrow_right_lem 0 p eq f el (ground arith) in
                (ds, rw (here, f.at_right, lends, e) refl, r)
            | inr keeps ↦
                let (ds, e, r) = merge_right_lem p eq f el (ground arith) in
                (ds, rw (here, f.at_right, keeps, e) refl, r)
          ]

      -- No left sibling lends: the right one, or a merge with the left one.
      balance_right :
          (j : ℕ)
          → slot cmp key (separators cs) ≡ suc j
          → child_at (suc j) cs ≡ some (leaf id es next, put)
          → left_lends order (suc j) cs ≡ some false
          → ((ds : Children K V) × (merge_leaf order (suc j) cs (id, cells, next) ≡ some ds)
              × ChildrenRemoved cmp key 0 cs ds)
          → Balanced (suc j) stack
      unfolding b_plus_tree_adjust_leaf_balance
      balance_right j w at none_left (ds, m, r) =
          let some_pair : ltb 0 (length (separators cs)) ≡ true = ground arith in
          elim (Bool-cases (ltb (suc j) (length (separators cs)))) [
            | inr end ↦
                (ds, rw (b_plus_tree_adjust_leaf_balance, none_left, end, some_pair, m) refl, r)
            | inl more_right ↦
                let (p, eq, f) =
                  pair_at_lem cmp o key 0 (suc j) cs a s t
                    (ltb→lt (suc j) (length (separators cs)) more_right) (inl w) in
                let el =
                  found_node (p.left, f.put_left) (leaf id es next, put) (sym f.at_left ∙ at) in
                elim (Bool-cases (ltb (order / 2) (num_keys p.right))) [
                  | inl lends ↦
                      let (ds', e, r') =
                        borrow_right_lem (suc j) p eq f el
                          (omega (arith, few, ltb→lt (order / 2) (num_keys p.right) lends)) in
                      (
                        ds',
                        rw
                            (
                              b_plus_tree_adjust_leaf_balance, none_left, more_right, f.at_right,
                              lends, e,
                            )
                            refl,
                        r',
                      )
                  | inr keeps ↦ (
                    ds,
                    rw
                        (
                          b_plus_tree_adjust_leaf_balance, none_left, more_right, f.at_right, keeps,
                          some_pair, m,
                        )
                        refl,
                    r,
                  )
                ]
          ]

      balance_later :
          (j : ℕ)
          → slot cmp key (separators cs) ≡ suc j
          → child_at (suc j) cs ≡ some (leaf id es next, put)
          → Balanced (suc j) stack
      unfolding b_plus_tree_adjust_leaf_balance
      balance_later j w at =
          let bound = child_at-bound (suc j) cs (leaf id es next, put) at in
          let (p, eq, f) = pair_at_lem cmp o key 0 j cs a s t (omega arith) (inr w) in
          let er = found_node (p.right, f.put_right) (leaf id es next, put) (sym f.at_right ∙ at) in
          elim (Bool-cases (ltb (order / 2) (num_keys p.left))) [
            | inl lends ↦
                let (ds, e, r) = borrow_left_lem j p eq f er (ground arith) ok in
                (ds, rw (b_plus_tree_adjust_leaf_balance, f.at_left, lends, e) refl, r)
            | inr keeps ↦
                balance_right j w at (rw (f.at_left, keeps) refl)
                  (merge_left_lem j p eq f er (ground arith))
          ]

      pub balance_lem :
          (i : ℕ)
          → slot cmp key (separators cs) ≡ i
          → child_at i cs ≡ some (leaf id es next, put)
          → Balanced i stack
      balance_lem zero w at = balance_first w at
      balance_lem (suc j) w at = balance_later j w at
