-- ===== src/BPlusTree/Removing/Cells.antt =====
-- A leaf of b_plus_tree.c from which a key is taken: its cells, and what is left over behind the last.
use latte_c.Prelude.{
  ◌⊎◌, ℕ, zero, suc, ◌-◌, ◌≡◌, ◌≢◌, refl, sym, ap, ◌∙◌, none, some, List, [], ◌∷◌, ◌++◌, length,
  length-append, arith, inl, inr, Sign-cases, sign, same, take-length_append, drop,
  drop-length_append, cons_head,
}
use latte_c.Cmp.{CmpFunc}
use latte_c.Entries.{Misses, remove_entry, remove-cons, remove-cons_same, remove-append_left}
use latte_c.BPlusTree.Removing.{
  shift_left, carried, kept, borrowed, next_index, index_of, b_plus_tree_leaf_node_remove,
}

module _ {ℓ} {A : Type ℓ} where
  pub kept-snoc : (xs : List A) (x : A) → kept (xs ++ x ∷ []) ≡ xs
  kept-snoc xs x =
      let e : length (xs ++ x ∷ []) - 1 ≡ length xs = omega (arith, length-append xs (x ∷ [])) in
      rw e (take-length_append xs (x ∷ []))

  shift_first :
      (x : A) (xs : List A)
      → (rest : List A) × (last : A) × (x ∷ xs ≡ rest ++ last ∷ [])
        × (shift_left zero (x ∷ xs) ≡ xs ++ last ∷ [])
  unfolding shift_left
  shift_first x [] = ([], x, refl, refl)
  shift_first x (y ∷ xs) =
      let (rest, last, e, f) = shift_first y xs in
      (x ∷ rest, last, ap (λ t. x ∷ t) e, ap (λ t. y ∷ t) f)

  -- What the carrying loop makes of all cells but the last.
  pub carried_lem :
      (c : A) (xs : List A) (z : A)
      → (ys : List A) × (w : A) × (c ∷ xs ≡ ys ++ w ∷ [])
        × (carried c (length xs) (xs ++ z ∷ []) ≡ ys ++ z ∷ [])
  unfolding carried
  carried_lem c [] z = ([], c, refl, refl)
  carried_lem c (x ∷ xs) z =
      let (ys, w, e, f) = carried_lem x xs z in (c ∷ ys, w, ap (λ t. c ∷ t) e, ap (λ t. c ∷ t) f)

  -- A list has one last element.
  pub snoc_last : (xs ys : List A) (x y : A) → xs ++ x ∷ [] ≡ ys ++ y ∷ [] → x ≡ y
  snoc_last xs ys x y e =
      let firsts : xs ≡ ys =
        sym (kept-snoc xs x) ∙ ap (λ (t : List A). kept t) e ∙ kept-snoc ys y in
      let ends : x ∷ [] ≡ y ∷ [] =
        sym (drop-length_append xs (x ∷ []))
        ∙ (λ i. drop (length (firsts i)) (e i))
        ∙ drop-length_append ys (y ∷ []) in
      cons_head ends

module _ {ℓ κ} {K : Type ℓ} {V : Type κ} (cmp : CmpFunc K) where
  -- What the loops leave of a leaf: its cells are the entries without the key, and the old last one.
  pub record Shrunk (key : K) (es cells : List (K × V)) : Type (ℓ ⊔ κ) where
    pub rest : List (K × V)
    pub last : K × V
    pub old : es ≡ rest ++ last ∷ []
    pub present : Misses cmp key es → ⊥
    pub new : cells ≡ remove_entry cmp key es ++ last ∷ []

  shift_other :
      (key k : K) (v : V) (es : List (K × V))
      → sign (cmp key k) ≢ same
      → index_of cmp key ((k, v) ∷ es) ≡ next_index (index_of cmp key es)
      → ((index_of cmp key es ≡ none) × Misses cmp key es)
        ⊎ ((i : ℕ) × (index_of cmp key es ≡ some i) × Shrunk key es (shift_left i es))
      → ((index_of cmp key ((k, v) ∷ es) ≡ none) × Misses cmp key ((k, v) ∷ es))
        ⊎ ((i : ℕ) × (index_of cmp key ((k, v) ∷ es) ≡ some i)
            × Shrunk key ((k, v) ∷ es) (shift_left i ((k, v) ∷ es)))
  unfolding shift_left
  shift_other key k v es n t (inl (e, m)) = inl (t ∙ ap next_index e, (n, m))
  shift_other key k v es n t (inr (i, e, s)) = inr (
    suc i,
    t ∙ ap next_index e,
    record {
      rest = (k, v) ∷ s.rest;
      last = s.last;
      old = ap (λ es'. (k, v) ∷ es') s.old;
      present = λ m. s.present m.1;
      new = rw (remove-cons cmp key k v es n) (ap (λ es'. (k, v) ∷ es') s.new);
    },
  )

  shift_lem :
      (key : K) (es : List (K × V))
      → ((index_of cmp key es ≡ none) × Misses cmp key es)
        ⊎ ((i : ℕ) × (index_of cmp key es ≡ some i) × Shrunk key es (shift_left i es))
  unfolding index_of shift_left
  shift_lem key [] = inl (refl, tt)
  shift_lem key ((k, v) ∷ es) = elim (Sign-cases (sign (cmp key k))) [
    | inl e ↦ shift_other key k v es (λ q. cc (q, e)) (rw (e, index_of) refl) (shift_lem key es)
    | inr (inl e) ↦
        let (rest, last, old, new) = shift_first (k, v) es in
        inr (
          0,
          rw (e, index_of) refl,
          record {
            rest = rest;
            last = last;
            old = old;
            present = λ m. m.0 e;
            new = rw (remove-cons_same cmp key k v es e) new;
          },
        )
    | inr (inr e) ↦
        shift_other key k v es (λ q. cc (q, e)) (rw (e, index_of) refl) (shift_lem key es)
  ]

  pub b_plus_tree_leaf_node_remove_lem :
      (key : K) (es : List (K × V))
      → ((b_plus_tree_leaf_node_remove cmp key es ≡ none) × Misses cmp key es)
        ⊎ ((cells : List (K × V)) × (b_plus_tree_leaf_node_remove cmp key es ≡ some cells)
            × Shrunk key es cells)
  unfolding b_plus_tree_leaf_node_remove
  b_plus_tree_leaf_node_remove_lem key es = elim (shift_lem key es) [
    | inl (e, m) ↦ inl (rw (b_plus_tree_leaf_node_remove, e) refl, m)
    | inr (i, e, s) ↦ inr (shift_left i es, rw (b_plus_tree_leaf_node_remove, e) refl, s)
  ]

  -- The cells of a leaf that takes the entry `e` from its left sibling: all entries are there where the
  -- key that was taken out was not the last one, ...
  pub borrowed_lem :
      (key : K) (es cells : List (K × V)) (e : K × V) (s : Shrunk key es cells)
      → sign (cmp key s.last.0) ≢ same
      → borrowed e cells ≡ e ∷ remove_entry cmp key es
  borrowed_lem key es cells e s n =
      let stays = remove-append_left cmp key s.rest (s.last ∷ []) (n, tt) in
      let whole : remove_entry cmp key es ≡ remove_entry cmp key s.rest ++ s.last ∷ [] =
        ap (remove_entry cmp key) s.old ∙ stays in
      rw (s.new) (of_cells (remove_entry cmp key es) s.last (remove_entry cmp key s.rest) whole e)
    where
      of_cells :
          (xs : List (K × V)) (z : K × V) (ys : List (K × V))
          → xs ≡ ys ++ z ∷ []
          → (e : K × V) → borrowed e (xs ++ z ∷ []) ≡ e ∷ xs
      of_cells [] z ys h e =
          absurd (omega (arith, ap (λ (t : List (K × V)). length t) h, length-append ys (z ∷ [])))
      of_cells (x ∷ xs) z ys h e =
          let (zs, w, f, g) = carried_lem x xs z in
          let same_last = snoc_last zs ys w z (sym f ∙ h) in
          let count : length (xs ++ z ∷ []) - 1 ≡ length xs =
            omega (arith, length-append xs (z ∷ [])) in
          ap (λ (t : List (K × V)). e ∷ t)
            ((rw count g) ∙ sym (ap (λ (u : K × V). zs ++ u ∷ []) same_last) ∙ sym f)
