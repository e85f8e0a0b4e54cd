-- ===== src/BPlusTree/Removing/Borrow.antt =====
-- A leaf of a B+ tree that has lost a key, and its siblings: borrowing and merging.
use latte_c.Prelude.{
  ℕ, ◌-◌, ◌≡◌, ◌≢◌, refl, sym, ap, ◌∙◌, Option, some, List, [], ◌∷◌, ◌++◌, append_assoc, length,
  length-append, arith, sign, below, get_elem?,
}
use latte_c.Cmp.{CmpFunc, IsOrder}
use latte_c.Entries.{
  AllKeys-imp, AllKeys-append_left, AllKeys-append_right, Misses, remove_entry, IsAscending,
  IsAscending-Split, remove-append_left, remove-append_right,
}
use latte_c.Entries.Ordered.{AllKeys-remove_entry}
use latte_c.BPlusTree.{BPlusNode, leaf, inner, Children}
use latte_c.BPlusTree.Removing.{Pair, borrowed, b_plus_tree_borrow_key_from_sibling}
use latte_c.BPlusTree.Shape.{entries}
use latte_c.BPlusTree.Removing.Parted.{Deep, NoneBelow, EachBelow, ChildrenRemoved, not_below_of}
use latte_c.BPlusTree.Removing.Focus.{AllKeys-append}
use latte_c.BPlusTree.Removing.Cells.{kept-snoc}
use latte_c.BPlusTree.Removing.Siblings.{PairFocus}

module _ {ℓ κ} {K : Type ℓ} {V : Type κ} where
  pub record IsLeaf (n : BPlusNode K V) : Type (ℓ ⊔ κ) where
    pub id : ℕ
    pub es : List (K × V)
    pub next : Option ℕ
    pub node : n ≡ leaf id es next

  pub Deep-IsLeaf : (n : BPlusNode K V) → Deep n 0 → IsLeaf n
  Deep-IsLeaf (leaf id es next) h = record { id = id; es = es; next = next; node = refl }
  Deep-IsLeaf (inner cs) h = absurd h

  get_elem-last : (xs : List (K × V)) (e : K × V) → get_elem? (xs ++ e ∷ []) (length xs) ≡ some e
  get_elem-last [] e = refl
  get_elem-last (x ∷ xs) e = get_elem-last xs e

  pub borrow-last :
      (xs cells : List (K × V)) (e : K × V)
      → b_plus_tree_borrow_key_from_sibling 0 cells (xs ++ e ∷ []) ≡ some (borrowed e cells, e, xs)
  unfolding b_plus_tree_borrow_key_from_sibling
  borrow-last xs cells e =
      let count : length (xs ++ e ∷ []) - 1 ≡ length xs =
        omega (arith, length-append xs (e ∷ [])) in
      rw (count, get_elem-last xs e)
        (ap (λ (t : List (K × V)). some (borrowed e cells, e, t)) (rw (sym count) (kept-snoc xs e)))

module _ {ℓ κ} {K : Type ℓ} {V : Type κ} (cmp : CmpFunc K) (o : IsOrder cmp) (key : K) where
  -- A key that one of two lists in order holds is not in the other.
  pub Misses-front :
      (xs ys : List (K × V))
      → IsAscending cmp (xs ++ ys)
      → (Misses cmp key ys → ⊥)
      → Misses cmp key xs
  Misses-front [] ys a h = tt
  Misses-front ((k, v) ∷ xs) ys a h = (
    (λ e. h (
        AllKeys-imp (λ x q r. cc (o.eq_of_same key k e, q, r)) ys
          (AllKeys-append_right cmp _ xs ys a.0))),
    Misses-front xs ys a.1 h,
  )

  pub Misses-rear :
      (xs ys : List (K × V))
      → IsAscending cmp (xs ++ ys)
      → (Misses cmp key xs → ⊥)
      → Misses cmp key ys
  Misses-rear xs [] a h = tt
  Misses-rear xs ((k, v) ∷ ys) a h =
      let s = IsAscending-Split cmp xs k v ys a in
      (
        (λ e. h (AllKeys-imp (λ x q r. cc (o.eq_of_same key x r, q, e)) xs s.left_below)),
        Misses-rear (xs ++ (k, v) ∷ []) ys (rw (append_assoc xs ((k, v) ∷ []) ys) a)
            (λ m. h (AllKeys-append_left cmp _ xs ((k, v) ∷ []) m)),
      )

  -- The leaf takes the last entry of its left sibling.
  pub borrow_left_puts :
      (i : ℕ) (cs : Children K V) (p : Pair K V) (f : PairFocus cmp o key 0 i cs p) (id : ℕ)
      (es : List (K × V)) (next : Option ℕ) (id' : ℕ) (init : List (K × V)) (e : K × V)
      (next' : Option ℕ)
      → p.left ≡ leaf id' (init ++ e ∷ []) next'
      → p.right ≡ leaf id es next
      → (Misses cmp key es → ⊥)
      → ChildrenRemoved cmp key 0 cs
          (p.put (leaf id' init next') e (leaf id (e ∷ remove_entry cmp key es) next))
  borrow_left_puts i cs p f id es next id' init (k, v) next' el er here =
      let whole : entries p.left ++ entries p.right ≡ init ++ (k, v) ∷ es =
        (λ j. entries (el j) ++ entries (er j)) ∙ append_assoc init ((k, v) ∷ []) es in
      let olds : IsAscending cmp (init ++ (k, v) ∷ es) = rw (sym whole) f.ascending in
      let split = IsAscending-Split cmp init k v es olds in
      let misses : Misses cmp key (init ++ (k, v) ∷ []) =
        Misses-front (init ++ (k, v) ∷ []) es (rw (append_assoc init ((k, v) ∷ []) es) olds) here in
      let gone : init ++ (k, v) ∷ remove_entry cmp key es
          ≡ remove_entry cmp key (init ++ (k, v) ∷ es) =
        sym (append_assoc init ((k, v) ∷ []) (remove_entry cmp key es))
        ∙ sym (remove-append_right cmp key (init ++ (k, v) ∷ []) es misses)
        ∙ ap (remove_entry cmp key) (append_assoc init ((k, v) ∷ []) es) in
      let own : sign (cmp k k) ≢ below = λ q. cc (o.cmp_self k, q) in
      let highs : NoneBelow cmp k es =
        AllKeys-imp (λ x q. not_below_of cmp o x k q) es split.right_above in
      f.puts (leaf id' init next') (leaf id ((k, v) ∷ remove_entry cmp key es) next) k v
        (gone ∙ ap (remove_entry cmp key) (sym whole)) (tt, tt) (tt, tt) split.left_below
        (own, AllKeys-remove_entry cmp _ key es highs)
        (λ b n.
          let known : NoneBelow cmp b (init ++ (k, v) ∷ es) = rw (sym whole) n in
          (AllKeys-append_right cmp _ init ((k, v) ∷ es) known).0)
        (λ b n.
          let known : EachBelow cmp b (init ++ (k, v) ∷ es) = rw (sym whole) n in
          (AllKeys-append_right cmp _ init ((k, v) ∷ es) known).0)

  -- The leaf takes the first entry of its right sibling.
  pub borrow_right_puts :
      (i : ℕ) (cs : Children K V) (p : Pair K V) (f : PairFocus cmp o key 0 i cs p) (id : ℕ)
      (es : List (K × V)) (next : Option ℕ) (id' : ℕ) (x y : K × V) (rest : List (K × V))
      (next' : Option ℕ)
      → p.left ≡ leaf id es next
      → p.right ≡ leaf id' (x ∷ y ∷ rest) next'
      → (Misses cmp key es → ⊥)
      → ChildrenRemoved cmp key 0 cs
          (p.put (leaf id (remove_entry cmp key es ++ x ∷ []) next) y (leaf id' (y ∷ rest) next'))
  borrow_right_puts i cs p f id es next id' x (k, v) rest next' el er here =
      let whole : entries p.left ++ entries p.right ≡ es ++ x ∷ (k, v) ∷ rest =
        (λ j. entries (el j) ++ entries (er j)) in
      let olds : IsAscending cmp (es ++ x ∷ (k, v) ∷ rest) = rw (sym whole) f.ascending in
      let group = append_assoc es (x ∷ []) ((k, v) ∷ rest) in
      let split = IsAscending-Split cmp (es ++ x ∷ []) k v rest (rw group olds) in
      let misses = Misses-rear es (x ∷ (k, v) ∷ rest) olds here in
      let lows : EachBelow cmp k (remove_entry cmp key es ++ x ∷ []) =
        AllKeys-append cmp _ (remove_entry cmp key es) (x ∷ [])
          (AllKeys-remove_entry cmp _ key es
            (AllKeys-append_left cmp _ es (x ∷ []) split.left_below))
          (AllKeys-append_right cmp _ es (x ∷ []) split.left_below) in
      let gone : (remove_entry cmp key es ++ x ∷ []) ++ (k, v) ∷ rest
          ≡ remove_entry cmp key (es ++ x ∷ (k, v) ∷ rest) =
        append_assoc (remove_entry cmp key es) (x ∷ []) ((k, v) ∷ rest)
        ∙ sym (remove-append_left cmp key es (x ∷ (k, v) ∷ rest) misses) in
      let own : sign (cmp k k) ≢ below = λ q. cc (o.cmp_self k, q) in
      f.puts (leaf id (remove_entry cmp key es ++ x ∷ []) next) (leaf id' ((k, v) ∷ rest) next') k v
        (gone ∙ ap (remove_entry cmp key) (sym whole)) (tt, tt) (tt, tt) lows
        (own, AllKeys-imp (λ z q. not_below_of cmp o z k q) rest split.right_above)
        (λ b n.
          let known : NoneBelow cmp b (es ++ x ∷ (k, v) ∷ rest) = rw (sym whole) n in
          (AllKeys-append_right cmp _ es (x ∷ (k, v) ∷ rest) known).1.0)
        (λ b n.
          let known : EachBelow cmp b (es ++ x ∷ (k, v) ∷ rest) = rw (sym whole) n in
          (AllKeys-append_right cmp _ es (x ∷ (k, v) ∷ rest) known).1.0)
