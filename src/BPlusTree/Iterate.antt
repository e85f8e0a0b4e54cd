-- ===== src/BPlusTree/Iterate.antt =====
-- What a client of the iterator of tree/b_plus_tree.c is handed.
use latte_c.Prelude.{
  ℕ, zero, suc, ◌+◌, ◌≤◌, ◌<◌, ◌≡◌, ◌≢◌, refl, sym, ap, ◌∙◌, ◌==◌, inl, inr, true, false, Option,
  none, some, List, [], ◌∷◌, ◌++◌, append_assoc, append-nil, length, get_elem?, arith,
  length-append, Bool-cases,
}
use latte_c.BPlusTree.{BPlusNode, leaf, inner, Children, last, more, BPlusTree}
use latte_c.BPlusTree.Shape.{entries, child_entries}
use latte_c.BPlusTree.Refine.{root_entries}
use latte_c.BPlusTree.Chain.{Leaf, leaves, child_leaves, IsLinked, Elsewhere, AreApart}
use latte_c.BPlusTree.Iterator.{
  BPlusTreeIteratorData, b_plus_tree_iterator_data_new, leftmost, first_leftmost, leftmost_of,
  b_plus_tree_get_iterator, b_plus_tree_iterator_has_next_func, leaf_at, advanced,
  b_plus_tree_iterator_next_func, root_leaves, iterate,
}

get-middle {ℓ} :
    {A : Type ℓ} (done todo : List A) (e : A)
    → get_elem? (done ++ (e ∷ todo)) (length done) ≡ some e
get-middle [] todo e = refl
get-middle (d ∷ done) todo e = get-middle done todo e

nonempty {ℓ} :
    {A : Type ℓ} (es : List A) → 0 < length es → (e : A) × (todo : List A) × (es ≡ e ∷ todo)
nonempty [] h = absurd (omega arith)
nonempty (e ∷ todo) h = (e, todo, refl)

module _ {ℓ κ} {K : Type ℓ} {V : Type κ} where
  abbrev all_cells : List (Leaf K V) → List (K × V)
  all_cells [] = []
  all_cells (l ∷ ls) = l.cells ++ all_cells ls

  abbrev pub AreNonempty : List (Leaf K V) → Type 0
  AreNonempty [] = Unit
  AreNonempty (l ∷ ls) = (0 < length l.cells) × AreNonempty ls

  -- The leaf is found behind the ones in front of it.
  leaf_at-behind :
      (before : List (Leaf K V)) (l : Leaf K V) (ls : List (Leaf K V))
      → AreApart (before ++ (l ∷ ls))
      → leaf_at l.address (before ++ (l ∷ ls)) ≡ some l
  unfolding leaf_at
  leaf_at-behind [] l ls h = elim (Bool-cases (l.address == l.address)) [
    | inl e ↦ rw (e, leaf_at) refl
    | inr e ↦ absurd (ground arith)
  ]
  leaf_at-behind (b ∷ before) l ls h = elim (Bool-cases (b.address == l.address)) [
    | inl e ↦ absurd (elsewhere b.address before h.0 (eq_of b.address l.address e))
    | inr e ↦ rw (e, leaf_at) (leaf_at-behind before l ls h.1)
  ]
    where
      eq_of : (m n : ℕ) → (m == n) ≡ true → n ≡ m
      eq_of m n e = ground arith

      elsewhere :
          (a : ℕ) (before : List (Leaf K V)) → Elsewhere a (before ++ (l ∷ ls)) → l.address ≢ a
      elsewhere a [] h = h.0
      elsewhere a (c ∷ before) h = elsewhere a before h.1

  Result : List (Leaf K V) → ℕ → BPlusTreeIteratorData K V → List (K × V) → Type (ℓ ⊔ κ)
  Result ls f data' es =
      (rest : BPlusTreeIteratorData K V) × (iterate ls f data' ≡ some (es, rest))
      × (b_plus_tree_iterator_has_next_func rest ≡ false)

  iterate-end :
      (ls : List (Leaf K V)) (f i : ℕ) (p : Option (K × V))
      → Result ls f (record { node = none; index = i; pair = p }) []
  unfolding Result iterate b_plus_tree_iterator_has_next_func
  iterate-end ls zero i p = (record { node = none; index = i; pair = p }, refl, refl)
  iterate-end ls (suc f) i p = (record { node = none; index = i; pair = p }, refl, refl)

  -- One round at a leaf: the entry, and what the later rounds give.
  iterate-step :
      (ls : List (Leaf K V)) (f i : ℕ) (p : Option (K × V)) (l : Leaf K V) (e : K × V)
      (es : List (K × V))
      → leaf_at l.address ls ≡ some l
      → get_elem? l.cells i ≡ some e
      → Result ls f (advanced l i e) es
      → Result ls (suc f) (record { node = some l.address; index = i; pair = p }) (e ∷ es)
  unfolding Result iterate b_plus_tree_iterator_has_next_func b_plus_tree_iterator_next_func
  iterate-step ls f i p l e es found cell later =
      let (rest, g, h) = later in (rest, rw (found, cell, g) refl, h)

  advanced-inside :
      (l : Leaf K V) (done todo : List (K × V)) (e t : K × V)
      → l.cells ≡ done ++ (e ∷ (t ∷ todo))
      → advanced l (length done) e
        ≡ record { node = some l.address; index = length (done ++ (e ∷ [])); pair = some e }
  unfolding advanced
  advanced-inside l done todo e t c = elim (Bool-cases ((length done + 1) == length l.cells)) [
    | inl eq ↦ absurd (ground (arith, ap length c, length-append done (e ∷ (t ∷ todo))))
    | inr eq ↦ rw (eq, advanced, length-append done (e ∷ [])) refl
  ]

  advanced-last :
      (l : Leaf K V) (next : Option ℕ) (done : List (K × V)) (e : K × V)
      → l.next ≡ next
      → l.cells ≡ done ++ (e ∷ [])
      → advanced l (length done) e ≡ record { node = next; index = 0; pair = some e }
  unfolding advanced
  advanced-last l next done e n c = elim (Bool-cases ((length done + 1) == length l.cells)) [
    | inl eq ↦ rw (eq, advanced) (ap (λ m. record { node = m; index = 0; pair = some e }) n)
    | inr eq ↦ absurd (ground (arith, ap length c, length-append done (e ∷ [])))
  ]

  of_equal :
      (ls ls' : List (Leaf K V)) (f : ℕ) (data' : BPlusTreeIteratorData K V) (es es' : List (K × V))
      → ls ≡ ls'
      → es' ≡ es
      → Result ls f data' es
      → Result ls' f data' es'
  of_equal ls ls' f data' es es' p q r = rw (sym p, q) r

  iterate-at :
      (f : ℕ) (before : List (Leaf K V)) (l : Leaf K V) (ls : List (Leaf K V))
      (done todo : List (K × V)) (e : K × V) (p : Option (K × V))
      → l.cells ≡ done ++ (e ∷ todo)
      → AreApart (before ++ (l ∷ ls))
      → IsLinked (l ∷ ls)
      → AreNonempty ls
      → length ((e ∷ todo) ++ all_cells ls) ≤ f
      → Result
          (before ++ (l ∷ ls))
          f
          (record { node = some l.address; index = length done; pair = p })
          ((e ∷ todo) ++ all_cells ls)
  iterate-at zero before l ls done todo e p c a k w h = absurd (omega arith)
  iterate-at (suc f) before l ls done (t ∷ todo) e p c a k w h =
      iterate-step (before ++ (l ∷ ls)) f (length done) p l e ((t ∷ todo) ++ all_cells ls)
        (leaf_at-behind before l ls a) (rw c (get-middle done (t ∷ todo) e))
        (rw (advanced-inside l done todo e t c) (
          iterate-at f before l ls (done ++ (e ∷ [])) todo t (some e)
            (c ∙ sym (append_assoc done (e ∷ []) (t ∷ todo))) a k w (omega arith)))
  iterate-at (suc f) before l [] done [] e p c a k w h =
      iterate-step (before ++ (l ∷ [])) f (length done) p l e [] (leaf_at-behind before l [] a)
        (rw c (get-middle done [] e))
        (rw (advanced-last l none done e k.0 c) (iterate-end (before ++ (l ∷ [])) f 0 (some e)))
  iterate-at (suc f) before l (m ∷ ls) done [] e p c a k w h =
      let (t, todo, d) = nonempty m.cells w.0 in
      let again = append_assoc before (l ∷ []) (m ∷ ls) in
      let later =
        iterate-at f (before ++ (l ∷ [])) m ls [] todo t (some e) d (rw again a) k.1 w.1
          (omega (arith, ap (λ es. length (es ++ all_cells ls)) d)) in
      iterate-step (before ++ (l ∷ (m ∷ ls))) f (length done) p l e (m.cells ++ all_cells ls)
        (leaf_at-behind before l (m ∷ ls) a) (rw c (get-middle done [] e))
        (rw (advanced-last l (some m.address) done e k.0 c) (
          of_equal ((before ++ (l ∷ [])) ++ (m ∷ ls)) (before ++ (l ∷ (m ∷ ls))) f
            (record { node = some m.address; index = 0; pair = some e })
            ((t ∷ todo) ++ all_cells ls) (m.cells ++ all_cells ls) again
            (ap (λ es. es ++ all_cells ls) d) later))

  all_cells-append : (ls ms : List (Leaf K V)) → all_cells (ls ++ ms) ≡ all_cells ls ++ all_cells ms
  all_cells-append [] ms = refl
  all_cells-append (l ∷ ls) ms =
      rw (all_cells-append ls ms) (sym (append_assoc l.cells (all_cells ls) (all_cells ms)))

  mutual
    all_cells-leaves : (n : BPlusNode K V) → all_cells (leaves n) ≡ entries n
    all_cells-leaves (leaf id es next) = append-nil es
    all_cells-leaves (inner cs) = all_cells-child_leaves cs

    all_cells-child_leaves : (cs : Children K V) → all_cells (child_leaves cs) ≡ child_entries cs
    all_cells-child_leaves (last c) = all_cells-leaves c
    all_cells-child_leaves (more c k v cs) =
        rw
          (
            all_cells-append (leaves c) (child_leaves cs),
            all_cells-leaves c,
            all_cells-child_leaves cs,
          )
          refl

  mutual
    unfolding leftmost first_leftmost

    leaves-leftmost :
        (n : BPlusNode K V)
        → (l : Leaf K V) × (ls : List (Leaf K V)) × (leaves n ≡ l ∷ ls) × (leftmost n ≡ l.address)
    leaves-leftmost (leaf id es next) =
        (record { address = id; cells = es; next = next }, [], refl, refl)
    leaves-leftmost (inner cs) = child_leaves-first_leftmost cs

    child_leaves-first_leftmost :
        (cs : Children K V)
        → (l : Leaf K V) × (ls : List (Leaf K V)) × (child_leaves cs ≡ l ∷ ls)
          × (first_leftmost cs ≡ l.address)
    child_leaves-first_leftmost (last c) = leaves-leftmost c
    child_leaves-first_leftmost (more c k v cs) =
        let (l, ls, p, q) = leaves-leftmost c in
        (l, ls ++ child_leaves cs, ap (λ ms. ms ++ child_leaves cs) p, q)

  iterate-first :
      (l : Leaf K V) (ls : List (Leaf K V)) (f : ℕ)
      → AreApart (l ∷ ls)
      → IsLinked (l ∷ ls)
      → AreNonempty (l ∷ ls)
      → length (all_cells (l ∷ ls)) ≤ f
      → Result
          (l ∷ ls)
          f
          (record { node = some l.address; index = 0; pair = none })
          (all_cells (l ∷ ls))
  iterate-first l ls f a k w h =
      let (t, todo, d) = nonempty l.cells w.0 in
      of_equal (l ∷ ls) (l ∷ ls) f (record { node = some l.address; index = 0; pair = none })
        ((t ∷ todo) ++ all_cells ls) (l.cells ++ all_cells ls) refl
        (ap (λ es. es ++ all_cells ls) d)
        (iterate-at f [] l ls [] todo t none d a k w.1
          (omega (arith, ap (λ es. length (es ++ all_cells ls)) d)))

  iterate-root :
      (n : BPlusNode K V) (l : Leaf K V) (ls : List (Leaf K V)) (address : ℕ)
      → leaves n ≡ l ∷ ls
      → address ≡ l.address
      → AreApart (leaves n)
      → IsLinked (leaves n)
      → AreNonempty (leaves n)
      → Result
          (leaves n)
          (length (entries n))
          (record { node = some address; index = 0; pair = none })
          (entries n)
  iterate-root n l ls address p q a k w =
      let all = all_cells-leaves n in
      rw (q, sym all, p)
        (iterate-first l ls (length (all_cells (l ∷ ls))) (rw p at a) (rw p at k) (rw p at w)
          (omega arith))

  pub iterate-linked :
      (tree : BPlusTree K V)
      → AreApart (root_leaves tree.root)
      → IsLinked (root_leaves tree.root)
      → AreNonempty (root_leaves tree.root)
      → (rest : BPlusTreeIteratorData K V) × (iterate
            (root_leaves tree.root)
            (length (root_entries tree.root))
            (b_plus_tree_get_iterator tree)
          ≡ some (root_entries tree.root, rest))
        × (b_plus_tree_iterator_has_next_func rest ≡ false)
  unfolding b_plus_tree_get_iterator b_plus_tree_iterator_data_new Result
  iterate-linked tree a k w = at_root tree.root a k w
    where
      at_root :
          (root : Option (BPlusNode K V))
          → AreApart (root_leaves root)
          → IsLinked (root_leaves root)
          → AreNonempty (root_leaves root)
          → Result
              (root_leaves root)
              (length (root_entries root))
              (record { node = leftmost_of root; index = 0; pair = none })
              (root_entries root)
      at_root none a k w = iterate-end [] 0 0 none
      at_root (some n) a k w =
          let (l, ls, p, q) = leaves-leftmost n in iterate-root n l ls (leftmost n) p q a k w
