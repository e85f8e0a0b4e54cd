-- ===== src/Avl/Iterator.antt =====
-- The iterator of tree/avl_tree.c: a stack of nodes in a growing array.
--
-- The stack is a list, its top first, so `top` is its length; `current` is a scratch variable that
-- is NULL between calls. A growing array keeps its contents (`zrealloc`).
use latte_c.Prelude.{
  ◌>>=◌, ℕ, zero, suc, ◌+◌, ◌*◌, ◌≤◌, ◌<◌, ◌≡◌, refl, ◌==◌, if◌then◌else◌, Bool, true, false,
  Option, none, some, List, [], ◌∷◌, ◌++◌, append-nil, append_assoc, length, length-append, arith,
  sym, ◌∙◌,
}
use latte_c.Avl.{AvlNode, null, node, node_length}
use latte_c.Avl.Order.{entries}

module _ {ℓ κ} (K : Type ℓ) (V : Type κ) where
  pub record AvlIterator : Type (ℓ ⊔ κ) where
    pub stack : List (AvlNode K V)
    pub stack_size : ℕ

-- `if (top == stackSize) stackSize *= 2`
abbrev grown : ℕ → ℕ → ℕ
grown top size = if top == size then size * 2 else size

lt-grown : (n size : ℕ) → n < size → n + 1 < grown (n + 1) size
lt-grown n size h = ground arith

module _ {ℓ κ} {K : Type ℓ} {V : Type κ} where
  -- `while (current != NULL)`: pushes a node and goes on with its left child.
  unfoldable pub push_left : AvlNode K V → AvlIterator K V → AvlIterator K V
  push_left null it = it
  push_left (node l k v r h) it =
      let top = length it.stack + 1 in
      push_left l
        (record { stack = node l k v r h ∷ it.stack; stack_size = grown top it.stack_size })

  unfoldable pub avl_tree_iterator_new : AvlNode K V → AvlIterator K V
  unfolding push_left
  avl_tree_iterator_new root = push_left root (record { stack = []; stack_size = 16 })

  abbrev pub avl_tree_iterator_has_next : AvlIterator K V → Bool
  avl_tree_iterator_has_next it = elim it.stack [ [] ↦ false | n ∷ ns ↦ true ]

  -- The pair's value goes through `get_value`, if the tree's type has one. `none` outside is a read
  -- through NULL; inside it is the NULL that an exhausted iterator returns.
  next_from :
      Option (V → V) → List (AvlNode K V) → ℕ → Option (Option (K × Option V) × AvlIterator K V)
  unfolding push_left
  next_from get_value [] size = some (none, record { stack = []; stack_size = size })
  next_from get_value (null ∷ ns) size = none
  next_from get_value (node l k v r h ∷ ns) size = some (
    some (k, elim get_value [ none ↦ none | some g ↦ some (g v) ]),
    push_left r (record { stack = ns; stack_size = size }),
  )

  unfoldable pub avl_tree_iterator_next :
      Option (V → V) → AvlIterator K V → Option (Option (K × Option V) × AvlIterator K V)
  unfolding next_from
  avl_tree_iterator_next get_value it = next_from get_value it.stack it.stack_size

  -- What is still to come: the top's own entry, its right subtree's, then the rest of the stack's.
  abbrev pub pending : List (AvlNode K V) → List (K × V)
  pending [] = []
  pending (null ∷ ns) = pending ns
  pending (node l k v r h ∷ ns) = (k, v) ∷ (entries r ++ pending ns)

  abbrev pub NoneNull : List (AvlNode K V) → Type 0
  NoneNull [] = Unit
  NoneNull (null ∷ ns) = ⊥
  NoneNull (node l k v r h ∷ ns) = NoneNull ns

  -- The stack holds no NULL, and `stack[top]` is inside the array.
  abbrev pub IsValid : AvlIterator K V → Type 0
  IsValid it = NoneNull it.stack × (length it.stack < it.stack_size)

  length-cons : (n : AvlNode K V) (ns : List (AvlNode K V)) → length (n ∷ ns) ≡ length ns + 1
  length-cons n ns = omega arith

  push_left_lem :
      (n : AvlNode K V) (it : AvlIterator K V)
      → IsValid it
      → IsValid (push_left n it) × (pending (push_left n it).stack ≡ entries n ++ pending it.stack)
  unfolding push_left
  push_left_lem null it w = (w, refl)
  push_left_lem (node l k v r h) it w =
      let (valid, rest) =
        push_left_lem l
          (record {
            stack = node l k v r h ∷ it.stack;
            stack_size = grown (length it.stack + 1) it.stack_size;
          })
          (
            w.0,
            rw (length-cons (node l k v r h) it.stack)
                (lt-grown (length it.stack) it.stack_size w.1),
          ) in
      (valid, rest ∙ sym (append_assoc (entries l) ((k, v) ∷ entries r) (pending it.stack)))

  -- The client's loop, `while (has_next(it)) next(it)`, for at most so many rounds: the pairs it
  -- is given, and the iterator that is left.
  unfoldable pub iterate :
      Option (V → V) → ℕ → AvlIterator K V → Option (List (Option (K × Option V)) × AvlIterator K V)
  unfolding avl_tree_iterator_next
  iterate get_value zero it = some ([], it)
  iterate get_value (suc f) it = elim (avl_tree_iterator_has_next it) [
    | false ↦ some ([], it)
    | true ↦ avl_tree_iterator_next get_value it >>= λ (pair, it').
        iterate get_value f it' >>= λ (pairs, rest). some (pair ∷ pairs, rest)
  ]

  -- An entry as the iterator hands it out.
  abbrev pub as_pairs : Option (V → V) → List (K × V) → List (Option (K × Option V))
  as_pairs get_value [] = []
  as_pairs get_value ((k, v) ∷ es) =
      some (k, elim get_value [ none ↦ none | some g ↦ some (g v) ]) ∷ as_pairs get_value es

  iterate-pending :
      (get_value : Option (V → V)) (f : ℕ) (ns : List (AvlNode K V)) (size : ℕ)
      → IsValid (record { stack = ns; stack_size = size })
      → length (pending ns) ≤ f
      → (rest : AvlIterator K V) × (iterate get_value f (record { stack = ns; stack_size = size })
          ≡ some (as_pairs get_value (pending ns), rest))
        × (avl_tree_iterator_has_next rest ≡ false)
  unfolding iterate
  iterate-pending get_value zero [] size w h =
      (record { stack = []; stack_size = size }, refl, refl)
  iterate-pending get_value (suc f) [] size w h =
      (record { stack = []; stack_size = size }, refl, refl)
  iterate-pending get_value f (null ∷ ns) size w h = absurd w.0
  iterate-pending get_value zero (node l k v r hh ∷ ns) size w h = absurd (omega arith)
  iterate-pending get_value (suc f) (node l k v r hh ∷ ns) size w h =
      let start : AvlIterator K V = record { stack = ns; stack_size = size } in
      let it' = push_left r start in
      let (valid, rest) = push_left_lem r start (w.0, omega arith) in
      let (it'', e, done) =
        iterate-pending get_value f it'.stack it'.stack_size valid (rw rest (omega arith)) in
      (it'', rw (e, rest), done)

  length-entries : (t : AvlNode K V) → length (entries t) ≡ node_length t
  unfolding node_length
  length-entries null = refl
  length-entries (node l k v r h) =
      omega
        (arith, length-append (entries l) ((k, v) ∷ entries r), length-entries l, length-entries r)

  -- A client that asks has_next and next in turn, for as many rounds as the tree has nodes, is
  -- handed each entry of the tree once, from left to right; then has_next is false. No call reads
  -- through NULL.
  pub iterate_lem :
      (get_value : Option (V → V)) (t : AvlNode K V)
      → (rest : AvlIterator K V) × (iterate get_value (node_length t) (avl_tree_iterator_new t)
          ≡ some (as_pairs get_value (entries t), rest))
        × (avl_tree_iterator_has_next rest ≡ false)
  unfolding avl_tree_iterator_new
  iterate_lem get_value t =
      let start : AvlIterator K V = record { stack = []; stack_size = 16 } in
      let it = push_left t start in
      let (valid, all) = push_left_lem t start (tt, omega arith) in
      let (rest, e, done) =
        iterate-pending get_value (node_length t) it.stack it.stack_size valid
          (rw (all, append-nil (entries t)) (omega (arith, length-entries t))) in
      (rest, rw (e, all, append-nil (entries t)), done)

  pub avl_tree_iterator_new-IsValid : (t : AvlNode K V) → IsValid (avl_tree_iterator_new t)
  unfolding avl_tree_iterator_new
  avl_tree_iterator_new-IsValid t =
      (push_left_lem t (record { stack = []; stack_size = 16 }) (tt, omega arith)).0

  next_from-IsValid :
      (get_value : Option (V → V)) (ns : List (AvlNode K V)) (size : ℕ)
      → IsValid (record { stack = ns; stack_size = size })
      → (out : Option (K × Option V)) × (it' : AvlIterator K V) × (next_from get_value ns size
          ≡ some (out, it'))
        × IsValid it'
  unfolding next_from
  next_from-IsValid get_value [] size w = (none, record { stack = []; stack_size = size }, refl, w)
  next_from-IsValid get_value (null ∷ ns) size w = absurd w.0
  next_from-IsValid get_value (node l k v r h ∷ ns) size w = (
    some (k, elim get_value [ none ↦ none | some g ↦ some (g v) ]),
    push_left r (record { stack = ns; stack_size = size }),
    refl,
    (push_left_lem r (record { stack = ns; stack_size = size }) (w.0, omega arith)).0,
  )

  -- If the iterator's stack holds no NULL and is shorter than the array behind it, then next
  -- reads through no NULL pointer, and the same holds of the stack that it leaves: every push is
  -- inside the array.
  pub avl_tree_iterator_next-IsValid :
      (get_value : Option (V → V)) (it : AvlIterator K V)
      → IsValid it
      → (out : Option (K × Option V)) × (it' : AvlIterator K V) × (avl_tree_iterator_next get_value
            it
          ≡ some (out, it'))
        × IsValid it'
  unfolding avl_tree_iterator_next
  avl_tree_iterator_next-IsValid get_value it w =
      next_from-IsValid get_value it.stack it.stack_size w
