-- ===== src/Maple/Iterator.antt =====
-- The iterator of tree/maple_tree.c: a stack of nodes in a growing array.
--
-- The stack is a list, its top first, so `stack_top` is its length less 1. A growing array keeps its
-- contents (`zrealloc`). A push gives `none` where the capacity would not fit an `int`, and where it
-- would write behind the array.
use latte_c.Prelude.{
  ◌>>=◌, ◌^◌, ltb, Bool-cases, inl, inr, ℕ, zero, suc, ◌*◌, ◌≤◌, ◌<◌, ◌≡◌, refl, if◌then◌else◌, leb,
  Bool, true, false, Option, none, some, List, [], ◌∷◌, ◌++◌, append-nil, append_assoc, length,
  length-append, arith, sym, ◌∙◌,
}
use latte_c.Maple.{MapleNode, MapleTree, null, node, node_count, entries}

module _ {ℓ κ} (K : Type ℓ) (V : Type κ) where
  pub record MapleTreeIterator : Type (ℓ ⊔ κ) where
    pub stack : List (MapleNode K V)
    pub stack_capacity : ℕ

-- `if (it->stack_top + 1 >= it->stack_capacity) it->stack_capacity *= 2`
unfoldable pub doubled : ℕ → ℕ → Option ℕ
doubled next capacity =
    if leb capacity next
    then (if ltb (capacity * 2) (2 ^ 31) then some (capacity * 2) else none)
    else some capacity

-- The array grows in time, where it is no larger than the stack needs and that is below 2^30.
doubled_lem :
    (n capacity : ℕ)
    → n ≤ capacity
    → 0 < capacity
    → n < 2 ^ 30
    → (c : ℕ) × (doubled n capacity ≡ some c) × (n < c)
unfolding doubled
doubled_lem n capacity h g w = elim (Bool-cases (leb capacity n)) [
  | inl e ↦ (capacity * 2, rw (e, fits e) refl, twice e)
  | inr e ↦ (capacity, rw e refl, ground arith)
]
  where
    fits : leb capacity n ≡ true → ltb (capacity * 2) (2 ^ 31) ≡ true
    fits e = ground arith

    twice : leb capacity n ≡ true → n < capacity * 2
    twice e = ground arith

module _ {ℓ κ} {K : Type ℓ} {V : Type κ} where
  -- `it->stack[++it->stack_top] = node`, where the array has such a cell.
  unfoldable pub pushed : MapleNode K V → List (MapleNode K V) → ℕ → Option (MapleTreeIterator K V)
  pushed n ns capacity =
      if ltb (length ns) capacity
      then some (record { stack = n ∷ ns; stack_capacity = capacity })
      else none

  -- `while (node)`: pushes a node and goes on with its left child.
  unfoldable pub push_left : MapleNode K V → MapleTreeIterator K V → Option (MapleTreeIterator K V)
  push_left null it = some it
  push_left (node l k v r p) it = doubled (length it.stack) it.stack_capacity >>= λ capacity.
      pushed (node l k v r p) it.stack capacity >>= λ it'. push_left l it'

  unfoldable pub maple_tree_get_iterator : MapleTree K V → Option (MapleTreeIterator K V)
  unfolding push_left
  maple_tree_get_iterator tree = push_left tree.root (record { stack = []; stack_capacity = 32 })

  abbrev pub iterator_has_next : MapleTreeIterator K V → Bool
  iterator_has_next it = elim it.stack [ [] ↦ false | n ∷ ns ↦ true ]

  -- `none` outside is a read through NULL, or a push that fails; inside it is the NULL that an exhausted iterator returns.
  next_from : List (MapleNode K V) → ℕ → Option (Option (K × V) × MapleTreeIterator K V)
  unfolding push_left
  next_from [] capacity = some (none, record { stack = []; stack_capacity = capacity })
  next_from (null ∷ ns) capacity = none
  next_from (node l k v r p ∷ ns) capacity =
      push_left r (record { stack = ns; stack_capacity = capacity }) >>= λ it.
      some (some (k, v), it)

  unfoldable pub iterator_next :
      MapleTreeIterator K V → Option (Option (K × V) × MapleTreeIterator K V)
  unfolding next_from
  iterator_next it = next_from it.stack it.stack_capacity

  -- What is still to come: the top's own entry, its right subtree's, then the rest of the stack's.
  abbrev pub pending : List (MapleNode K V) → List (K × V)
  pending [] = []
  pending (null ∷ ns) = pending ns
  pending (node l k v r p ∷ ns) = (k, v) ∷ (entries r ++ pending ns)

  abbrev pub NoneNull : List (MapleNode K V) → Type 0
  NoneNull [] = Unit
  NoneNull (null ∷ ns) = ⊥
  NoneNull (node l k v r p ∷ ns) = NoneNull ns

  -- The stack holds no NULL and fits the array, which is not empty.
  abbrev pub IsValid : MapleTreeIterator K V → Type 0
  IsValid it = NoneNull it.stack × (length it.stack ≤ it.stack_capacity) × (0 < it.stack_capacity)

  -- A node on the stack has an entry to come.
  length-pending : (ns : List (MapleNode K V)) → NoneNull ns → length ns ≤ length (pending ns)
  length-pending [] w = omega arith
  length-pending (null ∷ ns) w = absurd w
  length-pending (node l k v r p ∷ ns) w =
      omega (arith, length-pending ns w, length-append (entries r) (pending ns))

  push_left_lem :
      (n : MapleNode K V) (it : MapleTreeIterator K V)
      → IsValid it
      → length (entries n ++ pending it.stack) < 2 ^ 30
      → (it' : MapleTreeIterator K V) × (push_left n it ≡ some it')
        × IsValid it'
        × (pending it'.stack ≡ entries n ++ pending it.stack)
  unfolding push_left pushed
  push_left_lem null it w h = (it, refl, w, refl)
  push_left_lem (node l k v r p) it w h =
      let group = append_assoc (entries l) ((k, v) ∷ entries r) (pending it.stack) in
      let few : length (entries l ++ (k, v) ∷ (entries r ++ pending it.stack)) < 2 ^ 30 =
        rw group at h in
      let (c, grown, room) = doubled_lem (length it.stack) it.stack_capacity w.1 w.2 (
        few_nodes (entries l) (entries r) (pending it.stack) (k, v) (length-pending it.stack w.0)
          few) in
      let (it', e, valid, rest) =
        push_left_lem l (record { stack = node l k v r p ∷ it.stack; stack_capacity = c })
          (w.0, omega (arith, room), omega (arith, room)) few in
      (it', rw (grown, inside (length it.stack) c room, e) refl, valid, rest ∙ sym group)
    where
      inside : (n c : ℕ) → n < c → ltb n c ≡ true
      inside n c h = ground arith

      few_nodes :
          {n : ℕ} (xs ys ps : List (K × V)) (e : K × V)
          → n ≤ length ps
          → length (xs ++ e ∷ (ys ++ ps)) < 2 ^ 30
          → n < 2 ^ 30
      few_nodes xs ys ps e g h =
          omega (arith, length-append xs (e ∷ (ys ++ ps)), length-append ys ps, g, h)

  -- The client's loop, `while (has_next(it)) next(it)`, for at most so many rounds.
  unfoldable pub iterate :
      ℕ → MapleTreeIterator K V → Option (List (Option (K × V)) × MapleTreeIterator K V)
  unfolding iterator_next
  iterate zero it = some ([], it)
  iterate (suc f) it = elim (iterator_has_next it) [
    | false ↦ some ([], it)
    | true ↦ iterator_next it >>= λ (pair, it').
        iterate f it' >>= λ (pairs, rest). some (pair ∷ pairs, rest)
  ]

  -- The pairs that the calls hand out.
  abbrev pub handed_out : List (K × V) → List (Option (K × V))
  handed_out [] = []
  handed_out (e ∷ es) = some e ∷ handed_out es

  iterate-pending :
      (f : ℕ) (ns : List (MapleNode K V)) (capacity : ℕ)
      → IsValid (record { stack = ns; stack_capacity = capacity })
      → length (pending ns) ≤ f
      → length (pending ns) < 2 ^ 30
      → (rest : MapleTreeIterator K V) × (iterate f
            (record { stack = ns; stack_capacity = capacity })
          ≡ some (handed_out (pending ns), rest))
        × (iterator_has_next rest ≡ false)
  unfolding iterate
  iterate-pending zero [] capacity w h b =
      (record { stack = []; stack_capacity = capacity }, refl, refl)
  iterate-pending (suc f) [] capacity w h b =
      (record { stack = []; stack_capacity = capacity }, refl, refl)
  iterate-pending f (null ∷ ns) capacity w h b = absurd w.0
  iterate-pending zero (node l k v r p ∷ ns) capacity w h b = absurd (omega arith)
  iterate-pending (suc f) (node l k v r p ∷ ns) capacity w h b =
      let start : MapleTreeIterator K V = record { stack = ns; stack_capacity = capacity } in
      let (it', pushes, valid, rest) =
        push_left_lem r start (w.0, omega arith, w.2) (omega arith) in
      let (it'', e, done) =
        iterate-pending f it'.stack it'.stack_capacity valid (rw rest (omega arith))
          (rw rest (omega arith)) in
      (it'', rw (pushes, e, rest), done)

  length-entries : (t : MapleNode K V) → length (entries t) ≡ node_count t
  unfolding node_count
  length-entries null = refl
  length-entries (node l k v r p) =
      omega
        (arith, length-append (entries l) ((k, v) ∷ entries r), length-entries l, length-entries r)

  -- On a tree of less than 2^30 nodes a client that gets an iterator and asks has_next and next
  -- in turn, for as many rounds as the tree has nodes, is handed each entry once, from left to
  -- right; then has_next is false. No call reads through NULL, every push writes inside the
  -- stack's array, and the array's capacity stays below 2^31.
  pub iterate-get_iterator :
      (tree : MapleTree K V)
      → node_count tree.root < 2 ^ 30
      → (it : MapleTreeIterator K V) × (maple_tree_get_iterator tree ≡ some it)
        × ((rest : MapleTreeIterator K V) × (iterate (node_count tree.root) it
              ≡ some (handed_out (entries tree.root), rest))
            × (iterator_has_next rest ≡ false))
  unfolding maple_tree_get_iterator
  iterate-get_iterator tree b =
      let t = tree.root in
      let start : MapleTreeIterator K V = record { stack = []; stack_capacity = 32 } in
      let (it, pushes, valid, all) =
        push_left_lem t start (tt, omega arith, omega arith)
          (rw (append-nil (entries t)) (omega (arith, length-entries t))) in
      let listed : pending it.stack ≡ entries t = all ∙ append-nil (entries t) in
      let (rest, e, done) =
        iterate-pending (node_count t) it.stack it.stack_capacity valid
          (rw listed (omega (arith, length-entries t)))
          (rw listed (omega (arith, length-entries t))) in
      (it, pushes, (rest, rw (e, listed), done))
