-- ===== src/BPlusTree/Iterator.antt =====
-- The iterator of tree/b_plus_tree.c. A pointer to a leaf is its address, which is looked up among the
-- tree's leaves; `none` is NULL, or a read through it or outside an array.
use latte_c.Prelude.{
  ◌>>=◌, ℕ, zero, suc, ◌+◌, ◌==◌, if◌then◌else◌, Bool, true, false, Option, none, some, List, [],
  ◌∷◌, length, get_elem?,
}
use latte_c.BPlusTree.{BPlusNode, leaf, inner, Children, last, more, BPlusTree}
use latte_c.BPlusTree.Chain.{Leaf, leaves}

pub record BPlusTreeIteratorData {ℓ κ} (K : Type ℓ) (V : Type κ) : Type (ℓ ⊔ κ) where
  pub node : Option ℕ
  pub index : ℕ
  pub pair : Option (K × V)

module _ {ℓ κ} {K : Type ℓ} {V : Type κ} where
  unfoldable pub b_plus_tree_iterator_data_new : Option ℕ → BPlusTreeIteratorData K V
  b_plus_tree_iterator_data_new node = record { node = node; index = 0; pair = none }

  -- `while (!node->isLeaf) node = node->children[0]`
  unfoldable mutual
    pub leftmost : BPlusNode K V → ℕ
    leftmost (leaf id es next) = id
    leftmost (inner cs) = first_leftmost cs

    pub first_leftmost : Children K V → ℕ
    first_leftmost (last c) = leftmost c
    first_leftmost (more c k v cs) = leftmost c

  abbrev pub leftmost_of : Option (BPlusNode K V) → Option ℕ
  leftmost_of none = none
  leftmost_of (some n) = some (leftmost n)

  unfoldable pub b_plus_tree_get_iterator : BPlusTree K V → BPlusTreeIteratorData K V
  b_plus_tree_get_iterator tree = b_plus_tree_iterator_data_new (leftmost_of tree.root)

  unfoldable pub b_plus_tree_iterator_has_next_func : BPlusTreeIteratorData K V → Bool
  b_plus_tree_iterator_has_next_func data' = elim data'.node [ none ↦ false | some a ↦ true ]

  -- The leaf at an address.
  unfoldable pub leaf_at : ℕ → List (Leaf K V) → Option (Leaf K V)
  leaf_at a [] = none
  leaf_at a (l ∷ ls) = let rest = leaf_at a ls in if l.address == a then some l else rest

  -- The pair is stored, the index goes up, and at the end of the leaf the next one begins.
  unfoldable pub advanced : Leaf K V → ℕ → K × V → BPlusTreeIteratorData K V
  advanced l index e =
      if (index + 1) == length l.cells
      then record { node = l.next; index = 0; pair = some e }
      else record { node = some l.address; index = index + 1; pair = some e }

  -- The pair that it returns, and the iterator it leaves.
  unfoldable pub b_plus_tree_iterator_next_func :
      List (Leaf K V) → BPlusTreeIteratorData K V → Option ((K × V) × BPlusTreeIteratorData K V)
  b_plus_tree_iterator_next_func ls data' = data'.node >>= λ a. leaf_at a ls >>= λ l.
      get_elem? l.cells data'.index >>= λ e. some (e, advanced l data'.index e)

  abbrev pub root_leaves : Option (BPlusNode K V) → List (Leaf K V)
  root_leaves none = []
  root_leaves (some n) = leaves n

  -- A client's loop over the iterator, for at most so many rounds.
  unfoldable pub iterate :
      List (Leaf K V)
      → ℕ
      → BPlusTreeIteratorData K V
      → Option (List (K × V) × BPlusTreeIteratorData K V)
  iterate ls zero data' = some ([], data')
  iterate ls (suc f) data' = elim (b_plus_tree_iterator_has_next_func data') [
    | false ↦ some ([], data')
    | true ↦ b_plus_tree_iterator_next_func ls data' >>= λ (e, data'').
        iterate ls f data'' >>= λ (es, rest). some (e ∷ es, rest)
  ]
