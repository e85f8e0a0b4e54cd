-- ===== src/BPlusTree/Finding.antt =====
-- tree/b_plus_tree.c: search, and the stores through the pointer that it gives.
use latte_c.Prelude.{
  ◌>>=◌, ℕ, zero, suc, Option, none, some, List, [], ◌∷◌, sign, below, same, above,
}
use latte_c.Cmp.{CmpFunc}
use latte_c.BPlusTree.{BPlusNode, leaf, inner, Children, BPlusTree, separators, child_at, height}
use latte_c.BPlusTree.Inserting.{slot, b_plus_tree_insert}

-- `&node->data[i]`
abbrev pub Pointer {ℓ κ} : Type ℓ → Type κ → Type (ℓ ⊔ κ)
Pointer K V = V × (V → BPlusNode K V)

-- A cell of a leaf: its key, its value, and the leaf's entries after a store to it.
abbrev pub Cell {ℓ κ} : Type ℓ → Type κ → Type (ℓ ⊔ κ)
Cell K V = K × V × (V → List (K × V))

module _ {ℓ κ} {K : Type ℓ} {V : Type κ} where
  abbrev pub behind : K × V → Cell K V → Option (Cell K V)
  behind e (k, v, store) = some (k, v, λ w. e ∷ store w)

  unfoldable pub cell_at : ℕ → List (K × V) → Option (Cell K V)
  cell_at i [] = none
  cell_at zero ((k, v) ∷ es) = some (k, v, λ w. (k, w) ∷ es)
  cell_at (suc i) (e ∷ es) = cell_at i es >>= behind e

  abbrev pub in_leaf :
      ℕ → Option ℕ → Option (V × (V → List (K × V))) → Option (Option (Pointer K V))
  in_leaf id next none = some none
  in_leaf id next (some (v, store)) = some (some (v, λ w. leaf id (store w) next))

  -- A pointer into a child, as one into its parent.
  abbrev pub through :
      (BPlusNode K V → Children K V) → Option (Pointer K V) → Option (Option (Pointer K V))
  through put none = some none
  through put (some (v, store)) = some (some (v, λ w. inner (put (store w))))

  abbrev pub pointed : Option (Pointer K V) → Option V
  pointed none = none
  pointed (some (v, store)) = some v

  -- `*oldData = data`
  abbrev pub stored : BPlusTree K V → V → Pointer K V → BPlusTree K V
  stored tree w (v, store) = record {
    root = some (store w);
    order = tree.order;
    fresh = tree.fresh;
  }

module _ {ℓ κ} {K : Type ℓ} {V : Type κ} (cmp : CmpFunc K) where
  -- `cmp(key, node->keys[i]) == 0`
  abbrev pub tested : K → Cell K V → Option (Option (V × (V → List (K × V))))
  tested key (k, v, store) = elim (sign (cmp key k)) [
    | same ↦ some (some (v, store))
    | below ↦ some none
    | above ↦ some none
  ]

  -- `keys[-1]` is read for a key below the first.
  abbrev pub find_in_entries : K → List (K × V) → ℕ → Option (Option (V × (V → List (K × V))))
  find_in_entries key es zero = none
  find_in_entries key es (suc i) = cell_at i es >>= tested key

  unfoldable pub private_b_plus_tree_find : ℕ → BPlusNode K V → K → Option (Option (Pointer K V))
  private_b_plus_tree_find zero n key = none
  private_b_plus_tree_find (suc f) (leaf id es next) key =
      find_in_entries key es (slot cmp key es) >>= in_leaf id next
  private_b_plus_tree_find (suc f) (inner cs) key =
      child_at (slot cmp key (separators cs)) cs >>= λ (c, put).
      private_b_plus_tree_find f c key >>= through put

  -- From the root, NULL being read through.
  abbrev pub find_root : Option (BPlusNode K V) → K → Option (Option (Pointer K V))
  find_root none key = none
  find_root (some root) key = private_b_plus_tree_find (height root) root key

  unfoldable pub b_plus_tree_find : BPlusTree K V → K → Option (Option V)
  b_plus_tree_find tree key = find_root tree.root key >>= λ p. some (pointed p)

  unfoldable pub b_plus_tree_update : BPlusTree K V → K → V → Option (BPlusTree K V)
  b_plus_tree_update tree key w =
      find_root tree.root key >>= λ p. elim p [ none ↦ none | some old ↦ some (stored tree w old) ]

  unfoldable pub b_plus_tree_insert_or_update : BPlusTree K V → K → V → Option (BPlusTree K V)
  b_plus_tree_insert_or_update tree key w = elim tree.root [
    | none ↦ b_plus_tree_insert cmp tree key w
    | some root ↦ find_root (some root) key >>= λ p. elim p [
      | none ↦ b_plus_tree_insert cmp tree key w
      | some old ↦ some (stored tree w old)
    ]
  ]
