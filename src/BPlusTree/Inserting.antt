-- ===== src/BPlusTree/Inserting.antt =====
-- tree/b_plus_tree.c: insertion.
use latte_c.Prelude.{
  ◌>>=◌, ℕ, zero, suc, ◌+◌, ◌==◌, true, false, Option, none, some, List, [], ◌∷◌, ◌++◌, take, drop,
  sign, below, same, above,
}
use latte_c.Cmp.{CmpFunc}
use latte_c.BPlusTree.{
  BPlusNode, leaf, inner, Children, last, more, BPlusTree, separators, num_keys, splice,
  b_plus_tree_node_new, b_plus_tree_node_split, height,
}

module _ {ℓ κ} {K : Type ℓ} {V : Type κ} (cmp : CmpFunc K) where
  -- `i + 1` for the `i` at which the loops `while (i >= 0 && cmp(key, keys[i]) < 0) i--` from the last
  -- key stop.
  unfoldable pub slot : K → List (K × V) → ℕ
  slot key [] = 0
  slot key ((k, v) ∷ es) = elim (slot key es) [
    | suc n ↦ suc (suc n)
    | zero ↦ elim (sign (cmp key k)) [ below ↦ 0 | _ ↦ 1 ]
  ]

  unfoldable pub leaf_insert : K → V → List (K × V) → List (K × V)
  leaf_insert key data' es = take (slot key es) es ++ (key, data') ∷ drop (slot key es) es

  module _ (order : ℕ) (key : K) (data' : V) where
    abbrev pub store_left : K → V → BPlusNode K V → BPlusNode K V × ℕ → Option (Children K V × ℕ)
    store_left k v r (l, fresh) = some (more l k v (last r), fresh)

    abbrev pub store_right : BPlusNode K V → K → V → BPlusNode K V × ℕ → Option (Children K V × ℕ)
    store_right l k v (r, fresh) = some (more l k v (last r), fresh)

    -- After a split: a key above the separator goes to the new node.
    abbrev pub insert_split :
        (BPlusNode K V → ℕ → Option (BPlusNode K V × ℕ))
        → ℕ
        → BPlusNode K V × K × V × BPlusNode K V
        → Option (Children K V × ℕ)
    insert_split insert fresh (l, k, v, r) = elim (sign (cmp key k)) [
      | above ↦ insert r (fresh + 1) >>= store_right l k v
      | below ↦ insert l (fresh + 1) >>= store_left k v r
      | same ↦ insert l (fresh + 1) >>= store_left k v r
    ]

    -- The child that the key belongs to, split first where it is full.
    abbrev pub insert_child :
        (BPlusNode K V → ℕ → Option (BPlusNode K V × ℕ))
        → ℕ
        → BPlusNode K V
        → Option (Children K V × ℕ)
    insert_child insert fresh c = elim (num_keys c == order) [
      | true ↦ b_plus_tree_node_split order fresh c >>= insert_split insert fresh
      | false ↦ insert c fresh >>= λ (d, fresh'). some (last d, fresh')
    ]

    -- On fuel: after a split the call goes on in a node that was made.
    unfoldable pub b_plus_tree_node_insert : ℕ → BPlusNode K V → ℕ → Option (BPlusNode K V × ℕ)
    b_plus_tree_node_insert zero n fresh = none
    b_plus_tree_node_insert (suc f) (leaf id es next) fresh =
        some (leaf id (leaf_insert key data' es) next, fresh)
    b_plus_tree_node_insert (suc f) (inner cs) fresh =
        splice (slot key (separators cs)) cs
          (λ c. insert_child (λ d fresh'. b_plus_tree_node_insert f d fresh') fresh c)
        >>= λ (ds, fresh'). some (inner ds, fresh')

  abbrev pub with_root : ℕ → BPlusNode K V × ℕ → Option (BPlusTree K V)
  with_root order (root, fresh) = some (record { root = some root; order = order; fresh = fresh })

  -- The root that a full one is put below.
  abbrev pub new_root : BPlusNode K V × K × V × BPlusNode K V → BPlusNode K V
  new_root (l, k, v, r) = inner (more l k v (last r))

  abbrev pub insert_root : K → V → ℕ → ℕ → BPlusNode K V → Option (BPlusTree K V)
  insert_root key data' order fresh root =
      b_plus_tree_node_insert order key data' (height root) root fresh >>= with_root order

  unfoldable pub b_plus_tree_insert : BPlusTree K V → K → V → Option (BPlusTree K V)
  b_plus_tree_insert tree key data' = elim tree.root [
    | none ↦
        b_plus_tree_node_new tree.order (leaf tree.fresh [] none)
        >>= insert_root key data' tree.order (tree.fresh + 1)
    | some root ↦ elim (num_keys root == tree.order) [
      | true ↦ b_plus_tree_node_split tree.order tree.fresh root >>= λ s.
          insert_root key data' tree.order (tree.fresh + 1) (new_root s)
      | false ↦ insert_root key data' tree.order tree.fresh root
    ]
  ]
