-- ===== src/BPlusTree.antt =====
-- tree/b_plus_tree.c and tree/b_plus_tree.h: the nodes. The modules below hold insertion
-- (`Inserting`), search and update (`Finding`), the iterator (`Iterator`), and the proofs.
--
-- A leaf is its address, its `numKeys` entries and the leaf that its `next` points to. An inner node
-- is its children with the separators between them, so it has one child more than `numKeys`; a
-- separator holds the key and the data that the code copies up. The tree is the only owner of its
-- nodes, so a store is a new node in its place; `next` is the only other reference to a node. What
-- `zmalloc` returns for a new node is the next number, `fresh`. `none` is a read through NULL or
-- outside an array, or a failed `latte_assert_with_info`. A pointer to a cell of a leaf is the value
-- there and the node that a store through it leaves. The traces that the code prints are left out.
pub mod Inserting
pub mod Finding
pub mod Removing
pub mod Shape
pub mod Split
pub mod Sides
pub mod Insert
pub mod Find
pub mod Focus
pub mod Pointers
pub mod Refine
pub mod Update
pub mod Below
pub mod Chain
pub mod ChainSplit
pub mod ChainInsert
pub mod Iterator
pub mod Iterate
pub mod Listed
mod Examples
use latte_c.Prelude.{
  ◌>>=◌, ℕ, zero, suc, ◌+◌, ◌/◌, ◌-◌, ltb, ◌==◌, if◌then◌else◌, Bool, true, false, Option, none,
  some, List, [], ◌∷◌, ◌++◌, length, get_elem?, take, drop, sign, below, same, above,
}
use latte_c.Cmp.{CmpFunc}

module _ {ℓ κ} (K : Type ℓ) (V : Type κ) where
  mutual
    pub data BPlusNode : Type (ℓ ⊔ κ) where
      leaf : ℕ → List (K × V) → Option ℕ → BPlusNode
      inner : Children → BPlusNode

    pub data Children : Type (ℓ ⊔ κ) where
      last : BPlusNode → Children
      more : BPlusNode → K → V → Children → Children

-- `b_plus_tree_node_new` ends the program for an order of at most 1.
unfoldable pub b_plus_tree_node_new {ℓ} : {A : Type ℓ} → ℕ → A → Option A
b_plus_tree_node_new order node = if ltb 1 order then some node else none

module _ {ℓ κ} {K : Type ℓ} {V : Type κ} where
  abbrev pub separators : Children K V → List (K × V)
  separators (last c) = []
  separators (more c k v cs) = (k, v) ∷ separators cs

  -- `numKeys`
  abbrev pub num_keys : BPlusNode K V → ℕ
  num_keys (leaf id es next) = length es
  num_keys (inner cs) = length (separators cs)

  -- Children, a separator, and more children.
  abbrev pub join : Children K V → K → V → Children K V → Children K V
  join (last c) k v cs = more c k v cs
  join (more d j w ds) k v cs = more d j w (join ds k v cs)

  -- The child at an index gives way to the children that a call makes of it.
  unfoldable pub splice :
      ℕ → Children K V → (BPlusNode K V → Option (Children K V × ℕ)) → Option (Children K V × ℕ)
  splice zero (last c) step = step c
  splice (suc i) (last c) step = none
  splice zero (more c k v cs) step = step c >>= λ (ds, fresh). some (join ds k v cs, fresh)
  splice (suc i) (more c k v cs) step =
      splice i cs step >>= λ (ds, fresh). some (more c k v ds, fresh)

  -- `node->children[i]`, and the children with another node in its place.
  unfoldable pub child_at :
      ℕ → Children K V → Option (BPlusNode K V × (BPlusNode K V → Children K V))
  child_at zero (last c) = some (c, λ d. last d)
  child_at (suc i) (last c) = none
  child_at zero (more c k v cs) = some (c, λ d. more d k v cs)
  child_at (suc i) (more c k v cs) = child_at i cs >>= λ (d, put). some (d, λ e. more c k v (put e))

  -- The first `n` separators with their children, the next separator, and the rest.
  unfoldable pub split_children : ℕ → Children K V → Option (Children K V × K × V × Children K V)
  split_children n (last c) = none
  split_children zero (more c k v cs) = some (last c, k, v, cs)
  split_children (suc n) (more c k v cs) =
      split_children n cs >>= λ (ds, j, w, es). some (more c k v ds, j, w, es)

  -- The two leaves of a full one: the new one takes its place in the list of leaves.
  abbrev pub split_leaf :
      ℕ → ℕ → ℕ → List (K × V) → Option ℕ → K × V → BPlusNode K V × K × V × BPlusNode K V
  split_leaf order fresh id es next (k, v) = (
    leaf id (take ((order + 1) / 2) es) (some fresh),
    k,
    v,
    leaf fresh (take (order / 2) (drop ((order + 1) / 2) es)) next,
  )

  abbrev pub as_inner :
      Children K V × K × V × Children K V → Option (BPlusNode K V × K × V × BPlusNode K V)
  as_inner (ds, k, v, es) = some (inner ds, k, v, inner es)

  -- `b_plus_tree_node_split` of a node with `order` keys: the node, the separator that goes to the
  -- parent, and the new node. A full inner node has (order - 1) / 2 keys behind the separator.
  unfoldable pub b_plus_tree_node_split :
      ℕ → ℕ → BPlusNode K V → Option (BPlusNode K V × K × V × BPlusNode K V)
  b_plus_tree_node_split order fresh (leaf id es next) = get_elem? es (order / 2) >>= λ e.
      b_plus_tree_node_new order (split_leaf order fresh id es next e)
  b_plus_tree_node_split order fresh (inner cs) =
      b_plus_tree_node_new order cs >>= λ cs'. split_children (order / 2) cs' >>= as_inner

  unfoldable mutual
    pub height : BPlusNode K V → ℕ
    height (leaf id es next) = 1
    height (inner cs) = suc (first_height cs)

    pub first_height : Children K V → ℕ
    first_height (last c) = height c
    first_height (more c k v cs) = height c

pub record BPlusTree {ℓ κ} (K : Type ℓ) (V : Type κ) : Type (ℓ ⊔ κ) where
  pub root : Option (BPlusNode K V)
  pub order : ℕ
  pub fresh : ℕ

unfoldable pub b_plus_tree_new {ℓ κ} : {K : Type ℓ} {V : Type κ} → ℕ → ℕ → BPlusTree K V
b_plus_tree_new order fresh = record { root = none; order = order; fresh = fresh }
