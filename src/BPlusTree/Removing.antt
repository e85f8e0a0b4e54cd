-- ===== src/BPlusTree/Removing.antt =====
-- tree/b_plus_tree.c: removal.
--
-- `tree_node_info_t` is the parent's children and the index, the leaf being the child there; a store
-- to a node goes up to the root through the stack, the last one pushed in front. A leaf from which a
-- key was taken keeps its cells: the last of them is left over behind `numKeys`. The leaves are equally
-- deep, so the siblings of a leaf are leaves; `none` stands for any other.
-- A leaf that b_plus_tree_move_leaf takes out is not kept, though the leaf before it still has it as
-- `next`.
pub mod Cells
pub mod Parted
pub mod Focus
pub mod Siblings
pub mod Borrow
pub mod Adjust
pub mod Descend
pub mod Refine
pub mod Lost
mod Examples
use latte_c.Prelude.{
  ◌>>=◌, ℕ, zero, suc, ◌+◌, ◌-◌, ◌/◌, ltb, ◌==◌, if◌then◌else◌, Bool, true, false, Option, none,
  some, List, [], ◌∷◌, ◌++◌, length, get_elem?, take, sign, below, same, above,
}
use latte_c.Cmp.{CmpFunc}
use latte_c.BPlusTree.{
  BPlusNode, leaf, inner, Children, last, more, BPlusTree, separators, num_keys, child_at, height,
}
use latte_c.BPlusTree.Inserting.{slot}

-- A leaf: its address, cells and `next`.
abbrev pub Leaf {ℓ κ} : Type ℓ → Type κ → Type (ℓ ⊔ κ)
Leaf K V = ℕ × List (K × V) × Option ℕ

abbrev pub TreeNodeInfo {ℓ κ} : Type ℓ → Type κ → Type (ℓ ⊔ κ)
TreeNodeInfo K V = ℕ × Children K V

-- Two neighbours among the children, and the children with others or with one node in their place.
pub record Pair {ℓ κ} (K : Type ℓ) (V : Type κ) : Type (ℓ ⊔ κ) where
  pub left : BPlusNode K V
  pub right : BPlusNode K V
  pub put : BPlusNode K V → K × V → BPlusNode K V → Children K V
  pub merged : BPlusNode K V → Children K V

abbrev pub next_index : Option ℕ → Option ℕ
next_index none = none
next_index (some i) = some (suc i)

module _ {ℓ} {A : Type ℓ} where
  -- `keys[j] = keys[j + 1]` from an index to the end.
  unfoldable pub shift_left : ℕ → List A → List A
  shift_left i [] = []
  shift_left zero (x ∷ []) = x ∷ []
  shift_left zero (x ∷ y ∷ xs) = y ∷ shift_left zero (y ∷ xs)
  shift_left (suc i) (x ∷ xs) = x ∷ shift_left i xs

  -- So many cells take the cell before each, `x` being the one before the first.
  unfoldable pub carried : A → ℕ → List A → List A
  carried x zero ys = ys
  carried x (suc m) [] = []
  carried x (suc m) (y ∷ ys) = x ∷ carried y m ys

  -- The cells up to `numKeys`, one less than there are.
  abbrev pub kept : List A → List A
  kept cells = take (length cells - 1) cells

module _ {ℓ κ} {K : Type ℓ} {V : Type κ} where
  abbrev pub behind_pair : BPlusNode K V → K → V → Pair K V → Option (Pair K V)
  behind_pair c k v p = some (record {
    left = p.left;
    right = p.right;
    put = λ l s r. more c k v (p.put l s r);
    merged = λ m. more c k v (p.merged m);
  })

  unfoldable pub pair_at : ℕ → Children K V → Option (Pair K V)
  pair_at i (last c) = none
  pair_at zero (more c k v (last d)) = some (record {
    left = c;
    right = d;
    put = λ l (j, w) r. more l j w (last r);
    merged = λ m. last m;
  })
  pair_at zero (more c k v (more d j w cs)) = some (record {
    left = c;
    right = d;
    put = λ l (j', w') r. more l j' w' (more r j w cs);
    merged = λ m. more m j w cs;
  })
  pair_at (suc i) (more c k v cs) = pair_at i cs >>= behind_pair c k v

  abbrev pub leaf_of : BPlusNode K V → Option (Leaf K V)
  leaf_of (leaf id es next) = some (id, es, next)
  leaf_of (inner cs) = none

  -- A node in the place of the one that the stack leads to.
  unfoldable pub put_back : BPlusNode K V → List (TreeNodeInfo K V) → Option (BPlusNode K V)
  put_back n [] = some n
  put_back n ((i, cs) ∷ stack) = child_at i cs >>= λ (c, put). put_back (inner (put n)) stack

  abbrev pub borrowed : K × V → List (K × V) → List (K × V)
  borrowed e [] = e ∷ []
  borrowed e (c ∷ cells) = e ∷ carried c (length cells - 1) cells

  abbrev pub borrow_first :
      List (K × V) → List (K × V) → Option (List (K × V) × (K × V) × List (K × V))
  borrow_first cells [] = none
  borrow_first cells (e ∷ []) = none
  borrow_first cells (e ∷ f ∷ es) = some (kept cells ++ e ∷ [], f, f ∷ es)

  -- From the left sibling for the direction 0: the leaf's entries, the separator, the sibling's entries.
  unfoldable pub b_plus_tree_borrow_key_from_sibling :
      ℕ → List (K × V) → List (K × V) → Option (List (K × V) × (K × V) × List (K × V))
  b_plus_tree_borrow_key_from_sibling zero cells sibling =
      get_elem? sibling (length sibling - 1) >>= λ e. some (borrowed e cells, e, kept sibling)
  b_plus_tree_borrow_key_from_sibling (suc direction) cells sibling = borrow_first cells sibling

  -- The left leaf with the entries of the right one.
  unfoldable pub b_plus_tree_merge_nodes : ℕ → Leaf K V → Leaf K V → Option (BPlusNode K V)
  b_plus_tree_merge_nodes order (id, es, next) (id', es', next') =
      if ltb order (length es + length es') then none else some (leaf id (es ++ es') next')

  -- The children behind the separators `k, ...`, of which the last is given up.
  unfoldable pub moved_children : K → V → Children K V → Children K V
  moved_children k v (last c) = last c
  moved_children k v (more c j w cs) = more c k v (moved_children j w cs)

  -- The child at an index is taken out, and the last separator.
  unfoldable pub drop_child : ℕ → Children K V → Option (Children K V)
  drop_child i (last c) = none
  drop_child zero (more c k v cs) = some (moved_children k v cs)
  drop_child (suc zero) (more c k v (last d)) = some (last c)
  drop_child (suc (suc i)) (more c k v (last d)) = none
  drop_child (suc i) (more c k v (more d j w cs)) =
      drop_child i (more d j w cs) >>= λ ds. some (more c k v ds)

  -- A root without separators gives way to its child.
  abbrev pub shrink_root : Children K V → List (TreeNodeInfo K V) → Option (Option (BPlusNode K V))
  shrink_root (last c) [] = some (some c)
  shrink_root (more c k v cs) [] = some (some (inner (more c k v cs)))
  shrink_root cs (info ∷ stack) = put_back (inner cs) (info ∷ stack) >>= λ n. some (some n)

  -- The new root, where the node that the stack leads to has lost its only child.
  unfoldable pub b_plus_tree_move_leaf : List (TreeNodeInfo K V) → Option (Option (BPlusNode K V))
  b_plus_tree_move_leaf [] = some none
  b_plus_tree_move_leaf ((i, cs) ∷ stack) =
      let higher = b_plus_tree_move_leaf stack in
      if length (separators cs) == 0
      then higher
      else (drop_child i cs >>= λ ds. shrink_root ds stack)

  module _ (order : ℕ) where
    abbrev pub can_lend : BPlusNode K V → Bool
    can_lend c = ltb (order / 2) (num_keys c)

    abbrev pub left_lends : ℕ → Children K V → Option Bool
    left_lends zero cs = some false
    left_lends (suc i) cs = child_at i cs >>= λ (c, put). some (can_lend c)

    abbrev pub right_lends : ℕ → Children K V → Option Bool
    right_lends i cs =
        if ltb i (length (separators cs))
        then (child_at (suc i) cs >>= λ (c, put). some (can_lend c))
        else some false

    abbrev pub borrow_left : ℕ → Children K V → Leaf K V → Option (Children K V)
    borrow_left zero cs l = none
    borrow_left (suc i) cs (id, cells, next) = pair_at i cs >>= λ p.
        leaf_of p.left >>= λ (id', sibling, next').
        b_plus_tree_borrow_key_from_sibling 0 cells sibling >>= λ (es, s, es').
        some (p.put (leaf id' es' next') s (leaf id es next))

    abbrev pub borrow_right : ℕ → Children K V → Leaf K V → Option (Children K V)
    borrow_right i cs (id, cells, next) = pair_at i cs >>= λ p.
        leaf_of p.right >>= λ (id', sibling, next').
        b_plus_tree_borrow_key_from_sibling 1 cells sibling >>= λ (es, s, es').
        some (p.put (leaf id es next) s (leaf id' es' next'))

    -- The first leaf merges with its right sibling, any other with its left one.
    abbrev pub merge_leaf : ℕ → Children K V → Leaf K V → Option (Children K V)
    merge_leaf zero cs (id, cells, next) = pair_at 0 cs >>= λ p. leaf_of p.right >>= λ r.
        b_plus_tree_merge_nodes order (id, kept cells, next) r >>= λ m. some (p.merged m)
    merge_leaf (suc i) cs (id, cells, next) = pair_at i cs >>= λ p. leaf_of p.left >>= λ l.
        b_plus_tree_merge_nodes order l (id, kept cells, next) >>= λ m. some (p.merged m)

    abbrev pub with_children :
        List (TreeNodeInfo K V) → Children K V → Option (Option (BPlusNode K V))
    with_children stack cs = put_back (inner cs) stack >>= λ n. some (some n)

    abbrev pub only_child : List (TreeNodeInfo K V) → Leaf K V → Option (Option (BPlusNode K V))
    only_child stack (id, cells, next) =
        if length (kept cells) == 0
        then b_plus_tree_move_leaf stack
        else with_children stack (last (leaf id (kept cells) next))

    -- The new root.
    unfoldable pub b_plus_tree_adjust_leaf_balance :
        ℕ → Children K V → List (TreeNodeInfo K V) → Leaf K V → Option (Option (BPlusNode K V))
    b_plus_tree_adjust_leaf_balance i cs stack l = left_lends i cs >>= λ left.
        if left
        then (borrow_left i cs l >>= with_children stack)
        else (right_lends i cs >>= λ right.
            if right
            then (borrow_right i cs l >>= with_children stack)
            else if ltb 0 (length (separators cs))
            then (merge_leaf i cs l >>= with_children stack)
            else only_child stack l)

    -- The leaf has lost a key: the new root.
    abbrev pub after_leaf : List (TreeNodeInfo K V) → Leaf K V → Option (Option (BPlusNode K V))
    after_leaf [] (id, cells, next) =
        some (if length (kept cells) == 0 then none else some (leaf id (kept cells) next))
    after_leaf ((i, cs) ∷ stack) (id, cells, next) =
        if ltb (length (kept cells)) (order / 2)
        then b_plus_tree_adjust_leaf_balance i cs stack (id, cells, next)
        else (put_back (leaf id (kept cells) next) ((i, cs) ∷ stack) >>= λ n. some (some n))

  abbrev pub with_root : BPlusTree K V → Option (BPlusNode K V) → BPlusTree K V
  with_root tree root = record { root = root; order = tree.order; fresh = tree.fresh }

module _ {ℓ κ} {K : Type ℓ} {V : Type κ} (cmp : CmpFunc K) where
  -- The stack and the leaf, from a node with a stack.
  unfoldable pub b_plus_tree_find_leaf :
      ℕ → List (TreeNodeInfo K V) → BPlusNode K V → K → Option (List (TreeNodeInfo K V) × Leaf K V)
  b_plus_tree_find_leaf zero stack n key = none
  b_plus_tree_find_leaf (suc f) stack (leaf id es next) key = some (stack, (id, es, next))
  b_plus_tree_find_leaf (suc f) stack (inner cs) key =
      child_at (slot cmp key (separators cs)) cs >>= λ (c, put).
      b_plus_tree_find_leaf f ((slot cmp key (separators cs), cs) ∷ stack) c key

  unfoldable pub index_of : K → List (K × V) → Option ℕ
  index_of key [] = none
  index_of key ((k, v) ∷ es) =
      let later = index_of key es in
      elim (sign (cmp key k)) [
        | same ↦ some 0
        | below ↦ next_index later
        | above ↦ next_index later
      ]

  -- The cells of the leaf afterwards; `none` where it does not hold the key.
  unfoldable pub b_plus_tree_leaf_node_remove : K → List (K × V) → Option (List (K × V))
  b_plus_tree_leaf_node_remove key es = elim (index_of key es) [
    | none ↦ none
    | some i ↦ some (shift_left i es)
  ]

  abbrev pub remove_at :
      BPlusTree K V → K → List (TreeNodeInfo K V) × Leaf K V → Option (Bool × BPlusTree K V)
  remove_at tree key (stack, (id, es, next)) = elim (b_plus_tree_leaf_node_remove key es) [
    | none ↦ some (false, tree)
    | some cells ↦
        after_leaf tree.order stack (id, cells, next) >>= λ root. some (true, with_root tree root)
  ]

  abbrev pub remove_root :
      BPlusTree K V → Option (BPlusNode K V) → K → Option (Bool × BPlusTree K V)
  remove_root tree none key = none
  remove_root tree (some root) key =
      b_plus_tree_find_leaf (height root) [] root key >>= remove_at tree key

  unfoldable pub b_plus_tree_remove : BPlusTree K V → K → Option (Bool × BPlusTree K V)
  b_plus_tree_remove tree key = remove_root tree tree.root key
