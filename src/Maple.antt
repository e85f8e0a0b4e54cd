-- ===== src/Maple.antt =====
-- tree/maple_tree.c and tree/maple_tree.h: a treap, a search tree whose nodes are also a heap of
-- random priorities. The modules below hold the iterator and the proofs.
--
-- A node pointer is a `MapleNode`, NULL being `null`. The tree is the only owner of its nodes, so a
-- store through a pointer is a new node in its place; `none` is a read through NULL. What `rand()`
-- returns for the node that a call creates is an argument. `size` is a `size_t` of 64 bits; the
-- `int` that a call writes through `added` or `removed` is the last number of its result. Releases
-- of memory, and the callbacks for them, are left out.
pub mod Insert
pub mod Remove
pub mod Iterator
pub mod Refine
mod Examples
use latte_c.Prelude.{
  ◌>>=◌, ℕ, zero, suc, ◌+◌, ◌-◌, ◌%◌, ltb, if◌then◌else◌, Bool, true, false, Option, none, some,
  sign, below, same, above, List, [], ◌∷◌, ◌++◌,
}
use latte_c.Cmp.{CmpFunc}

pub data MapleNode {ℓ κ} (K : Type ℓ) (V : Type κ) : Type (ℓ ⊔ κ) where
  null : MapleNode K V
  node : MapleNode K V → K → V → MapleNode K V → ℕ → MapleNode K V

-- A node, `size` and the flag, or a read through NULL.
abbrev pub Outcome {ℓ κ} : Type ℓ → Type κ → Type (ℓ ⊔ κ)
Outcome K V = Option (MapleNode K V × ℕ × ℕ)

-- `size++` and `size--` on a `size_t`.
unfoldable pub size_inc : ℕ → ℕ
size_inc n = (n + 1) % 18446744073709551616

unfoldable pub size_dec : ℕ → ℕ
size_dec n = (n + 18446744073709551615) % 18446744073709551616

module _ {ℓ κ} {K : Type ℓ} {V : Type κ} where
  unfoldable pub rotate_right : MapleNode K V → Option (MapleNode K V)
  rotate_right (node (node a xk xv t2 xp) yk yv r yp) = some (node a xk xv (node t2 yk yv r yp) xp)
  rotate_right _ = none

  unfoldable pub rotate_left : MapleNode K V → Option (MapleNode K V)
  rotate_left (node l xk xv (node t2 yk yv b yp) xp) = some (node (node l xk xv t2 xp) yk yv b yp)
  rotate_left _ = none

  -- `if (node->left->priority > node->priority) node = rotate_right(node);`
  unfoldable pub settle_left : MapleNode K V → K → V → MapleNode K V → ℕ → Option (MapleNode K V)
  settle_left null k v r p = none
  settle_left (node ll lk lv lr lp) k v r p =
      if ltb p lp
      then rotate_right (node (node ll lk lv lr lp) k v r p)
      else some (node (node ll lk lv lr lp) k v r p)

  -- `if (node->right->priority > node->priority) node = rotate_left(node);`
  unfoldable pub settle_right : MapleNode K V → K → V → MapleNode K V → ℕ → Option (MapleNode K V)
  settle_right l k v null p = none
  settle_right l k v (node rl rk rv rr rp) p =
      if ltb p rp
      then rotate_left (node l k v (node rl rk rv rr rp) p)
      else some (node l k v (node rl rk rv rr rp) p)

  -- The result of a call on the left or the right child, stored there.
  abbrev pub store_left : K → V → MapleNode K V → ℕ → MapleNode K V × ℕ × ℕ → Outcome K V
  store_left k v r p (l, size, flag) = some (node l k v r p, size, flag)

  abbrev pub store_right : MapleNode K V → K → V → ℕ → MapleNode K V × ℕ × ℕ → Outcome K V
  store_right l k v p (r, size, flag) = some (node l k v r p, size, flag)

  -- `node->right = remove_node(...)` and `node->left = remove_node(...)` after a rotation.
  abbrev pub into_right : (MapleNode K V → Outcome K V) → MapleNode K V → Outcome K V
  into_right remove null = none
  into_right remove (node l k v r p) = remove r >>= store_right l k v p

  abbrev pub into_left : (MapleNode K V → Outcome K V) → MapleNode K V → Outcome K V
  into_left remove null = none
  into_left remove (node l k v r p) = remove l >>= store_left k v r p

  -- `remove_node` at the node that has the key; `remove` is the call on a subtree.
  unfoldable pub remove_found :
      (MapleNode K V → Outcome K V) → MapleNode K V → K → V → MapleNode K V → ℕ → ℕ → Outcome K V
  remove_found remove null k v r p size = some (r, size_dec size, 1)
  remove_found remove (node ll lk lv lr lp) k v null p size =
      some (node ll lk lv lr lp, size_dec size, 1)
  remove_found remove (node ll lk lv lr lp) k v (node rl rk rv rr rp) p size = elim (ltb rp lp) [
    | true ↦
        rotate_right (node (node ll lk lv lr lp) k v (node rl rk rv rr rp) p) >>= into_right remove
    | false ↦
        rotate_left (node (node ll lk lv lr lp) k v (node rl rk rv rr rp) p) >>= into_left remove
  ]

  unfoldable pub node_count : MapleNode K V → ℕ
  node_count null = 0
  node_count (node l k v r p) = node_count l + node_count r + 1

pub record MapleTree {ℓ κ} (K : Type ℓ) (V : Type κ) : Type (ℓ ⊔ κ) where
  pub root : MapleNode K V
  pub size : ℕ

module _ {ℓ κ} {K : Type ℓ} {V : Type κ} (cmp : CmpFunc K) where
  module _ (priority : ℕ) (key : K) (value : V) where
    -- What comes after the recursive calls.
    abbrev pub settled_left : K → V → MapleNode K V → ℕ → MapleNode K V × ℕ × ℕ → Outcome K V
    settled_left k v r p (l, size, added) = settle_left l k v r p >>= λ n. some (n, size, added)

    abbrev pub settled_right : MapleNode K V → K → V → ℕ → MapleNode K V × ℕ × ℕ → Outcome K V
    settled_right l k v p (r, size, added) = settle_right l k v r p >>= λ n. some (n, size, added)

    unfoldable pub insert_node : MapleNode K V → ℕ → Outcome K V
    insert_node null size = some (node null key value null priority, size_inc size, 1)
    insert_node (node l k v r p) size = elim (sign (cmp key k)) [
      | below ↦ insert_node l size >>= settled_left k v r p
      | above ↦ insert_node r size >>= settled_right l k v p
      | same ↦ some (node l k value r p, size, 0)
    ]

  -- On fuel: after a rotation the call goes on in a node that it made.
  unfoldable pub remove_node : ℕ → K → MapleNode K V → ℕ → Outcome K V
  remove_node zero key n size = none
  remove_node (suc f) key null size = some (null, size, 0)
  remove_node (suc f) key (node l k v r p) size = elim (sign (cmp key k)) [
    | below ↦ remove_node f key l size >>= store_left k v r p
    | above ↦ remove_node f key r size >>= store_right l k v p
    | same ↦ remove_found (λ n. remove_node f key n size) l k v r p size
  ]

  abbrev pub as_tree : MapleNode K V × ℕ × ℕ → Option (MapleTree K V × ℕ)
  as_tree (root, size, flag) = some (record { root = root; size = size }, flag)

  unfoldable pub maple_tree_put : ℕ → MapleTree K V → K → V → Option (MapleTree K V × ℕ)
  maple_tree_put priority tree key value =
      insert_node priority key value tree.root tree.size >>= as_tree

  unfoldable pub maple_tree_remove : MapleTree K V → K → Option (MapleTree K V × ℕ)
  maple_tree_remove tree key =
      remove_node (node_count tree.root + 1) key tree.root tree.size >>= as_tree

  -- `maple_tree_get`'s loop from `curr`.
  unfoldable pub get_from : K → MapleNode K V → Option V
  get_from key null = none
  get_from key (node l k v r p) = elim (sign (cmp key k)) [
    | same ↦ some v
    | below ↦ get_from key l
    | above ↦ get_from key r
  ]

  unfoldable pub maple_tree_get : MapleTree K V → K → Option V
  maple_tree_get tree key = get_from key tree.root

module _ {ℓ κ} {K : Type ℓ} {V : Type κ} where
  unfoldable pub maple_tree_new : MapleTree K V
  maple_tree_new = record { root = null; size = 0 }

  unfoldable pub maple_tree_clear : MapleTree K V → MapleTree K V
  maple_tree_clear tree = record { root = null; size = 0 }

  unfoldable pub maple_tree_size : MapleTree K V → ℕ
  maple_tree_size tree = tree.size

  abbrev pub entries : MapleNode K V → List (K × V)
  entries null = []
  entries (node l k v r p) = entries l ++ (k, v) ∷ entries r
