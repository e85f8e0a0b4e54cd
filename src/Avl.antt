-- ===== src/Avl.antt =====
-- tree/avl_tree.c and tree/avl_tree.h: the nodes and their insertion, search and removal. The
-- modules below hold the iterator and the proofs.
--
-- A node pointer is an `AvlNode`, NULL being `null`; a node's `value` is what the callbacks
-- `create_node` and `node_set_val` store behind the node. The tree is the only owner of its nodes,
-- so a store through a pointer is a new node in its place. `none` is a read through NULL.
-- Heights are the C `int`s of the code; they stay at most 1 (Avl/Flat.antt), so none overflows.
pub mod Flat
pub mod Plain
pub mod Order
pub mod Put
pub mod Search
pub mod Iterator
pub mod Remove
pub mod RemoveOrdered
mod Examples
use latte_c.Prelude.{
  ◌>>=◌, ℕ, ◌+◌, ℤ, pos, negsuc, sub_ℕ, ltb, ltb_ℤ, if◌then◌else◌, Bool, true, false, ◌&&◌, Option,
  none, some, sign, Sign, below, same, above,
}
use latte_c.Cmp.{CmpFunc}

pub data AvlNode {ℓ κ} (K : Type ℓ) (V : Type κ) : Type (ℓ ⊔ κ) where
  null : AvlNode K V
  node : AvlNode K V → K → V → AvlNode K V → ℕ → AvlNode K V

-- The text of `max(a, b)` is `a < b ? b : a` with no parentheses, so `1 + max(a, b)` reads
-- `(1 + a < b) ? b : a`.
abbrev pub one_plus_max : ℕ → ℕ → ℕ
one_plus_max a b = if ltb (1 + a) b then b else a

-- `max(a, b) + 1` reads `(a < b) ? b : (a + 1)`.
abbrev pub max_plus_one : ℕ → ℕ → ℕ
max_plus_one a b = if ltb a b then b else a + 1

module _ {ℓ κ} {K : Type ℓ} {V : Type κ} where
  abbrev pub avl_node_get_height : AvlNode K V → ℕ
  avl_node_get_height null = 0
  avl_node_get_height (node l k v r h) = h

  abbrev pub get_balance : AvlNode K V → ℤ
  get_balance null = pos 0
  get_balance (node l k v r h) = sub_ℕ (avl_node_get_height l) (avl_node_get_height r)

  -- A node with its height set from its children, as both rotations do it.
  abbrev rotated : AvlNode K V → K → V → AvlNode K V → AvlNode K V
  rotated l k v r = node l k v r (max_plus_one (avl_node_get_height l) (avl_node_get_height r))

  -- A node with its height set from its children, as insertion and removal do it.
  abbrev pub updated : AvlNode K V → K → V → AvlNode K V → AvlNode K V
  updated l k v r = node l k v r (one_plus_max (avl_node_get_height l) (avl_node_get_height r))

  unfoldable pub rotate_right : AvlNode K V → Option (AvlNode K V)
  rotate_right (node (node ll lk lv lr lh) k v r h) = some (rotated ll lk lv (rotated lr k v r))
  rotate_right _ = none

  unfoldable pub rotate_left : AvlNode K V → Option (AvlNode K V)
  rotate_left (node l k v (node rl rk rv rr rh) h) = some (rotated (rotated l k v rl) rk rv rr)
  rotate_left _ = none

  -- `node->left = rotate_left(node->left); return rotate_right(node);`
  unfoldable pub rotate_left_right : AvlNode K V → Option (AvlNode K V)
  unfolding rotate_left rotate_right
  rotate_left_right null = none
  rotate_left_right (node l k v r h) = rotate_left l >>= λ l'. rotate_right (node l' k v r h)

  -- `node->right = rotate_right(node->right); return rotate_left(node);`
  unfoldable pub rotate_right_left : AvlNode K V → Option (AvlNode K V)
  unfolding rotate_left rotate_right
  rotate_right_left null = none
  rotate_right_left (node l k v r h) = rotate_right r >>= λ r'. rotate_left (node l k v r' h)

  unfoldable pub find_min_value_node : AvlNode K V → AvlNode K V
  find_min_value_node null = null
  find_min_value_node (node null k v r h) = node null k v r h
  find_min_value_node (node (node ll lk lv lr lh) k v r h) =
      find_min_value_node (node ll lk lv lr lh)

  unfoldable pub node_length : AvlNode K V → ℕ
  node_length null = 0
  node_length (node l k v r h) = 1 + node_length l + node_length r

  -- The tail of `delete_child_node`, from the height update on; `n` is not NULL.
  unfoldable pub delete_fixup : AvlNode K V → Option (AvlNode K V)
  unfolding rotate_left_right rotate_right_left
  delete_fixup null = none
  delete_fixup (node l k v r h) =
      let n = updated l k v r in
      let balance = get_balance n in
      if ltb_ℤ (pos 1) balance && not_below (get_balance l)
      then rotate_right n
      else if ltb_ℤ (pos 1) balance && ltb_ℤ (get_balance l) (pos 0)
      then rotate_left_right n
      else if ltb_ℤ balance (negsuc 0) && not_above (get_balance r)
      then rotate_left n
      else if ltb_ℤ balance (negsuc 0) && ltb_ℤ (pos 0) (get_balance r)
      then rotate_right_left n
      else some n
    where
      not_below : ℤ → Bool
      not_below b = if ltb_ℤ b (pos 0) then false else true

      not_above : ℤ → Bool
      not_above b = if ltb_ℤ (pos 0) b then false else true

  -- `*node = *temp` copies the `avl_node_t` of the only child; the value behind the node stays.
  unfoldable pub delete_one_child : V → AvlNode K V → Option (AvlNode K V × ℕ)
  unfolding delete_fixup
  delete_one_child v null = some (null, 1)
  delete_one_child v (node tl tk tv tr th) = delete_fixup (node tl tk v tr th) >>= λ n. some (n, 1)

  -- The key is found; `temp` is the least node of `r`, and `remove` the recursive call on `r`.
  unfoldable pub delete_found :
      AvlNode K V
      → V
      → AvlNode K V
      → AvlNode K V
      → (K → Option (AvlNode K V × ℕ))
      → Option (AvlNode K V × ℕ)
  unfolding delete_one_child
  delete_found null v r temp remove = delete_one_child v r
  delete_found (node ll lk lv lr lh) v null temp remove = delete_one_child v (node ll lk lv lr lh)
  delete_found (node ll lk lv lr lh) v (node rl rk rv rr rh) null remove = none
  delete_found (node ll lk lv lr lh) v (node rl rk rv rr rh) (node ml least mv mr mh) remove =
      remove least >>= λ (r', deleted).
      delete_fixup (node (node ll lk lv lr lh) least v r' 0) >>= λ n. some (n, deleted)

module _ {ℓ κ} {K : Type ℓ} {V : Type κ} (cmp : CmpFunc K) where
  -- `type->operator(key, n->key)` has the sign `s`; it is asked of a child that is not NULL.
  abbrev pub key_is : Sign → K → AvlNode K V → Bool
  key_is s key null = false
  key_is below key (node l k v r h) = elim (sign (cmp key k)) [ below ↦ true | _ ↦ false ]
  key_is same key (node l k v r h) = elim (sign (cmp key k)) [ same ↦ true | _ ↦ false ]
  key_is above key (node l k v r h) = elim (sign (cmp key k)) [ above ↦ true | _ ↦ false ]

  -- The tail of `avl_node_insert`, from the height update on.
  unfoldable pub insert_fixup : AvlNode K V → K → V → AvlNode K V → K → Option (AvlNode K V)
  unfolding rotate_left_right rotate_right_left
  insert_fixup l k v r key =
      let n = updated l k v r in
      let balance = get_balance n in
      if ltb_ℤ (pos 1) balance && key_is above key l
      then rotate_right n
      else if ltb_ℤ balance (negsuc 0) && key_is below key r
      then rotate_left n
      else if ltb_ℤ (pos 1) balance && key_is below key l
      then rotate_left_right n
      else if ltb_ℤ balance (negsuc 0) && key_is above key r
      then rotate_right_left n
      else some n

  -- The number is `*puted`.
  unfoldable pub avl_node_insert : AvlNode K V → K → V → Option (AvlNode K V × ℕ)
  unfolding insert_fixup
  avl_node_insert null key value = some (node null key value null 1, 1)
  avl_node_insert (node l k v r h) key value = elim (sign (cmp key k)) [
    | below ↦ avl_node_insert l key value >>= λ (l', puted).
        insert_fixup l' k v r key >>= λ n. some (n, puted)
    | above ↦ avl_node_insert r key value >>= λ (r', puted).
        insert_fixup l k v r' key >>= λ n. some (n, puted)
    | same ↦ insert_fixup l k value r key >>= λ n. some (n, 0)
  ]

  -- The node that is found, NULL if there is none. The comparison has the node's key first.
  unfoldable pub avl_node_search : AvlNode K V → K → AvlNode K V
  avl_node_search null key = null
  avl_node_search (node l k v r h) key = elim (sign (cmp k key)) [
    | same ↦ node l k v r h
    | below ↦ avl_node_search l key
    | above ↦ avl_node_search r key
  ]

  -- The number is `*deleted`, which the caller has set to 0.
  unfoldable pub delete_child_node : AvlNode K V → K → Option (AvlNode K V × ℕ)
  unfolding delete_found find_min_value_node
  delete_child_node null key = some (null, 0)
  delete_child_node (node l k v r h) key = elim (sign (cmp key k)) [
    | above ↦ delete_child_node l key >>= λ (l', deleted).
        delete_fixup (node l' k v r h) >>= λ n. some (n, deleted)
    | below ↦ delete_child_node r key >>= λ (r', deleted).
        delete_fixup (node l k v r' h) >>= λ n. some (n, deleted)
    | same ↦ delete_found l v r (find_min_value_node r) (λ least. delete_child_node r least)
  ]

  -- `avl_tree_put` starts with `puted = -1`; the callee always sets it.
  unfoldable pub avl_tree_put : AvlNode K V → K → V → Option (AvlNode K V × ℕ)
  unfolding avl_node_insert
  avl_tree_put root key value = avl_node_insert root key value

  unfoldable pub avl_tree_get : AvlNode K V → K → AvlNode K V
  unfolding avl_node_search
  avl_tree_get root key = avl_node_search root key

  unfoldable pub avl_tree_remove : AvlNode K V → K → Option (AvlNode K V × ℕ)
  unfolding delete_child_node
  avl_tree_remove root key = delete_child_node root key

  unfoldable pub avl_tree_get_min : AvlNode K V → AvlNode K V
  unfolding find_min_value_node
  avl_tree_get_min root = find_min_value_node root

  unfoldable pub avl_tree_size : AvlNode K V → ℕ
  unfolding node_length
  avl_tree_size root = node_length root
