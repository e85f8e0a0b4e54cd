-- ===== src/Set.antt =====
-- set/set.c, set/set.h and set/avl_set.c: the set interface and the sets over an AVL tree.
--
-- `SetFunc` is the table of functions `set_func_t`, over the state behind `data`; a call that stores
-- returns the new state. `none` is a read through NULL. The callbacks of `avl_set_func_t` enter as the
-- comparator; the value that a set puts is NULL, the unit's element.
pub mod AvlSet
use latte_c.Prelude.{◌>>=◌, ℕ, Option, none, some}
use latte_c.Cmp.{CmpFunc}
use latte_c.Avl.{AvlNode, null, node, avl_tree_put, avl_tree_get, avl_tree_remove, avl_tree_size}

pub record SetFunc {ℓ κ} (K : Type ℓ) (D : Type κ) : Type (ℓ ⊔ κ) where
  pub add : D → K → Option (D × ℕ)
  pub remove : D → K → Option (D × ℕ)
  pub contains : D → K → ℕ
  pub size : D → ℕ

-- `set_t`: the table and the data.
pub record SetObject {ℓ κ} (K : Type ℓ) (D : Type κ) : Type (ℓ ⊔ κ) where
  pub type : SetFunc K D
  pub contents : D

module _ {ℓ κ} {K : Type ℓ} {D : Type κ} where
  unfoldable pub set_new : SetFunc K D → D → SetObject K D
  set_new type contents = record { type = type; contents = contents }

  -- A set with what a call leaves behind `data`.
  abbrev pub stored : SetFunc K D → D × ℕ → Option (SetObject K D × ℕ)
  stored type (contents, result) = some (record { type = type; contents = contents }, result)

  unfoldable pub set_add : SetObject K D → K → Option (SetObject K D × ℕ)
  set_add s key = s.type.add s.contents key >>= stored s.type

  unfoldable pub set_remove : SetObject K D → K → Option (SetObject K D × ℕ)
  set_remove s key = s.type.remove s.contents key >>= stored s.type

  unfoldable pub set_contains : SetObject K D → K → ℕ
  set_contains s key = s.type.contains s.contents key

  unfoldable pub set_size : SetObject K D → ℕ
  set_size s = s.type.size s.contents

-- A node of an AVL tree that holds no value but NULL.
abbrev pub SetNode {ℓ} : Type ℓ → Type ℓ
SetNode K = AvlNode {ℓ, 0} K Unit

module _ {ℓ} {K : Type ℓ} (cmp : CmpFunc K) where
  unfoldable pub avl_set_add : SetNode K → K → Option (SetNode K × ℕ)
  avl_set_add set key = avl_tree_put cmp set key tt

  unfoldable pub avl_set_contains : SetNode K → K → ℕ
  avl_set_contains set element = elim (avl_tree_get cmp set element) [
    | null ↦ 0
    | node l k v r h ↦ 1
  ]

  abbrev pub avl_set_func : SetFunc K (SetNode K)
  avl_set_func = record {
    add = avl_set_add;
    remove = avl_tree_remove cmp;
    contains = avl_set_contains;
    size = avl_tree_size cmp;
  }

  unfoldable pub avl_set_new : SetObject K (SetNode K)
  unfolding set_new
  avl_set_new = set_new avl_set_func null
