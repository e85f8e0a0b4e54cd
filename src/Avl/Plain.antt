-- ===== src/Avl/Plain.antt =====
-- avl_tree.c on trees whose stored heights are 0 or 1, which are all that its own operations build:
-- insertion and removal as plain functions on search trees.
use latte_c.Prelude.{ℕ, ◌≡◌, refl, some, sign, below, same, above, Sign-cases, inl, inr, arith}
use latte_c.Cmp.{CmpFunc}
use latte_c.Avl.{AvlNode, null, node, updated, avl_node_insert}
use latte_c.Avl.Flat.{IsFlat, updated-IsFlat, insert_fixup-eq-updated}

module _ {ℓ κ} {K : Type ℓ} {V : Type κ} (cmp : CmpFunc K) where
  -- Insertion into an unbalanced search tree.
  unfoldable pub plain_insert : AvlNode K V → K → V → AvlNode K V
  plain_insert null key value = node null key value null 1
  plain_insert (node l k v r h) key value = elim (sign (cmp key k)) [
    | below ↦ updated (plain_insert l key value) k v r
    | above ↦ updated l k v (plain_insert r key value)
    | same ↦ updated l k value r
  ]

  -- 1 if the search by insertion's comparison ends at NULL, 0 if it meets the key.
  unfoldable pub absent : AvlNode K V → K → ℕ
  absent null key = 1
  absent (node l k v r h) key = elim (sign (cmp key k)) [
    | below ↦ absent l key
    | above ↦ absent r key
    | same ↦ 0
  ]

  pub plain_insert-IsFlat :
      (t : AvlNode K V) (key : K) (value : V) → IsFlat t → IsFlat (plain_insert t key value)
  unfolding plain_insert
  plain_insert-IsFlat null key value f = (tt, tt, omega arith)
  plain_insert-IsFlat (node l k v r h) key value f = elim (Sign-cases (sign (cmp key k))) [
    | inl e ↦
        rw (e, plain_insert) (updated-IsFlat _ k v r (plain_insert-IsFlat l key value f.0) f.1)
    | inr (inl e) ↦ rw (e, plain_insert) (updated-IsFlat l k value r f.0 f.1)
    | inr (inr e) ↦
        rw (e, plain_insert) (updated-IsFlat l k v _ f.0 (plain_insert-IsFlat r key value f.1))
  ]

  -- Insertion never rotates.
  pub avl_node_insert-eq-plain :
      (t : AvlNode K V) (key : K) (value : V)
      → IsFlat t
      → avl_node_insert cmp t key value ≡ some (plain_insert t key value, absent t key)
  unfolding avl_node_insert plain_insert absent
  avl_node_insert-eq-plain null key value f = refl
  avl_node_insert-eq-plain (node l k v r h) key value f = elim (Sign-cases (sign (cmp key k))) [
    | inl e ↦ rw (
      e,
      avl_node_insert,
      plain_insert,
      absent,
      avl_node_insert-eq-plain l key value f.0,
      insert_fixup-eq-updated _ k v r (plain_insert-IsFlat l key value f.0) f.1,
    )
    | inr (inl e) ↦
        rw (e, avl_node_insert, plain_insert, absent, insert_fixup-eq-updated l k value r f.0 f.1)
    | inr (inr e) ↦ rw (
      e,
      avl_node_insert,
      plain_insert,
      absent,
      avl_node_insert-eq-plain r key value f.1,
      insert_fixup-eq-updated l k v _ f.0 (plain_insert-IsFlat r key value f.1),
    )
  ]
