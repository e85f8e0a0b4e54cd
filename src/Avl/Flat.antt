-- ===== src/Avl/Flat.antt =====
-- The heights that avl_tree.c computes, and what follows for the rotations.
use latte_c.Prelude.{ℕ, ◌≤◌, ◌≡◌, some, arith, false, pos, negsuc, sub_ℕ, ltb_ℤ}
use latte_c.Cmp.{CmpFunc}
use latte_c.Avl.{
  AvlNode, null, node, updated, one_plus_max, avl_node_get_height, insert_fixup, delete_fixup,
}

not_left_heavy : (a b : ℕ) → a ≤ 1 → b ≤ 1 → ltb_ℤ (pos 1) (sub_ℕ a b) ≡ false
not_left_heavy a b p q = ground arith

not_right_heavy : (a b : ℕ) → a ≤ 1 → b ≤ 1 → ltb_ℤ (sub_ℕ a b) (negsuc 0) ≡ false
not_right_heavy a b p q = ground arith

one_plus_max-le-one : (a b : ℕ) → a ≤ 1 → b ≤ 1 → one_plus_max a b ≤ 1
one_plus_max-le-one a b p q = ground arith

module _ {ℓ κ} {K : Type ℓ} {V : Type κ} where
  -- Every stored height is 0 or 1.
  abbrev pub IsFlat : AvlNode K V → Type 0
  IsFlat null = Unit
  IsFlat (node l k v r h) = IsFlat l × IsFlat r × (h ≤ 1)

  IsFlat-height : (n : AvlNode K V) → IsFlat n → avl_node_get_height n ≤ 1
  IsFlat-height null f = omega arith
  IsFlat-height (node l k v r h) f = f.2

  module _ (l : AvlNode K V) (k : K) (v : V) (r : AvlNode K V) (fl : IsFlat l) (fr : IsFlat r) where
    pub updated-IsFlat : IsFlat (updated l k v r)
    updated-IsFlat = (fl, fr, one_plus_max-le-one _ _ (IsFlat-height l fl) (IsFlat-height r fr))

    pub delete_fixup-eq-updated : (h : ℕ) → delete_fixup (node l k v r h) ≡ some (updated l k v r)
    unfolding delete_fixup
    delete_fixup-eq-updated h = simp (
      not_left_heavy _ _ (IsFlat-height l fl) (IsFlat-height r fr),
      not_right_heavy _ _ (IsFlat-height l fl) (IsFlat-height r fr),
    )

    pub insert_fixup-eq-updated :
        (cmp : CmpFunc K) (key : K) → insert_fixup cmp l k v r key ≡ some (updated l k v r)
    unfolding insert_fixup
    insert_fixup-eq-updated cmp key = simp (
      not_left_heavy _ _ (IsFlat-height l fl) (IsFlat-height r fr),
      not_right_heavy _ _ (IsFlat-height l fl) (IsFlat-height r fr),
    )
