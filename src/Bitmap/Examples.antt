-- ===== src/Bitmap/Examples.antt =====
-- Runs of bitmap.c on a bitmap of sixteen bytes, and the theorems at such inputs.
use latte_c.Prelude.{
  length, true, false, ◌==◌, if◌then◌else◌, int_of-small, ℕ, ◌-◌, ◌≡◌, refl, none, some, List, [],
  ◌∷◌, arith,
}
use latte_c.Bitmap.Iterator.{collect, positions, collect-bitmap_iterators}
use latte_c.Bitmap.{
  setted_iterator_has_next, unsetted_iterator_has_next, bitmap_iterator_data_new, not, bit,
  bit_size, bytes, first_from, next_from, bitmap_get, bitmap_set, bitmap_clear, bitmap_next_setted,
  bitmap_next_unsetted, with_bit, find_char_first_setted,
}
use latte_c.Bitmap.Bits.{IsBytes, bitmap_get-updated}
use latte_c.Bitmap.Next.{FirstIn, bitmap_next-FirstIn}

-- Bits 0, 1, 10 and 20 are set.
abbrev sample : List ℕ
sample = 3 ∷ 4 ∷ 16 ∷ 0 ∷ 0 ∷ 0 ∷ 0 ∷ 0 ∷ 0 ∷ 0 ∷ 0 ∷ 0 ∷ 0 ∷ 0 ∷ 0 ∷ 0 ∷ []

sample-IsBytes : IsBytes sample
sample-IsBytes = omega arith

-- The bitmap has 16 bytes, so bit 20 is not looked at.
next_after_ten : bitmap_next_setted sample 11 ≡ none
unfolding bitmap_next_setted next_from bytes find_char_first_setted first_from bit
next_after_ten = rw (int_of-small (bit_size sample) (omega arith)) refl

set_nine : bitmap_set (0 ∷ 0 ∷ []) 9 ≡ 0 ∷ 2 ∷ []
unfolding bitmap_set with_bit
set_nine = refl

bitmap_get-updated_example :
    ((j : ℕ)
      → bitmap_get (bitmap_set sample 12) j ≡ (if j == 12 then true else bitmap_get sample j))
    × ((j : ℕ)
        → bitmap_get (bitmap_clear sample 12) j ≡ (if j == 12 then false else bitmap_get sample j))
    × IsBytes (bitmap_set sample 12)
    × IsBytes (bitmap_clear sample 12)
    × (length (bitmap_set sample 12) ≡ length sample)
    × (length (bitmap_clear sample 12) ≡ length sample)
bitmap_get-updated_example = bitmap_get-updated sample 12 sample-IsBytes (omega arith)

bitmap_next-FirstIn_example :
    FirstIn (λ j. bitmap_get sample j) 2 (bit_size sample) (bitmap_next_setted sample 2)
    × FirstIn (λ j. not (bitmap_get sample j)) 2 (bit_size sample) (bitmap_next_unsetted sample 2)
bitmap_next-FirstIn_example = bitmap_next-FirstIn sample 2 (omega arith)

collect-bitmap_iterators_example :
    (collect setted_iterator_has_next 16 (bitmap_iterator_data_new sample 1)
      ≡ some (positions (λ j. bitmap_get sample j) 1 (bit_size sample - 1)))
    × (collect unsetted_iterator_has_next 16 (bitmap_iterator_data_new sample 1)
        ≡ some (positions (λ j. not (bitmap_get sample j)) 1 (bit_size sample - 1)))
collect-bitmap_iterators_example = collect-bitmap_iterators 16 sample 1 (omega arith) (omega arith)
