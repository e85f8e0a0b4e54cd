-- ===== src/Bitmap.antt =====
-- bitmap/bitmap.c: bits in the bytes of an sds. The modules below hold the proofs.
--
-- A bitmap is the list of the sds's bytes. `bit_size` is sds_len, the number of BYTES, and it is, as an
-- `int`, the number of bits that the searches look at. An index is an `int` of at least 0, and -1, no index, is
-- `none`. `1 << k` is `2 ^ k`, and its complement in a byte `255 - 2 ^ k`; a `char` of -1 is 255.
pub mod Bits
pub mod Next
pub mod Iterator
mod Examples
use Prim.Native.Nat.{bit_and, bit_or}
use latte_c.Prelude.{
  ℕ, zero, suc, ◌+◌, ◌-◌, ◌*◌, ◌/◌, ◌%◌, ◌^◌, ltb, leb, ◌==◌, if◌then◌else◌, Bool, true, false,
  Option, none, some, List, [], ◌∷◌, ◌++◌, get_or, set, length, drop, ℤ, pos, negsuc, int_of,
}

abbrev pub not : Bool → Bool
not true = false
not false = true

-- `(byte & (1 << k)) != 0`
unfoldable pub bit : ℕ → ℕ → Bool
bit byte k = not (bit_and byte (2 ^ k) == 0)

-- `byte | (1 << k)`
unfoldable pub with_bit : ℕ → ℕ → ℕ
with_bit byte k = bit_or byte (2 ^ k)

-- `byte & ~(1 << k)`
unfoldable pub without_bit : ℕ → ℕ → ℕ
without_bit byte k = bit_and byte (255 - 2 ^ k)

abbrev pub bit_size : List ℕ → ℕ
bit_size map = length map

abbrev pub zeros : ℕ → List ℕ
zeros zero = []
zeros (suc n) = 0 ∷ zeros n

-- The loop of `bitmap_clear_all`, for an `int`.
abbrev pub clear_first : List ℕ → ℤ → List ℕ
clear_first map (pos size) = zeros size ++ drop size map
clear_first map (negsuc n) = map

unfoldable pub bitmap_clear_all : List ℕ → List ℕ
bitmap_clear_all map = clear_first map (int_of (bit_size map))

unfoldable pub bitmap_get : List ℕ → ℕ → Bool
bitmap_get map index = bit (get_or map (index / 8) 0) (index % 8)

unfoldable pub bitmap_set : List ℕ → ℕ → List ℕ
bitmap_set map index = set map (index / 8) (with_bit (get_or map (index / 8) 0) (index % 8))

unfoldable pub bitmap_clear : List ℕ → ℕ → List ℕ
bitmap_clear map index = set map (index / 8) (without_bit (get_or map (index / 8) 0) (index % 8))

unfoldable pub bytes : ℕ → ℕ
bytes size = if size % 8 == 0 then size / 8 else size / 8 + 1

-- The loop of both searches in a byte, from bit `i`, with so many bits left: the first that the test
-- accepts.
unfoldable pub first_from : (ℕ → Bool) → ℕ → ℕ → Option ℕ
first_from test i zero = none
first_from test i (suc left) =
    let later = first_from test (i + 1) left in if test i then some i else later

unfoldable pub find_char_first_zero : ℕ → ℕ → Option ℕ
find_char_first_zero byte start = first_from (λ i. not (bit byte i)) start (8 - start)

unfoldable pub find_char_first_setted : ℕ → ℕ → Option ℕ
find_char_first_setted byte start = first_from (λ i. bit byte i) start (8 - start)

-- The loop of both searches in a bitmap, from byte `iter`, with so many bytes left: a byte that
-- `skip` accepts is passed over, `find` searches the others.
unfoldable pub next_from : (ℕ → Bool) → (ℕ → ℕ → Option ℕ) → List ℕ → ℕ → ℕ → ℕ → Option ℕ
next_from skip find map iter zero start_in_byte = none
next_from skip find map iter (suc left) start_in_byte =
    let rest = next_from skip find map (iter + 1) left 0 in
    if skip (get_or map iter 0) then rest else elim (find (get_or map iter 0) start_in_byte) [
      | some index_in_byte ↦ some (iter * 8 + index_in_byte)
      | none ↦ rest
    ]

-- `if (ret >= size) ret = -1`
abbrev pub inside : ℕ → Option ℕ → Option ℕ
inside size none = none
inside size (some ret) = if leb size ret then none else some ret

-- A search by the `int` that `size` is: below 0, `ret >= size` holds of every `ret`.
abbrev pub sized : (ℕ → Option ℕ) → ℤ → Option ℕ
sized search (pos size) = search size
sized search (negsuc n) = none

unfoldable pub bitmap_next_unsetted : List ℕ → ℕ → Option ℕ
bitmap_next_unsetted map start =
    sized
      (λ size. inside size (
        next_from (λ byte. byte == 255) find_char_first_zero map (start / 8)
          (bytes size - start / 8) (start % 8)))
      (int_of (bit_size map))

unfoldable pub bitmap_next_setted : List ℕ → ℕ → Option ℕ
bitmap_next_setted map start =
    sized
      (λ size. inside size (
        next_from (λ byte. byte == 0) find_char_first_setted map (start / 8)
          (bytes size - start / 8) (start % 8)))
      (int_of (bit_size map))

-- `data->next`: WILLFIND, UNFIND, or an index.
pub data NextIndex : Type 0 where
  will_find unfind : NextIndex
  at_index : ℕ → NextIndex

-- `from` is `data->start + 1`, where the next search starts.
pub record BitmapIteratorData : Type 0 where
  pub bitmap : List ℕ
  pub from : ℕ
  pub next : NextIndex

unfoldable pub bitmap_iterator_data_new : List ℕ → ℕ → BitmapIteratorData
bitmap_iterator_data_new map start = record { bitmap = map; from = start; next = will_find }

abbrev pub next_index : Option ℕ → NextIndex
next_index none = unfind
next_index (some k) = at_index k

abbrev pub is_found : Option ℕ → Bool
is_found none = false
is_found (some k) = true

abbrev pub setted_iterator_has_next : BitmapIteratorData → Bool × BitmapIteratorData
setted_iterator_has_next it =
    let next = bitmap_next_setted it.bitmap it.from in
    (is_found next, record { bitmap = it.bitmap; from = it.from; next = next_index next })

abbrev pub unsetted_iterator_has_next : BitmapIteratorData → Bool × BitmapIteratorData
unsetted_iterator_has_next it =
    let next = bitmap_next_unsetted it.bitmap it.from in
    (is_found next, record { bitmap = it.bitmap; from = it.from; next = next_index next })

-- Inside `none` is NULL; outside it is a call before the first of `has_next`, which would hand out
-- WILLFIND itself.
unfoldable pub bitmap_iterator_next : BitmapIteratorData → Option (Option ℕ × BitmapIteratorData)
bitmap_iterator_next it = elim it.next [
  | will_find ↦ none
  | unfind ↦ some (none, it)
  | at_index k ↦ some (some k, record { bitmap = it.bitmap; from = k + 1; next = at_index k })
]
