-- ===== src/Odb/Bytes.antt =====
-- Little-endian numbers of odb/odb.c. A cast to `unsigned char` keeps the low 8 bits, and the sum of
-- the shifted bytes is computed in the unsigned type of the result.
use Prim.Native.Nat.{bit_or}
use native.Mathlib.Nat.{mod-eq_of_lt}
use latte_c.Prelude.{ℕ, ◌+◌, ◌*◌, ◌/◌, ◌%◌, ◌^◌, ◌<◌, ◌≡◌, List, [], ◌∷◌, get_or, length, arith}
use latte_c.Prelude.Bits.{bit_or-shifted}

-- `(unsigned char)(v >> k)`
abbrev byte_at : ℕ → ℕ → ℕ
byte_at v k = v / 2 ^ k % 256

-- `(uintw_t)p << k`
abbrev shifted : ℕ → ℕ → ℕ → ℕ
shifted w p k = p * 2 ^ k % 2 ^ w

unfoldable pub put_u16_le : ℕ → List ℕ
put_u16_le v = byte_at v 0 ∷ byte_at v 8 ∷ []

unfoldable pub put_u32_le : ℕ → List ℕ
put_u32_le v = byte_at v 0 ∷ byte_at v 8 ∷ byte_at v 16 ∷ byte_at v 24 ∷ []

unfoldable pub put_u64_le : ℕ → List ℕ
put_u64_le v =
    byte_at v 0
    ∷ byte_at v 8
    ∷ byte_at v 16
    ∷ byte_at v 24
    ∷ byte_at v 32
    ∷ byte_at v 40
    ∷ byte_at v 48
    ∷ byte_at v 56
    ∷ []

pub length-put_u16_le : (v : ℕ) → length (put_u16_le v) ≡ 2
unfolding put_u16_le
length-put_u16_le v = omega arith

pub length-put_u32_le : (v : ℕ) → length (put_u32_le v) ≡ 4
unfolding put_u32_le
length-put_u32_le v = omega arith

pub length-put_u64_le : (v : ℕ) → length (put_u64_le v) ≡ 8
unfolding put_u64_le
length-put_u64_le v = omega arith

-- The shift is done in `int`, and the result is cut to 16 bits.
unfoldable pub get_u16_le : List ℕ → ℕ
get_u16_le p = bit_or (get_or p 0 0) (get_or p 1 0 * 2 ^ 8) % 2 ^ 16

unfoldable pub get_u32_le : List ℕ → ℕ
get_u32_le p =
    bit_or
      (bit_or (bit_or (get_or p 0 0) (shifted 32 (get_or p 1 0) 8)) (shifted 32 (get_or p 2 0) 16))
      (shifted 32 (get_or p 3 0) 24)

-- The first four bytes, and then the others, joined one by one from the left.
or_four : ℕ → List ℕ → ℕ
or_four low p =
    bit_or
      (bit_or (bit_or (bit_or low (shifted 64 (get_or p 4 0) 32)) (shifted 64 (get_or p 5 0) 40))
        (shifted 64 (get_or p 6 0) 48))
      (shifted 64 (get_or p 7 0) 56)

unfoldable pub get_u64_le : List ℕ → ℕ
unfolding or_four
get_u64_le p =
    or_four
      (bit_or
        (bit_or (bit_or (get_or p 0 0) (shifted 64 (get_or p 1 0) 8))
          (shifted 64 (get_or p 2 0) 16))
        (shifted 64 (get_or p 3 0) 24))
      p

-- What was put is got back.
pub get_u16_le-put : (v : ℕ) → v < 2 ^ 16 → get_u16_le (put_u16_le v) ≡ v
unfolding get_u16_le put_u16_le
get_u16_le-put v h =
    omega (arith, bit_or-shifted 8 (v / 2 ^ 0 % 256) (v / 2 ^ 8 % 256) (omega arith))

-- A number joined above the `k` bits that are there.
join :
    (w k low p : ℕ) → low < 2 ^ k → p * 2 ^ k < 2 ^ w → bit_or low (shifted w p k) ≡ low + p * 2 ^ k
join w k low p h fits = rw (mod-eq_of_lt fits) (bit_or-shifted k low p h)

get_u32_le-bytes :
    (p q r s : ℕ)
    → p < 256
    → q < 256
    → r < 256
    → s < 256
    → get_u32_le (p ∷ q ∷ r ∷ s ∷ []) ≡ p + q * 2 ^ 8 + r * 2 ^ 16 + s * 2 ^ 24
unfolding get_u32_le
get_u32_le-bytes p q r s hp hq hr hs = rw (
  join 32 8 p q (omega arith) (omega arith),
  join 32 16 (p + q * 2 ^ 8) r (omega arith) (omega arith),
  join 32 24 (p + q * 2 ^ 8 + r * 2 ^ 16) s (omega arith) (omega arith),
)

-- What was put is got back.
pub get_u32_le-put : (v : ℕ) → v < 2 ^ 32 → get_u32_le (put_u32_le v) ≡ v
unfolding put_u32_le
get_u32_le-put v h = omega (
  arith,
  get_u32_le-bytes (byte_at v 0) (byte_at v 8) (byte_at v 16) (byte_at v 24) (omega arith)
      (omega arith) (omega arith) (omega arith),
)

-- The lower half of eight bytes, as `get_u64_le` joins them.
lower_half :
    (p q r s : ℕ)
    → p < 256
    → q < 256
    → r < 256
    → s < 256
    → bit_or (bit_or (bit_or p (shifted 64 q 8)) (shifted 64 r 16)) (shifted 64 s 24)
      ≡ p + q * 2 ^ 8 + r * 2 ^ 16 + s * 2 ^ 24
lower_half p q r s hp hq hr hs = rw (
  join 64 8 p q (omega arith) (omega arith),
  join 64 16 (p + q * 2 ^ 8) r (omega arith) (omega arith),
  join 64 24 (p + q * 2 ^ 8 + r * 2 ^ 16) s (omega arith) (omega arith),
)

-- The upper half, joined above a lower one.
upper_half :
    (low a b c d p q r s : ℕ)
    → low < 2 ^ 32
    → p < 256
    → q < 256
    → r < 256
    → s < 256
    → or_four low (a ∷ b ∷ c ∷ d ∷ p ∷ q ∷ r ∷ s ∷ [])
      ≡ low + p * 2 ^ 32 + q * 2 ^ 40 + r * 2 ^ 48 + s * 2 ^ 56
unfolding or_four
upper_half low a b c d p q r s hl hp hq hr hs = rw (
  join 64 32 low p (omega arith) (omega arith),
  join 64 40 (low + p * 2 ^ 32) q (omega arith) (omega arith),
  join 64 48 (low + p * 2 ^ 32 + q * 2 ^ 40) r (omega arith) (omega arith),
  join 64 56 (low + p * 2 ^ 32 + q * 2 ^ 40 + r * 2 ^ 48) s (omega arith) (omega arith),
)

pub get_u64_le-put : (v : ℕ) → v < 2 ^ 64 → get_u64_le (put_u64_le v) ≡ v
unfolding get_u64_le put_u64_le
get_u64_le-put v h =
    let low = byte_at v 0 + byte_at v 8 * 2 ^ 8 + byte_at v 16 * 2 ^ 16 + byte_at v 24 * 2 ^ 24 in
    rw
      (
        lower_half (byte_at v 0) (byte_at v 8) (byte_at v 16) (byte_at v 24) (omega arith)
            (omega arith) (omega arith) (omega arith),
        upper_half low (byte_at v 0) (byte_at v 8) (byte_at v 16) (byte_at v 24) (byte_at v 32)
            (byte_at v 40) (byte_at v 48) (byte_at v 56) (omega arith) (omega arith) (omega arith)
            (omega arith) (omega arith),
      )
      (omega arith)
