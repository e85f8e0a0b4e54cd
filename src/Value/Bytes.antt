-- ===== src/Value/Bytes.antt =====
-- Numbers in the memory of a little-endian machine, for the members of the union in value/value.h.
use latte_c.Prelude.{
  ℕ, zero, suc, ◌+◌, ◌*◌, ◌/◌, ◌%◌, ◌-◌, ◌^◌, ◌<◌, ◌≡◌, refl, ltb, if◌then◌else◌, ℤ, pos, negsuc,
  sub_ℕ, List, [], ◌∷◌, length, arith, ap,
}

-- The low bytes of a number.
unfoldable pub to_bytes : ℕ → ℕ → List ℕ
to_bytes zero v = []
to_bytes (suc n) v = v % 256 ∷ to_bytes n (v / 256)

unfoldable pub of_bytes : List ℕ → ℕ
of_bytes [] = 0
of_bytes (b ∷ bs) = b + 256 * of_bytes bs

-- An `int64_t` as its bits, and back.
unfoldable pub unsigned_of : ℤ → ℕ
unsigned_of (pos n) = n
unsigned_of (negsuc n) = 18446744073709551615 - n

unfoldable pub signed_of : ℕ → ℤ
signed_of n = if ltb n 9223372036854775808 then pos n else sub_ℕ n 18446744073709551616

abbrev pub AreBytes : List ℕ → Type 0
AreBytes [] = Unit
AreBytes (b ∷ bs) = (b < 256) × AreBytes bs

pub length-to_bytes : (n v : ℕ) → length (to_bytes n v) ≡ n
unfolding to_bytes
length-to_bytes zero v = refl
length-to_bytes (suc n) v = ap (λ m. suc m) (length-to_bytes n (v / 256))

pub of_bytes-to_bytes : (n v : ℕ) → v < 256 ^ n → of_bytes (to_bytes n v) ≡ v
unfolding to_bytes of_bytes
of_bytes-to_bytes zero v h = omega arith
of_bytes-to_bytes (suc n) v h =
    let e : 256 ^ suc n ≡ 256 * 256 ^ n = omega arith in
    omega (arith, of_bytes-to_bytes n (v / 256) (omega arith))

pub to_bytes-of_bytes : (bs : List ℕ) → AreBytes bs → to_bytes (length bs) (of_bytes bs) ≡ bs
unfolding to_bytes of_bytes
to_bytes-of_bytes [] h = refl
to_bytes-of_bytes (b ∷ bs) h =
    rw (low b (of_bytes bs) h.0, high b (of_bytes bs) h.0, to_bytes-of_bytes bs h.1) refl
  where
    low : (b n : ℕ) → b < 256 → (b + 256 * n) % 256 ≡ b
    low b n h = omega arith

    high : (b n : ℕ) → b < 256 → (b + 256 * n) / 256 ≡ n
    high b n h = omega arith

pub of_bytes-below : (bs : List ℕ) → AreBytes bs → of_bytes bs < 256 ^ length bs
unfolding of_bytes
of_bytes-below [] h = omega arith
of_bytes-below (b ∷ bs) h =
    let e : 256 ^ suc (length bs) ≡ 256 * 256 ^ length bs = omega arith in
    omega (arith, of_bytes-below bs h.1)

pub unsigned_of-signed_of : (n : ℕ) → n < 18446744073709551616 → unsigned_of (signed_of n) ≡ n
unfolding unsigned_of signed_of
unsigned_of-signed_of n h = ground arith
