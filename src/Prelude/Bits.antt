-- ===== src/Prelude/Bits.antt =====
-- `|` of fields that do not overlap is their sum.
use Prim.Native.Nat.{
  ℕ, zero, suc, ◌+◌, ◌*◌, ◌/◌, ◌%◌, ◌^◌, ◌≤◌, ◌<◌, max, bit_or, digits, bit_or-bitwise,
}
use mathlib.Core.Path.{◌≡◌, refl, ap}
use native.Mathlib.Nat.{pow-suc}
use native.Mathlib.Omega.{arith}

abbrev or_digits : ℕ → ℕ → ℕ → ℕ
or_digits n a b = digits (λ y. y) max n a b

-- Any count of digits that the first number does not exceed serves.
or_digits_agree : (n m a b : ℕ) → a ≤ n → a ≤ m → or_digits n a b ≡ or_digits m a b
or_digits_agree zero zero a b h k = refl
or_digits_agree (suc n) zero zero b h k = refl
or_digits_agree (suc n) zero (suc a) b h k = absurd (omega arith)
or_digits_agree zero (suc m) zero b h k = refl
or_digits_agree zero (suc m) (suc a) b h k = absurd (omega arith)
or_digits_agree (suc n) (suc m) zero b h k = refl
or_digits_agree (suc n) (suc m) (suc a) b h k =
    omega (arith, or_digits_agree n m (suc a / 2) (b / 2) (omega arith) (omega arith))

bit_or-zero_left : (b : ℕ) → bit_or 0 b ≡ b
bit_or-zero_left b = bit_or-bitwise 0 b

-- The lowest digit, and the others.
bit_or_halves : (a b : ℕ) → bit_or a b ≡ bit_or (a / 2) (b / 2) * 2 + max (a % 2) (b % 2)
bit_or_halves zero b = omega (arith, bit_or-zero_left b, bit_or-zero_left (b / 2))
bit_or_halves (suc a) b = omega (
  arith,
  bit_or-bitwise (suc a) b,
  bit_or-bitwise (suc a / 2) (b / 2),
  or_digits_agree a (suc a / 2) (suc a / 2) (b / 2) (omega arith) (omega arith),
)

pub bit_or-shifted : (k a b : ℕ) → a < 2 ^ k → bit_or a (b * 2 ^ k) ≡ a + b * 2 ^ k
bit_or-shifted zero a b h =
    let e : a ≡ 0 = omega arith in rw e (omega (arith, bit_or-zero_left (b * 1)))
bit_or-shifted (suc k) a b h =
    let twice : b * 2 ^ suc k ≡ 2 * (b * 2 ^ k) =
      omega (arith, ap (λ (t : ℕ). b * t) (pow-suc 2 k)) in
    let half : b * 2 ^ suc k / 2 ≡ b * 2 ^ k = omega arith in
    omega (
      arith,
      bit_or_halves a (b * 2 ^ suc k),
      ap (bit_or (a / 2)) half,
      pow-suc 2 k,
      bit_or-shifted k (a / 2) b (omega (arith, pow-suc 2 k)),
    )
