-- ===== src/Bitmap/Bits.antt =====
-- One bit of a bitmap is set, cleared and read.
use latte_c.Prelude.{
  ℕ, zero, suc, ◌*◌, ◌/◌, ◌%◌, ◌<◌, ◌≡◌, ◌≢◌, refl, ap, ◌∙◌, ltb, ◌==◌, if◌then◌else◌, Bool, true,
  false, ◌&&◌, Bool-cases, inl, inr, List, [], ◌∷◌, length, get_or, set, length-set,
  get_or-set_self, get_or-set_ne, arith,
}
use latte_c.Bitmap.{not, bit, with_bit, without_bit, bitmap_get, bitmap_set, bitmap_clear}

-- Every number below a bound passes a test.
unfoldable pub all_below : (ℕ → Bool) → ℕ → Bool
all_below test zero = true
all_below test (suc n) = let rest = all_below test n in if test n then rest else false

pub all_below_lem : (test : ℕ → Bool) (n i : ℕ) → all_below test n ≡ true → i < n → test i ≡ true
unfolding all_below
all_below_lem test zero i e h = absurd (omega arith)
all_below_lem test (suc n) i e h = ground (arith, all_below_lem test n i)

abbrev same_bool : Bool → Bool → Bool
same_bool true b = b
same_bool false b = not b

same_bool_eq : (a b : Bool) → same_bool a b ≡ true → a ≡ b
same_bool_eq true true e = refl
same_bool_eq true false e = absurd (cc e)
same_bool_eq false true e = absurd (cc e)
same_bool_eq false false e = refl

-- A test of every byte and two bits of it.
unfoldable every : (ℕ → ℕ → ℕ → Bool) → Bool
unfolding all_below
every test = all_below (λ b. all_below (λ k. all_below (λ j. test b k j) 8) 8) 256

every_lem :
    (test : ℕ → ℕ → ℕ → Bool) (b k j : ℕ)
    → every test ≡ true
    → b < 256
    → k < 8
    → j < 8
    → test b k j ≡ true
unfolding every
every_lem test b k j e h g l =
    all_below_lem (λ j'. test b k j') 8 j
      (all_below_lem (λ k'. all_below (λ j'. test b k' j') 8) 8 k
        (all_below_lem (λ b'. all_below (λ k'. all_below (λ j'. test b' k' j') 8) 8) 256 b e h) g)
      l

with_bit_table :
    every (λ b k j. same_bool (bit (with_bit b k) j) (if j == k then true else bit b j)) ≡ true
unfolding every all_below bit with_bit
with_bit_table = refl

without_bit_table :
    every (λ b k j. same_bool (bit (without_bit b k) j) (if j == k then false else bit b j)) ≡ true
unfolding every all_below bit without_bit
without_bit_table = refl

byte_table : every (λ b k j. ltb (with_bit b k) 256 && ltb (without_bit b k) 256) ≡ true
unfolding every all_below with_bit without_bit
byte_table = refl

bit-with_bit :
    (b k j : ℕ)
    → b < 256
    → k < 8
    → j < 8
    → bit (with_bit b k) j ≡ (if j == k then true else bit b j)
bit-with_bit b k j h g l = same_bool_eq _ _ (
    every_lem (λ b k j. same_bool (bit (with_bit b k) j) (if j == k then true else bit b j)) b k j
      with_bit_table h g l)

bit-without_bit :
    (b k j : ℕ)
    → b < 256
    → k < 8
    → j < 8
    → bit (without_bit b k) j ≡ (if j == k then false else bit b j)
bit-without_bit b k j h g l = same_bool_eq _ _ (
    every_lem (λ b k j. same_bool (bit (without_bit b k) j) (if j == k then false else bit b j)) b k
      j without_bit_table h g l)

-- Every cell is a byte.
abbrev pub IsBytes : List ℕ → Type 0
IsBytes [] = Unit
IsBytes (b ∷ bs) = (b < 256) × IsBytes bs

get_or-IsBytes : (map : List ℕ) (i : ℕ) → IsBytes map → get_or map i 0 < 256
get_or-IsBytes [] i w = omega arith
get_or-IsBytes (b ∷ bs) zero w = w.0
get_or-IsBytes (b ∷ bs) (suc i) w = get_or-IsBytes bs i w.1

-- A write of one byte, as the bits of the whole see it.
bitmap_get-write :
    (map : List ℕ) (index j byte : ℕ) (value : Bool)
    → index < 8 * length map
    → ((k : ℕ)
        → k < 8
        → bit byte k ≡ (if k == index % 8 then value else bit (get_or map (index / 8) 0) k))
    → bitmap_get (set map (index / 8) byte) j ≡ (if j == index then value else bitmap_get map j)
unfolding bitmap_get
bitmap_get-write map index j byte value h f = elim (Bool-cases (j / 8 == index / 8)) [
  | inl e ↦
      rw (eq_of (j / 8) (index / 8) e, get_or-set_self map (index / 8) byte 0 (omega arith))
        (f (j % 8) (omega arith)
          ∙ ap (λ t. if t then value else bit (get_or map (index / 8) 0) (j % 8))
              (same_rest j index e))
  | inr e ↦ rw (get_or-set_ne map byte 0 (ne_of (j / 8) (index / 8) e), other j index e) refl
]
  where
    eq_of : (m n : ℕ) → (m == n) ≡ true → m ≡ n
    eq_of m n e = ground arith

    ne_of : (m n : ℕ) → (m == n) ≡ false → n ≢ m
    ne_of m n e q = ground arith

    same_rest : (j i : ℕ) → (j / 8 == i / 8) ≡ true → (j % 8 == i % 8) ≡ (j == i)
    same_rest j i e = ground arith

    other : (j i : ℕ) → (j / 8 == i / 8) ≡ false → (j == i) ≡ false
    other j i e = ground arith

-- On a bitmap of bytes, after bitmap_set of an index inside the sds that bit is set and every
-- other bit reads as before.
bitmap_get-bitmap_set :
    (map : List ℕ) (index j : ℕ)
    → IsBytes map
    → index < 8 * length map
    → bitmap_get (bitmap_set map index) j ≡ (if j == index then true else bitmap_get map j)
unfolding bitmap_set
bitmap_get-bitmap_set map index j w h =
    let byte = get_or map (index / 8) 0 in
    bitmap_get-write map index j (with_bit byte (index % 8)) true h
      (λ k l. bit-with_bit byte (index % 8) k (get_or-IsBytes map (index / 8) w) (omega arith) l)

-- On a bitmap of bytes, after bitmap_clear of an index inside the sds that bit is not set and
-- every other bit reads as before.
bitmap_get-bitmap_clear :
    (map : List ℕ) (index j : ℕ)
    → IsBytes map
    → index < 8 * length map
    → bitmap_get (bitmap_clear map index) j ≡ (if j == index then false else bitmap_get map j)
unfolding bitmap_clear
bitmap_get-bitmap_clear map index j w h =
    let byte = get_or map (index / 8) 0 in
    bitmap_get-write map index j (without_bit byte (index % 8)) false h
      (λ k l. bit-without_bit byte (index % 8) k (get_or-IsBytes map (index / 8) w) (omega arith) l)

set-IsBytes : (map : List ℕ) (i b : ℕ) → IsBytes map → b < 256 → IsBytes (set map i b)
set-IsBytes [] i b w h = tt
set-IsBytes (x ∷ xs) zero b w h = (h, w.1)
set-IsBytes (x ∷ xs) (suc i) b w h = (w.0, set-IsBytes xs i b w.1 h)

byte_bounds : (b k : ℕ) → b < 256 → k < 8 → (with_bit b k < 256) × (without_bit b k < 256)
byte_bounds b k h g = both (with_bit b k) (without_bit b k) (
    every_lem (λ b k j. ltb (with_bit b k) 256 && ltb (without_bit b k) 256) b k 0 byte_table h g
      (omega arith))
  where
    both : (m n : ℕ) → (ltb m 256 && ltb n 256) ≡ true → (m < 256) × (n < 256)
    both m n e = ground arith

-- bitmap_set and bitmap_clear leave a bitmap of bytes such a bitmap, of the same length.
bitmap_set-IsBytes :
    (map : List ℕ) (index : ℕ)
    → IsBytes map
    → IsBytes (bitmap_set map index)
      × IsBytes (bitmap_clear map index)
      × (length (bitmap_set map index) ≡ length map)
      × (length (bitmap_clear map index) ≡ length map)
unfolding bitmap_set bitmap_clear
bitmap_set-IsBytes map index w =
    let byte = get_or map (index / 8) 0 in
    let (up, down) =
      byte_bounds byte (index % 8) (get_or-IsBytes map (index / 8) w) (omega arith) in
    (
      set-IsBytes map (index / 8) (with_bit byte (index % 8)) w up,
      set-IsBytes map (index / 8) (without_bit byte (index % 8)) w down,
      length-set map (index / 8) (with_bit byte (index % 8)),
      length-set map (index / 8) (without_bit byte (index % 8)),
    )

-- On a bitmap of bytes and for an index inside the sds: after bitmap_set that bit is set, after
-- bitmap_clear it is not, and every other bit reads as before; both leave a bitmap of bytes of
-- the same length.
pub bitmap_get-updated :
    (map : List ℕ) (index : ℕ)
    → IsBytes map
    → index < 8 * length map
    → ((j : ℕ)
        → bitmap_get (bitmap_set map index) j ≡ (if j == index then true else bitmap_get map j))
      × ((j : ℕ)
          → bitmap_get (bitmap_clear map index) j
            ≡ (if j == index then false else bitmap_get map j))
      × IsBytes (bitmap_set map index)
      × IsBytes (bitmap_clear map index)
      × (length (bitmap_set map index) ≡ length map)
      × (length (bitmap_clear map index) ≡ length map)
bitmap_get-updated map index w h =
    let (up, down, l, m) = bitmap_set-IsBytes map index w in
    (
      λ j. bitmap_get-bitmap_set map index j w h,
      λ j. bitmap_get-bitmap_clear map index j w h,
      up,
      down,
      l,
      m,
    )
