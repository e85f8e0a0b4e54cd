-- ===== src/Bitmap/Next.antt =====
-- The searches for the next bit that is 0, or 1.
use latte_c.Prelude.{
  int_of-small, ◌^◌, ℕ, zero, suc, ◌+◌, ◌-◌, ◌*◌, ◌/◌, ◌%◌, ◌≤◌, ◌<◌, ◌≡◌, refl, ltb, leb, ◌==◌,
  Bool, true, false, Bool-cases, inl, inr, Option, none, some, List, get_or, arith,
}
use latte_c.Bitmap.Bits.{all_below, all_below_lem}
use latte_c.Bitmap.{
  not, bit, bitmap_get, bytes, bit_size, first_from, find_char_first_zero, find_char_first_setted,
  next_from, inside, bitmap_next_setted, bitmap_next_unsetted,
}

-- What a search from `i` up to `stop` gives: the first that the test accepts.
abbrev pub FirstIn : (ℕ → Bool) → ℕ → ℕ → Option ℕ → Type 0
FirstIn test i stop none = (j : ℕ) → i ≤ j → j < stop → test j ≡ false
FirstIn test i stop (some k) =
    (i ≤ k) × (k < stop) × (test k ≡ true) × ((j : ℕ) → i ≤ j → j < k → test j ≡ false)

-- From a place further on, where all before is refused.
FirstIn-widen :
    (test : ℕ → Bool) (i m stop : ℕ) (out : Option ℕ)
    → i ≤ m
    → ((j : ℕ) → i ≤ j → j < m → test j ≡ false)
    → FirstIn test m stop out
    → FirstIn test i stop out
FirstIn-widen test i m stop none h before f = λ j g l. elim (Bool-cases (ltb j m)) [
  | inl e ↦ before j g (ground arith)
  | inr e ↦ f j (ground arith) l
]
FirstIn-widen test i m stop (some k) h before f = (
  omega (arith, f.0),
  f.1,
  f.2,
  λ j g l. elim (Bool-cases (ltb j m)) [
    | inl e ↦ before j g (ground arith)
    | inr e ↦ f.3 j (ground arith) l
  ],
)

first_from-FirstIn :
    (test : ℕ → Bool) (i left stop : ℕ)
    → stop ≡ i + left
    → FirstIn test i stop (first_from test i left)
unfolding first_from
first_from-FirstIn test i zero stop e = λ j g l. absurd (omega arith)
first_from-FirstIn test i (suc left) stop e = elim (Bool-cases (test i)) [
  | inl q ↦ rw (q, first_from) (omega arith, omega arith, q, λ j g l. absurd (omega arith))
  | inr q ↦
      rw (q, first_from)
        (FirstIn-widen test i (i + 1) stop (first_from test (i + 1) left) (omega arith)
          (λ j g l. rw (← only i j g l) q)
          (first_from-FirstIn test (i + 1) left stop (omega arith)))
]
  where
    only : (i j : ℕ) → i ≤ j → j < i + 1 → i ≡ j
    only i j g l = omega arith

bytes_enough : (start size : ℕ) → size ≤ (start / 8 + (bytes size - start / 8)) * 8
unfolding bytes
bytes_enough start size = ground arith

module _ (wanted : ℕ → ℕ → Bool) (map : List ℕ) where
  abbrev at : ℕ → Bool
  at j = wanted (get_or map (j / 8) 0) (j % 8)

  -- The search in byte `iter`, as a search in the bitmap.
  FirstIn-byte :
      (iter start : ℕ) (out : Option ℕ)
      → start < 8
      → FirstIn (λ i. wanted (get_or map iter 0) i) start 8 out
      → FirstIn at
          (iter * 8 + start)
          (iter * 8 + 8)
          (elim out [ none ↦ none | some i ↦ some (iter * 8 + i) ])
  FirstIn-byte iter start none h f = λ j g l.
      rw (quotient j iter (omega arith) l) (f (j % 8) (rest j iter start h g l) (omega arith))
    where
      quotient : (j i : ℕ) → i * 8 ≤ j → j < i * 8 + 8 → j / 8 ≡ i
      quotient j i g l = omega arith

      rest : (j i s : ℕ) → s < 8 → i * 8 + s ≤ j → j < i * 8 + 8 → s ≤ j % 8
      rest j i s h g l = omega arith
  FirstIn-byte iter start (some k) h f = (
    omega (arith, f.0),
    omega (arith, f.1),
    rw (quotient (iter * 8 + k) iter (omega arith) (omega (arith, f.1)), remainder iter k f.1) f.2,
    λ j g l. rw (quotient j iter (omega arith) (omega (arith, f.1))) (
        f.3 (j % 8) (rest j iter start h g (omega (arith, f.1)))
          (lower j iter k f.1 (omega arith) l)),
  )
    where
      quotient : (j i : ℕ) → i * 8 ≤ j → j < i * 8 + 8 → j / 8 ≡ i
      quotient j i g l = omega arith

      rest : (j i s : ℕ) → s < 8 → i * 8 + s ≤ j → j < i * 8 + 8 → s ≤ j % 8
      rest j i s h g l = omega arith

      remainder : (i k : ℕ) → k < 8 → (i * 8 + k) % 8 ≡ k
      remainder i k l = omega arith

      lower : (j i k : ℕ) → k < 8 → i * 8 ≤ j → j < i * 8 + k → j % 8 < k
      lower j i k h g l = omega arith

  -- The search goes no further than a find, so a later stop is as good.
  FirstIn-later :
      (i k stop later : ℕ) → stop ≤ later → FirstIn at i stop (some k) → FirstIn at i later (some k)
  FirstIn-later i k stop later h f = (f.0, omega (arith, f.1), f.2, f.3)

  module _ (skip : ℕ → Bool) (find : ℕ → ℕ → Option ℕ)
      (skipped : (b i : ℕ) → skip b ≡ true → i < 8 → wanted b i ≡ false)
      (found : (b start : ℕ) → start < 8 → FirstIn (λ i. wanted b i) start 8 (find b start)) where
    next_from-FirstIn :
        (iter left start stop : ℕ)
        → start < 8
        → stop ≡ (iter + left) * 8
        → FirstIn at (iter * 8 + start) stop (next_from skip find map iter left start)
    unfolding next_from
    next_from-FirstIn iter zero start stop h e = λ j g l. absurd (omega arith)
    next_from-FirstIn iter (suc left) start stop h e =
        let byte = get_or map iter 0 in
        let rest = next_from-FirstIn (iter + 1) left 0 stop (omega arith) (omega arith) in
        elim (Bool-cases (skip byte)) [
          | inl q ↦
              rw (q, next_from) (onward iter left start stop h (λ i g l. skipped byte i q l) rest)
          | inr q ↦
              rw (q, next_from)
                (searched iter left start stop h e (find byte start) (found byte start h) rest)
        ]
      where
        onward :
            (iter left start stop : ℕ)
            → start < 8
            → FirstIn (λ i. wanted (get_or map iter 0) i) start 8 none
            → FirstIn at ((iter + 1) * 8 + 0) stop (next_from skip find map (iter + 1) left 0)
            → FirstIn at (iter * 8 + start) stop (next_from skip find map (iter + 1) left 0)
        onward iter left start stop h f r =
            FirstIn-widen at (iter * 8 + start) ((iter + 1) * 8 + 0) stop
              (next_from skip find map (iter + 1) left 0) (omega arith)
              (λ j g l. FirstIn-byte iter start none h f j g (omega arith)) r

        searched :
            (iter left start stop : ℕ)
            → start < 8
            → stop ≡ (iter + suc left) * 8
            → (out : Option ℕ) → FirstIn (λ i. wanted (get_or map iter 0) i) start 8 out
            → FirstIn at ((iter + 1) * 8 + 0) stop (next_from skip find map (iter + 1) left 0)
            → FirstIn at (iter * 8 + start) stop (elim out [
              | some i ↦ some (iter * 8 + i)
              | none ↦ next_from skip find map (iter + 1) left 0
            ])
        searched iter left start stop h e none f r = onward iter left start stop h f r
        searched iter left start stop h e (some k) f r =
            FirstIn-later (iter * 8 + start) (iter * 8 + k) (iter * 8 + 8) stop (omega arith)
              (FirstIn-byte iter start (some k) h f)

    -- The whole search, cut off at the number of bits.
    search-FirstIn :
        (start size : ℕ)
        → FirstIn at start size
            (inside size (next_from skip find map (start / 8) (bytes size - start / 8) (start % 8)))
    search-FirstIn start size =
        let stop = (start / 8 + (bytes size - start / 8)) * 8 in
        cut stop (next_from skip find map (start / 8) (bytes size - start / 8) (start % 8))
          (bytes_enough start size)
          (FirstIn-widen at start (start / 8 * 8 + start % 8) stop
            (next_from skip find map (start / 8) (bytes size - start / 8) (start % 8)) (omega arith)
            (λ j g l. absurd (omega arith))
            (next_from-FirstIn (start / 8) (bytes size - start / 8) (start % 8) stop (omega arith)
              refl))
      where
        cut :
            (stop : ℕ) (out : Option ℕ)
            → size ≤ stop
            → FirstIn at start stop out
            → FirstIn at start size (inside size out)
        cut stop none h f = λ j g l. f j g (omega arith)
        cut stop (some k) h f = elim (Bool-cases (leb size k)) [
          | inl e ↦ rw e (λ j g l. f.3 j g (ground arith))
          | inr e ↦ rw e (f.0, ground arith, f.2, f.3)
        ]

-- On a bitmap of less than 2^31 bytes, bitmap_next_setted gives the first index from the start on, below the bitmap's size, whose bit
-- is set, and -1 where there is none.
pub bitmap_next_setted-FirstIn :
    (map : List ℕ) (start : ℕ)
    → bit_size map < 2 ^ 31
    → FirstIn (λ j. bitmap_get map j) start (bit_size map) (bitmap_next_setted map start)
unfolding bitmap_next_setted bitmap_get find_char_first_setted
bitmap_next_setted-FirstIn map start h = rw (int_of-small (bit_size map) h) (
    search-FirstIn bit map (λ byte. byte == 0) find_char_first_setted skipped
      (λ b s l. first_from-FirstIn (λ i. bit b i) s (8 - s) 8 (omega arith)) start (bit_size map))
  where
    table : all_below (λ i. not (bit 0 i)) 8 ≡ true
    table = unfold all_below bit in refl

    is_zero : (b : ℕ) → (b == 0) ≡ true → b ≡ 0
    is_zero b e = ground arith

    off : (t : Bool) → not t ≡ true → t ≡ false
    off true e = absurd (cc e)
    off false e = refl

    skipped : (b i : ℕ) → (b == 0) ≡ true → i < 8 → bit b i ≡ false
    skipped b i e h =
        rw (is_zero b e) (off (bit 0 i) (all_below_lem (λ i. not (bit 0 i)) 8 i table h))

-- On a bitmap of less than 2^31 bytes, bitmap_next_unsetted gives the first index from the start on, below the bitmap's size, whose
-- bit is not set, and -1 where there is none.
pub bitmap_next_unsetted-FirstIn :
    (map : List ℕ) (start : ℕ)
    → bit_size map < 2 ^ 31
    → FirstIn (λ j. not (bitmap_get map j)) start (bit_size map) (bitmap_next_unsetted map start)
unfolding bitmap_next_unsetted bitmap_get find_char_first_zero
bitmap_next_unsetted-FirstIn map start h = rw (int_of-small (bit_size map) h) (
    search-FirstIn (λ b i. not (bit b i)) map (λ byte. byte == 255) find_char_first_zero skipped
      (λ b s l. first_from-FirstIn (λ i. not (bit b i)) s (8 - s) 8 (omega arith)) start
      (bit_size map))
  where
    table : all_below (λ i. bit 255 i) 8 ≡ true
    table = unfold all_below bit in refl

    is_full : (b : ℕ) → (b == 255) ≡ true → b ≡ 255
    is_full b e = ground arith

    skipped : (b i : ℕ) → (b == 255) ≡ true → i < 8 → not (bit b i) ≡ false
    skipped b i e h = rw (is_full b e, all_below_lem (λ i. bit 255 i) 8 i table h) refl

-- On a bitmap of less than 2^31 bytes, bitmap_next_setted gives the first index from the start
-- on, below the bitmap's size, whose bit is set, bitmap_next_unsetted the first whose bit is not
-- set, and each gives -1 where there is none.
pub bitmap_next-FirstIn :
    (map : List ℕ) (start : ℕ)
    → bit_size map < 2 ^ 31
    → FirstIn (λ j. bitmap_get map j) start (bit_size map) (bitmap_next_setted map start)
      × FirstIn (λ j. not (bitmap_get map j)) start (bit_size map) (bitmap_next_unsetted map start)
bitmap_next-FirstIn map start h =
    (bitmap_next_setted-FirstIn map start h, bitmap_next_unsetted-FirstIn map start h)
