-- ===== src/Bitmap/Iterator.antt =====
-- The two iterators of bitmap.c, as a client drives them.
use latte_c.Prelude.{
  ◌^◌, ℕ, zero, suc, ◌+◌, ◌-◌, ◌≤◌, ◌<◌, ◌≡◌, refl, ap, sym, ◌∙◌, ◌==◌, if◌then◌else◌, Bool, true,
  false, Bool-cases, inl, inr, Option, none, some, List, [], ◌∷◌, arith,
}
use latte_c.Bitmap.{
  not, bit_size, bitmap_get, bitmap_next_setted, bitmap_next_unsetted, NextIndex,
  BitmapIteratorData, bitmap_iterator_data_new, next_index, is_found, setted_iterator_has_next,
  unsetted_iterator_has_next, bitmap_iterator_next,
}
use latte_c.Bitmap.Next.{FirstIn, bitmap_next_setted-FirstIn, bitmap_next_unsetted-FirstIn}

-- The indices from `i` on, so many, that a test accepts.
unfoldable pub positions : (ℕ → Bool) → ℕ → ℕ → List (Option ℕ)
positions test i zero = []
positions test i (suc left) =
    let rest = positions test (i + 1) left in if test i then some i ∷ rest else rest

positions-none :
    (test : ℕ → Bool) (i left : ℕ)
    → ((j : ℕ) → i ≤ j → j < i + left → test j ≡ false)
    → positions test i left ≡ []
unfolding positions
positions-none test i zero f = refl
positions-none test i (suc left) f =
    rw (positions, f i (omega arith) (omega arith))
      (positions-none test (i + 1) left (λ j g l. f j (omega arith) (omega arith)))

positions-some :
    (test : ℕ → Bool) (i left k rest : ℕ)
    → i ≤ k
    → k + 1 + rest ≡ i + left
    → test k ≡ true
    → ((j : ℕ) → i ≤ j → j < k → test j ≡ false)
    → positions test i left ≡ some k ∷ positions test (k + 1) rest
unfolding positions
positions-some test i zero k rest h e t f = absurd (omega arith)
positions-some test i (suc left) k rest h e t f = elim (Bool-cases (i == k)) [
  | inl q ↦
      let same : i ≡ k = ground arith in
      let much : left ≡ rest = omega arith in rw (same, positions, t, much) refl
  | inr q ↦
      rw (positions, f i (omega arith) (ground arith))
        (positions-some test (i + 1) left k rest (ground arith) (omega arith) t
          (λ j g l. f j (omega arith) l))
]

abbrev pub in_front : Option ℕ → Option (List (Option ℕ)) → Option (List (Option ℕ))
in_front out none = none
in_front out (some rest) = some (out ∷ rest)

-- The index that a `next` gives, in front of what the later ones do.
abbrev pub collected :
    (BitmapIteratorData → Option (List (Option ℕ)))
    → Option (Option ℕ × BitmapIteratorData)
    → Option (List (Option ℕ))
collected later none = none
collected later (some (out, it)) = in_front out (later it)

-- A round, by what `has_next` says.
abbrev pub collect_round :
    (BitmapIteratorData → Option (List (Option ℕ)))
    → Bool × BitmapIteratorData
    → Option (List (Option ℕ))
collect_round later (false, it) = some []
collect_round later (true, it) = collected later (bitmap_iterator_next it)

-- The client's loop, `while (has_next(it)) next(it)`, for at most so many rounds.
unfoldable pub collect :
    (BitmapIteratorData → Bool × BitmapIteratorData)
    → ℕ
    → BitmapIteratorData
    → Option (List (Option ℕ))
collect has_next zero it = some []
collect has_next (suc f) it = collect_round (λ it'. collect has_next f it') (has_next it)

collect_round-found :
    (later : BitmapIteratorData → Option (List (Option ℕ))) (r : Bool × BitmapIteratorData)
    (it it' : BitmapIteratorData) (out : Option ℕ) (rest : List (Option ℕ))
    → r ≡ (true, it)
    → bitmap_iterator_next it ≡ some (out, it')
    → later it' ≡ some rest
    → collect_round later r ≡ some (out ∷ rest)
collect_round-found later r it it' out rest e n l = rw (e, n) (ap (in_front out) l)

module _ (search : List ℕ → ℕ → Option ℕ) (map : List ℕ) (test : ℕ → Bool) (size : ℕ)
    (finds : (start : ℕ) → FirstIn test start size (search map start)) where
  abbrev has_next : BitmapIteratorData → Bool × BitmapIteratorData
  has_next it = (
    is_found (search it.bitmap it.from),
    record { bitmap = it.bitmap; from = it.from; next = next_index (search it.bitmap it.from) },
  )

  collect_lem :
      (f start : ℕ) (next : NextIndex)
      → size ≤ start + f
      → collect has_next f (record { bitmap = map; from = start; next = next })
        ≡ some (positions test start (size - start))
  unfolding collect bitmap_iterator_next
  collect_lem zero start next h =
      ap some (sym (positions-none test start (size - start) (λ j g l. absurd (omega arith))))
  collect_lem (suc f) start next h =
      step (search map start) refl (finds start)
        (λ k g. collect_lem f (k + 1) (NextIndex.at_index k) (omega arith))
    where
      step :
          (out : Option ℕ)
          → search map start ≡ out
          → FirstIn test start size out
          → ((k : ℕ)
              → start ≤ k
              → collect has_next f
                  (record { bitmap = map; from = k + 1; next = NextIndex.at_index k })
                ≡ some (positions test (k + 1) (size - (k + 1))))
          → collect has_next (suc f) (record { bitmap = map; from = start; next = next })
            ≡ some (positions test start (size - start))
      step none e first later =
          rw (collect, e)
            (ap some
              (sym (positions-none test start (size - start) (λ j g l. first j g (omega arith)))))
      step (some k) e first later =
          collect_round-found (λ it'. collect has_next f it')
            (has_next (record { bitmap = map; from = start; next = next }))
            (record { bitmap = map; from = start; next = NextIndex.at_index k })
            (record { bitmap = map; from = k + 1; next = NextIndex.at_index k }) (some k)
            (positions test (k + 1) (size - (k + 1))) (rw e refl) refl (later k first.0)
          ∙ ap some (
              sym (
                positions-some test start (size - start) k (size - (k + 1)) first.0
                  (omega (arith, first.1, first.0)) first.2 first.3))

-- On a bitmap of less than 2^31 bytes, a client that asks has_next and next in turn on an iterator over the set bits is handed the
-- index of each set bit from the start on, below the bitmap's size, in order; as many rounds as
-- there are indices from the start on are enough.
collect-setted :
    (f : ℕ) (map : List ℕ) (start : ℕ)
    → bit_size map < 2 ^ 31
    → bit_size map ≤ start + f
    → collect setted_iterator_has_next f (bitmap_iterator_data_new map start)
      ≡ some (positions (λ j. bitmap_get map j) start (bit_size map - start))
unfolding bitmap_iterator_data_new
collect-setted f map start small h =
    collect_lem bitmap_next_setted map (λ j. bitmap_get map j) (bit_size map)
      (λ s. bitmap_next_setted-FirstIn map s small) f start NextIndex.will_find h

-- On a bitmap of less than 2^31 bytes, a client that asks has_next and next in turn on an iterator over the bits that are not set is
-- handed the index of each of them from the start on, below the bitmap's size, in order; as many
-- rounds as there are indices from the start on are enough.
collect-unsetted :
    (f : ℕ) (map : List ℕ) (start : ℕ)
    → bit_size map < 2 ^ 31
    → bit_size map ≤ start + f
    → collect unsetted_iterator_has_next f (bitmap_iterator_data_new map start)
      ≡ some (positions (λ j. not (bitmap_get map j)) start (bit_size map - start))
unfolding bitmap_iterator_data_new
collect-unsetted f map start small h =
    collect_lem bitmap_next_unsetted map (λ j. not (bitmap_get map j)) (bit_size map)
      (λ s. bitmap_next_unsetted-FirstIn map s small) f start NextIndex.will_find h

-- On a bitmap of less than 2^31 bytes, a client that asks has_next and next in turn on an
-- iterator over the set bits, or over those that are not set, is handed the index of each such
-- bit from the start on, below the bitmap's size, in order; as many rounds as there are indices
-- from the start on are enough.
pub collect-bitmap_iterators :
    (f : ℕ) (map : List ℕ) (start : ℕ)
    → bit_size map < 2 ^ 31
    → bit_size map ≤ start + f
    → (collect setted_iterator_has_next f (bitmap_iterator_data_new map start)
        ≡ some (positions (λ j. bitmap_get map j) start (bit_size map - start)))
      × (collect unsetted_iterator_has_next f (bitmap_iterator_data_new map start)
          ≡ some (positions (λ j. not (bitmap_get map j)) start (bit_size map - start)))
collect-bitmap_iterators f map start small h =
    (collect-setted f map start small h, collect-unsetted f map start small h)
