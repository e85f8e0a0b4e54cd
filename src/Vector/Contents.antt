-- ===== src/Vector/Contents.antt =====
-- vector.c against the list of its elements.
use latte_c.Prelude.{
  ℕ, zero, suc, ◌+◌, ◌-◌, ◌*◌, ◌%◌, ◌≤◌, ◌<◌, ◌≡◌, refl, ap, sym, ◌∙◌, ℤ, pos, negsuc, ltb, leb,
  ◌==◌, if◌then◌else◌, true, false, Bool-cases, inl, inr, ◌⊎◌, List, [], ◌∷◌, ◌++◌, length, get_or,
  set, take, drop, length-set, take-set, take-set_end, take-suc, get_or-take, get_or-out,
  length-take, arith, set-out, drop-all, drop-step, ltb→lt,
}
use latte_c.Vector.{
  Vector, vector_get, vector_set, vector_pop, vector_resize, vector_push, append_cell, expanded,
  vector_expand_internal, vector_shrink, unsigned_long, VectorIterator, vector_get_iterator,
  vector_iterator_has_next, vector_iterator_next,
}

-- The cells are `capacity` many, and hold the elements.
pub record IsValid (v : Vector) : Type 0 where
  pub sized : length v.cells ≡ v.capacity
  pub fits : v.count ≤ v.capacity

abbrev pub contents : Vector → List ℕ
contents v = take v.count v.cells

pub length-contents : (v : Vector) → IsValid v → length (contents v) ≡ v.count
length-contents v w = length-take v.count v.cells (rw w.sized w.fits)

-- Inside and outside, `vector_get` reads the contents.
pub vector_get-contents :
    (v : Vector) (i : ℕ) → IsValid v → vector_get v i ≡ get_or (contents v) i 0
unfolding vector_get
vector_get-contents v i w = elim (Bool-cases (leb v.count i)) [
  | inl e ↦ rw e (sym (get_or-out (contents v) i 0 (rw (length-contents v w) (le_of v.count i e))))
  | inr e ↦ rw e (sym (get_or-take v.count v.cells i 0 (lt_of v.count i e)))
]
  where
    le_of : (m n : ℕ) → leb m n ≡ true → m ≤ n
    le_of m n e = ground arith

    lt_of : (m n : ℕ) → leb m n ≡ false → n < m
    lt_of m n e = ground arith

-- What a change of the capacity leaves: the elements, and no fewer cells; and either -1 and no
-- change, or 0 and so many cells at least.
pub record Grown (v : Vector) (n : ℕ) (out : Vector × ℤ) : Type 0 where
  pub valid : IsValid out.0
  pub kept : contents out.0 ≡ contents v
  pub no_smaller : v.capacity ≤ out.0.capacity
  pub status : ((out.1 ≡ negsuc 0) × (out.0 ≡ v)) ⊎ ((out.1 ≡ pos 0) × (n ≤ out.0.capacity))

Grown-fail : (v : Vector) (n : ℕ) → IsValid v → Grown v n (v, negsuc 0)
Grown-fail v n w = record {
  valid = w;
  kept = refl;
  no_smaller = omega arith;
  status = inl (refl, refl);
}

Grown-keep : (v : Vector) (n : ℕ) → IsValid v → n ≤ v.capacity → Grown v n (v, pos 0)
Grown-keep v n w h = record {
  valid = w;
  kept = refl;
  no_smaller = omega arith;
  status = inr (refl, h);
}

-- What `realloc` does: a block of the size that was asked for, with the old cells in front.
pub record IsRealloc (zrealloc : List ℕ → ℕ → List ℕ) : Type 0 where
  pub length_resized : (cells : List ℕ) (n : ℕ) → length (zrealloc cells n) ≡ n
  pub keeps :
      (cells : List ℕ) (n k : ℕ)
      → k ≤ n
      → k ≤ length cells
      → take k (zrealloc cells n) ≡ take k cells

module _ (zrealloc : List ℕ → ℕ → List ℕ) (r : IsRealloc zrealloc) where
  vector_resize_lem :
      (v : Vector) (n : ℕ)
      → IsValid v
      → v.count ≤ n
      → IsValid (vector_resize zrealloc v n) × (contents (vector_resize zrealloc v n) ≡ contents v)
  unfolding vector_resize
  vector_resize_lem v n w h = (
    record { sized = r.length_resized v.cells n; fits = h },
    r.keeps v.cells n v.count h (rw w.sized w.fits),
  )

  append_cell_lem :
      (v : Vector) (x : ℕ)
      → IsValid v
      → v.count < v.capacity
      → IsValid (append_cell x v) × (contents (append_cell x v) ≡ contents v ++ x ∷ [])
  append_cell_lem v x w h = (
    record { sized = length-set v.cells v.count x ∙ w.sized; fits = omega arith },
    ap_take ∙ take-set_end v.count v.cells x (rw w.sized h),
  )
    where
      ap_take :
          take (v.count + 1) (set v.cells v.count x) ≡ take (suc v.count) (set v.cells v.count x)
      ap_take = ap (λ j. take j (set v.cells v.count x)) {y = suc v.count} (omega arith)

  -- Where realloc gives a block of the size asked for, with the old cells in front: on a valid
  -- vector of less than 2^60 cells, vector_push returns 0 and appends the element, and the vector
  -- stays valid (its cells are as many as its capacity, and hold its elements).
  pub vector_push_lem :
      (v : Vector) (x : ℕ)
      → IsValid v
      → v.capacity < 1152921504606846976
      → IsValid (vector_push zrealloc v x).0
        × (contents (vector_push zrealloc v x).0 ≡ contents v ++ x ∷ [])
        × ((vector_push zrealloc v x).1 ≡ 0)
  unfolding vector_push vector_resize
  vector_push_lem v x w h = elim (Bool-cases (v.count == v.capacity)) [
    | inl e ↦
        let n = if v.capacity == 0 then 1 else (v.capacity * 2) % 18446744073709551616 in
        let room = grows v.count v.capacity h w.fits in
        let (valid, old) = vector_resize_lem v n w (omega arith) in
        let (valid', all) = append_cell_lem (vector_resize zrealloc v n) x valid room in
        rw (e, vector_push) (valid', all ∙ ap (λ t. t ++ x ∷ []) old, refl)
    | inr e ↦
        let (valid, all) = append_cell_lem v x w (not_full v.count v.capacity e w.fits) in
        rw (e, vector_push) (valid, all, refl)
  ]
    where
      grows :
          (m c : ℕ)
          → c < 1152921504606846976
          → m ≤ c
          → m < (if c == 0 then 1 else (c * 2) % 18446744073709551616)
      grows m c h g = ground arith

      not_full : (m c : ℕ) → (m == c) ≡ false → m ≤ c → m < c
      not_full m c e h = ground arith

  vector_expand_internal-Grown :
      (v : Vector) (max : ℕ)
      → IsValid v
      → v.count ≤ max
      → Grown v max (vector_expand_internal zrealloc v max)
  unfolding vector_expand_internal vector_resize expanded
  vector_expand_internal-Grown v max w h = elim (Bool-cases (ltb max v.capacity)) [
    | inl e ↦ rw (e, vector_expand_internal) (Grown-keep v max w (lt_le max v.capacity e))
    | inr e ↦ elim (Bool-cases (ltb 2305843009213693951 (expanded v.capacity max))) [
      | inl q ↦ rw (e, q, vector_expand_internal) (Grown-fail v max w)
      | inr q ↦
          let (more, enough) = expanded_lem v.capacity max e in
          let (valid, all) = vector_resize_lem v (expanded v.capacity max) w (omega arith) in
          rw (e, q, vector_expand_internal)
            (record { valid = valid; kept = all; no_smaller = more; status = inr (refl, enough) })
    ]
  ]
    where
      lt_le : (m c : ℕ) → ltb m c ≡ true → m ≤ c
      lt_le m c e = ground arith

      expanded_lem : (c m : ℕ) → ltb m c ≡ false → (c ≤ expanded c m) × (m ≤ expanded c m)
      expanded_lem c m e = ground arith

  -- Where realloc gives a block of the size asked for, with the old cells in front: on a valid
  -- vector of less than 2^61 - 1 elements: vector_shrink keeps the elements and never gives a
  -- cell back, the capacity does not fall. It returns -1 and changes nothing, or returns 0, and
  -- there is room for so many more elements. The vector stays valid.
  pub vector_shrink-Grown :
      (v : Vector) (n : ℤ)
      → IsValid v
      → v.count < 2305843009213693951
      → Grown v (v.count + unsigned_long n) (vector_shrink zrealloc v n)
  unfolding vector_shrink
  vector_shrink-Grown v n w h =
      let u = unsigned_long n in
      let room = (2305843009213693951 + (18446744073709551616 - v.count)) % 18446744073709551616 in
      let size = (v.count + u) % 18446744073709551616 in
      elim (Bool-cases (leb room u)) [
        | inl e ↦ rw (e, vector_shrink) (Grown-fail v (v.count + u) w)
        | inr e ↦
            let exact : size ≡ v.count + u = no_wrap v.count u h e in
            elim (Bool-cases (size == v.count)) [
              | inl q ↦
                  rw (e, q, vector_shrink)
                    (Grown-keep v (v.count + u) w
                      (rw (← exact) (eq_le size v.count v.capacity q w.fits)))
              | inr q ↦
                  rw (e, q, more v.count u size exact q, vector_shrink)
                    (rw exact (vector_expand_internal-Grown v (v.count + u) w (omega arith)))
            ]
      ]
    where
      no_wrap :
          (c u : ℕ)
          → c < 2305843009213693951
          → leb ((2305843009213693951 + (18446744073709551616 - c)) % 18446744073709551616) u
            ≡ false
          → (c + u) % 18446744073709551616 ≡ c + u
      no_wrap c u h e = ground arith

      eq_le : (s c d : ℕ) → (s == c) ≡ true → c ≤ d → s ≤ d
      eq_le s c d q h = ground arith

      more : (c u s : ℕ) → s ≡ c + u → (s == c) ≡ false → ltb c s ≡ true
      more c u s e q = ground arith

-- vector_pop of an empty valid vector gives NULL and changes nothing; of any other it takes off
-- the last element, which it returns; the vector stays valid.
vector_pop_lem :
    (v : Vector)
    → IsValid v
    → IsValid (vector_pop v).1
      × (((contents v ≡ []) × (vector_pop v ≡ (0, v)))
          ⊎ (contents v ≡ contents (vector_pop v).1 ++ (vector_pop v).0 ∷ []))
unfolding vector_pop
vector_pop_lem v w = elim (Bool-cases (v.count == 0)) [
  | inl e ↦ rw (e, vector_pop) (w, inl (ap (λ k. take k v.cells) {y = 0} (zero_of v.count e), refl))
  | inr e ↦
      rw (e, vector_pop)
        (
          record { sized = w.sized; fits = omega (arith, w.fits) },
          inr (
              ap (λ k. take k v.cells) {y = suc (v.count - 1)} (positive v.count e)
              ∙ take-suc (v.count - 1) v.cells 0 (rw w.sized (inside v.count v.capacity e w.fits))),
        )
]
  where
    zero_of : (n : ℕ) → (n == 0) ≡ true → n ≡ 0
    zero_of n e = ground arith

    positive : (n : ℕ) → (n == 0) ≡ false → n ≡ suc (n - 1)
    positive n e = ground arith

    inside : (n c : ℕ) → (n == 0) ≡ false → n ≤ c → n - 1 < c
    inside n c e h = ground arith

-- On a valid vector vector_set replaces the element at an index below the count, and changes
-- nothing at any other; the vector stays valid.
vector_set_lem :
    (v : Vector) (i x : ℕ)
    → IsValid v
    → IsValid (vector_set v i x) × (contents (vector_set v i x) ≡ set (contents v) i x)
unfolding vector_set
vector_set_lem v i x w = elim (Bool-cases (leb v.count i)) [
  | inl e ↦
      rw (e, vector_set)
        (w, sym (set-out (contents v) i x (rw (length-contents v w) (le_of v.count i e))))
  | inr e ↦
      rw (e, vector_set)
        (
          record { sized = length-set v.cells i x ∙ w.sized; fits = w.fits },
          take-set v.count v.cells i x,
        )
]
  where
    le_of : (m n : ℕ) → leb m n ≡ true → m ≤ n
    le_of m n e = ground arith

-- A client's loop over the iterator, for at most so many rounds.
unfoldable pub collect : ℕ → VectorIterator → List ℕ
collect zero it = []
collect (suc f) it =
    let rest = collect f (vector_iterator_next it).1 in
    if vector_iterator_has_next it then (vector_iterator_next it).0 ∷ rest else []

collect-from :
    (f : ℕ) (v : Vector) (i : ℕ)
    → IsValid v
    → v.count ≤ i + f
    → collect f (record { v = v; index = i }) ≡ drop i (contents v)
unfolding collect vector_iterator_has_next vector_iterator_next
collect-from zero v i w h = sym (drop-all (contents v) i (rw (length-contents v w) (omega arith)))
collect-from (suc f) v i w h = elim (Bool-cases (ltb i v.count)) [
  | inl e ↦
      rw (e, collect, collect-from f v (i + 1) w (omega arith), vector_get-contents v i w)
        (sym
          (drop-step (contents v) i (i + 1) 0 (rw (length-contents v w) (ltb→lt i v.count e)) refl))
  | inr e ↦
      rw (e, collect)
        (sym (drop-all (contents v) i (rw (length-contents v w) (not_lt i v.count e))))
]
  where
    not_lt : (m n : ℕ) → ltb m n ≡ false → n ≤ m
    not_lt m n e = ground arith

-- A client that asks has_next and next in turn on the iterator of a valid vector is handed the
-- elements in order; as many rounds as there are elements are enough.
pub collect-vector_get_iterator :
    (f : ℕ) (v : Vector) → IsValid v → v.count ≤ f → collect f (vector_get_iterator v) ≡ contents v
unfolding vector_get_iterator
collect-vector_get_iterator f v w h = collect-from f v 0 w (omega arith)
