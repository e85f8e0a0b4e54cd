-- ===== src/Vector/Search.antt =====
-- The two searches of vector.c: vector_remove and vector_add.
use latte_c.Prelude.{
  ℕ, zero, suc, ◌+◌, ◌≤◌, ◌<◌, ◌≡◌, ◌≢◌, refl, ap, ◌∙◌, leb, ◌==◌, if◌then◌else◌, true, false,
  Bool-cases, inl, inr, ◌⊎◌, Option, none, some, List, [], ◌∷◌, ◌++◌, length, get_or, set,
  length-set, take-set, length-append, get_or-set_ne, arith,
}
use latte_c.Vector.{
  Vector, vector_get, vector_push, vector_add, vector_remove, remove_from, first_null,
}
use latte_c.Vector.Contents.{IsValid, IsRealloc, contents, length-contents, vector_push_lem}

-- An element after the removal of all that equal `element`.
abbrev pub nulled : ℕ → ℕ → ℕ
nulled element x = if x == element then 0 else x

get_or-set_null : (xs : List ℕ) (i : ℕ) → get_or (set xs i 0) i 0 ≡ 0
get_or-set_null [] i = refl
get_or-set_null (x ∷ xs) zero = refl
get_or-set_null (x ∷ xs) (suc i) = get_or-set_null xs i

module _ (element : ℕ) where
  -- One round of the loop.
  abbrev round : List ℕ → ℕ → List ℕ
  round cells i = if get_or cells i 0 == element then set cells i 0 else cells

  get_or-round_self :
      (cells : List ℕ) (i : ℕ) → get_or (round cells i) i 0 ≡ nulled element (get_or cells i 0)
  get_or-round_self cells i = elim (Bool-cases (get_or cells i 0 == element)) [
    | inl e ↦ rw e (get_or-set_null cells i)
    | inr e ↦ rw e refl
  ]

  get_or-round_ne :
      (cells : List ℕ) (i j : ℕ) → i ≢ j → get_or (round cells i) j 0 ≡ get_or cells j 0
  get_or-round_ne cells i j n = elim (Bool-cases (get_or cells i 0 == element)) [
    | inl e ↦ rw e (get_or-set_ne cells 0 0 n)
    | inr e ↦ rw e refl
  ]

  length-round : (cells : List ℕ) (i : ℕ) → length (round cells i) ≡ length cells
  length-round cells i = elim (Bool-cases (get_or cells i 0 == element)) [
    | inl e ↦ rw e (length-set cells i 0)
    | inr e ↦ rw e refl
  ]

  length-remove_from :
      (cells : List ℕ) (i left : ℕ) → length (remove_from element cells i left) ≡ length cells
  unfolding remove_from
  length-remove_from cells i zero = refl
  length-remove_from cells i (suc left) =
      length-remove_from (round cells i) (i + 1) left ∙ length-round cells i

  get_or-remove_from_before :
      (cells : List ℕ) (i left j : ℕ)
      → j < i
      → get_or (remove_from element cells i left) j 0 ≡ get_or cells j 0
  unfolding remove_from
  get_or-remove_from_before cells i zero j h = refl
  get_or-remove_from_before cells i (suc left) j h =
      get_or-remove_from_before (round cells i) (i + 1) left j (omega arith)
      ∙ get_or-round_ne cells i j (λ e. absurd (omega arith))

  get_or-remove_from :
      (cells : List ℕ) (i left j : ℕ)
      → i ≤ j
      → j < i + left
      → get_or (remove_from element cells i left) j 0 ≡ nulled element (get_or cells j 0)
  unfolding remove_from
  get_or-remove_from cells i zero j h g = absurd (omega arith)
  get_or-remove_from cells i (suc left) j h g = elim (same_or_later i j h) [
    | inl e ↦ rw (← e) (
        get_or-remove_from_before (round cells i) (i + 1) left i (omega arith)
        ∙ get_or-round_self cells i)
    | inr l ↦
        get_or-remove_from (round cells i) (i + 1) left j l (omega arith)
        ∙ ap (nulled element) (get_or-round_ne cells i j (λ e. absurd (omega arith)))
  ]
    where
      same_or_later : (i j : ℕ) → i ≤ j → (i ≡ j) ⊎ (i + 1 ≤ j)
      same_or_later i j h = elim (Bool-cases (i == j)) [
        | inl e ↦ inl (ground arith)
        | inr e ↦ inr (ground arith)
      ]

-- On a valid vector vector_remove sets every element that equals the given one to NULL, and no
-- other; no element moves, the count stays and the vector stays valid.
pub vector_remove_lem :
    (v : Vector) (element j : ℕ)
    → IsValid v
    → IsValid (vector_remove v element)
      × ((vector_remove v element).count ≡ v.count)
      × (vector_get (vector_remove v element) j ≡ nulled element (vector_get v j))
unfolding vector_remove vector_get
vector_remove_lem v element j w = (
  record { sized = length-remove_from element v.cells 0 v.count ∙ w.sized; fits = w.fits },
  refl,
  elim (Bool-cases (leb v.count j)) [
    | inl e ↦ rw e (null_stays element)
    | inr e ↦
        rw e (get_or-remove_from element v.cells 0 v.count j (omega arith) (lt_of v.count j e))
  ],
)
  where
    null_stays : (x : ℕ) → 0 ≡ nulled x 0
    null_stays x = elim (Bool-cases (0 == x)) [ inl e ↦ rw e refl | inr e ↦ rw e refl ]

    lt_of : (m n : ℕ) → leb m n ≡ false → n < 0 + m
    lt_of m n e = ground arith

-- The first NULL from index `i` among so many cells.
abbrev Found : List ℕ → ℕ → ℕ → Option ℕ → Type 0
Found cells i left none = (j : ℕ) → i ≤ j → j < i + left → get_or cells j 0 ≢ 0
Found cells i left (some k) =
    (i ≤ k)
    × (k < i + left)
    × (get_or cells k 0 ≡ 0)
    × ((j : ℕ) → i ≤ j → j < k → get_or cells j 0 ≢ 0)

first_null-Found : (cells : List ℕ) (i left : ℕ) → Found cells i left (first_null cells i left)
unfolding first_null
first_null-Found cells i zero = λ j h g. absurd (omega arith)
first_null-Found cells i (suc left) = elim (Bool-cases (get_or cells i 0 == 0)) [
  | inl e ↦
      rw (e, first_null)
        (omega arith, omega arith, is_null (get_or cells i 0) e, λ j h g. absurd (omega arith))
  | inr e ↦
      rw (e, first_null)
        (widen (first_null cells (i + 1) left) (not_null (get_or cells i 0) e)
          (first_null-Found cells (i + 1) left))
]
  where
    is_null : (x : ℕ) → (x == 0) ≡ true → x ≡ 0
    is_null x e = ground arith

    not_null : (x : ℕ) → (x == 0) ≡ false → x ≢ 0
    not_null x e q = ground arith

    here : (j : ℕ) → i ≤ j → ¬ (i + 1 ≤ j) → i ≡ j
    here j h n = omega arith

    step : (j : ℕ) → i ≤ j → (i ≡ j) ⊎ (i + 1 ≤ j)
    step j h = elim (Bool-cases (i == j)) [
      | inl e ↦ inl (ground arith)
      | inr e ↦ inr (ground arith)
    ]

    widen :
        (out : Option ℕ)
        → get_or cells i 0 ≢ 0
        → Found cells (i + 1) left out
        → Found cells i (suc left) out
    widen none n f = λ j h g. elim (step j h) [ inl e ↦ rw (← e) n | inr l ↦ f j l (omega arith) ]
    widen (some k) n f = (
      omega arith,
      omega arith,
      f.2,
      λ j h g. elim (step j h) [ inl e ↦ rw (← e) n | inr l ↦ f.3 j l g ],
    )

-- With such a realloc, on a valid vector of less than 2^60 cells: vector_add puts the element in
-- place of the first NULL and returns its index, or appends it where no element is NULL and
-- returns the old count; the vector stays valid.
pub vector_add_lem :
    (zrealloc : List ℕ → ℕ → List ℕ) (r : IsRealloc zrealloc) (v : Vector) (x : ℕ)
    → IsValid v
    → v.capacity < 1152921504606846976
    → IsValid (vector_add zrealloc v x).0
      × ((k : ℕ) × ((vector_add zrealloc v x).1 ≡ k)
          × ((j : ℕ) → j < k → get_or v.cells j 0 ≢ 0)
          × (((k < v.count)
                × (get_or v.cells k 0 ≡ 0)
                × (contents (vector_add zrealloc v x).0 ≡ set (contents v) k x))
              ⊎ ((k ≡ v.count) × (contents (vector_add zrealloc v x).0 ≡ contents v ++ x ∷ []))))
unfolding vector_add
vector_add_lem zrealloc r v x w h =
    go (first_null v.cells 0 v.count) refl (first_null-Found v.cells 0 v.count)
  where
    go :
        (out : Option ℕ)
        → first_null v.cells 0 v.count ≡ out
        → Found v.cells 0 v.count out
        → IsValid (vector_add zrealloc v x).0
          × ((k : ℕ) × ((vector_add zrealloc v x).1 ≡ k)
              × ((j : ℕ) → j < k → get_or v.cells j 0 ≢ 0)
              × (((k < v.count)
                    × (get_or v.cells k 0 ≡ 0)
                    × (contents (vector_add zrealloc v x).0 ≡ set (contents v) k x))
                  ⊎ ((k ≡ v.count)
                      × (contents (vector_add zrealloc v x).0 ≡ contents v ++ x ∷ []))))
    go none e f =
        let (valid, all, zero_status) = vector_push_lem zrealloc r v x w h in
        rw (e, vector_add)
          (
            valid,
            (
              v.count,
              omega (
                arith,
                length-contents (vector_push zrealloc v x).0 valid,
                ap length all,
                length-append (contents v) (x ∷ []),
                length-contents v w,
              ),
              (λ j g. f j (omega arith) (omega arith)),
              inr (refl, all),
            ),
          )
    go (some k) e f =
        rw (e, vector_add)
          (
            record { sized = length-set v.cells k x ∙ w.sized; fits = w.fits },
            (
              k,
              refl,
              (λ j g. f.3 j (omega arith) g),
              inl (omega arith, f.2, take-set v.count v.cells k x),
            ),
          )
