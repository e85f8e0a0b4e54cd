-- ===== src/Vector/Examples.antt =====
-- Runs of vector.c on small vectors, and the theorems at such inputs.
use latte_c.Prelude.{
  ℕ, zero, suc, ◌+◌, ◌/◌, ◌≤◌, ◌≡◌, refl, ap, pos, List, [], ◌∷◌, ◌++◌, length, take, some,
  if◌then◌else◌, ltb, negsuc, arith, sign,
}
use latte_c.Cmp.{CmpFunc, IsPreorder, private_uint64_cmp}
use latte_c.Vector.{
  Vector, vector_push, vector_shrink, private_vector_cmp, vector_expand_internal, vector_resize,
  unsigned_long,
}
use latte_c.Vector.Contents.{
  IsValid, contents, IsRealloc, Grown, vector_push_lem, vector_shrink-Grown,
}
use latte_c.Vector.Sort.{swap, partition_from, partition, quick_sort, vector_sort}
use latte_c.Vector.Sorted.{IsSortOf, vector_sort_lem}
use latte_c.Vector.Compare.{shortlex, private_vector_cmp_lem}

-- A `realloc` that leaves 7 in the new cells.
abbrev resized : List ℕ → ℕ → List ℕ
resized cells zero = []
resized [] (suc n) = 7 ∷ resized [] n
resized (x ∷ xs) (suc n) = x ∷ resized xs n

resized-IsRealloc : IsRealloc resized
resized-IsRealloc = record { length_resized = lengths; keeps = keeps }
  where
    lengths : (cells : List ℕ) (n : ℕ) → length (resized cells n) ≡ n
    lengths cells zero = refl
    lengths [] (suc n) = ap suc (lengths [] n)
    lengths (x ∷ xs) (suc n) = ap suc (lengths xs n)

    keeps :
        (cells : List ℕ) (n k : ℕ)
        → k ≤ n
        → k ≤ length cells
        → take k (resized cells n) ≡ take k cells
    keeps cells n zero h g = refl
    keeps [] n (suc k) h g = absurd (omega arith)
    keeps (x ∷ xs) zero (suc k) h g = absurd (omega arith)
    keeps (x ∷ xs) (suc n) (suc k) h g = ap (λ t. x ∷ t) (keeps xs n k (omega arith) (omega arith))

-- Three elements, one of them NULL, in a full array of three.
abbrev sample : Vector
sample = record { cells = 5 ∷ 0 ∷ 9 ∷ []; capacity = 3; count = 3 }

-- The same with 6 for NULL.
abbrev without_null : Vector
without_null = record { cells = 5 ∷ 6 ∷ 9 ∷ []; capacity = 3; count = 3 }

sample-IsValid : IsValid sample
sample-IsValid = record { sized = refl; fits = omega arith }

without_null-IsValid : IsValid without_null
without_null-IsValid = record { sized = refl; fits = omega arith }

push_four :
    vector_push resized sample 4
    ≡ (record { cells = 5 ∷ 0 ∷ 9 ∷ 4 ∷ 7 ∷ 7 ∷ []; capacity = 6; count = 4 }, 0)
unfolding vector_push vector_resize
push_four = refl

-- No slot is asked for, and none of the free ones is given back.
shrink_keeps :
    vector_shrink resized (record { cells = 5 ∷ 7 ∷ 7 ∷ 7 ∷ []; capacity = 4; count = 1 }) (pos 1)
    ≡ (record { cells = 5 ∷ 7 ∷ 7 ∷ 7 ∷ []; capacity = 4; count = 1 }, pos 0)
unfolding vector_shrink vector_expand_internal
shrink_keeps = refl

vector_push_lem_example :
    IsValid (vector_push resized sample 4).0
    × (contents (vector_push resized sample 4).0 ≡ contents sample ++ 4 ∷ [])
    × ((vector_push resized sample 4).1 ≡ 0)
vector_push_lem_example =
    vector_push_lem resized resized-IsRealloc sample 4 sample-IsValid (omega arith)

vector_shrink-Grown_example :
    Grown sample (sample.count + unsigned_long (pos 2)) (vector_shrink resized sample (pos 2))
vector_shrink-Grown_example =
    vector_shrink-Grown resized resized-IsRealloc sample (pos 2) sample-IsValid (omega arith)

private_vector_cmp_lem_example :
    sign (private_vector_cmp sample without_null private_uint64_cmp)
    ≡ shortlex private_uint64_cmp (contents sample) (contents without_null)
private_vector_cmp_lem_example =
    private_vector_cmp_lem private_uint64_cmp sample without_null sample-IsValid
      without_null-IsValid (omega arith) (omega arith)

-- By the half: 4 and 5 compare as the same.
abbrev by_half : CmpFunc ℕ
by_half a b = if ltb (b / 2) (a / 2) then pos 1 else if ltb (a / 2) (b / 2) then negsuc 0 else pos 0

by_half-IsPreorder : IsPreorder by_half
by_half-IsPreorder = record {
  le_trans = λ a b c h k. ground arith;
  le_of_above = λ a b h. ground arith;
}

-- In an array with room for one more.
abbrev shuffled : Vector
shuffled = record { cells = 5 ∷ 9 ∷ 0 ∷ 4 ∷ 7 ∷ []; capacity = 5; count = 4 }

sort_shuffled :
    vector_sort by_half shuffled
    ≡ some (record { cells = 0 ∷ 5 ∷ 4 ∷ 9 ∷ 7 ∷ []; capacity = 5; count = 4 })
unfolding vector_sort quick_sort partition partition_from swap
sort_shuffled = refl

vector_sort_lem_example : IsSortOf by_half shuffled (vector_sort by_half shuffled)
vector_sort_lem_example =
    vector_sort_lem by_half by_half-IsPreorder shuffled
      (record { sized = refl; fits = omega arith }) (omega arith)
