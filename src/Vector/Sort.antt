-- ===== src/Vector/Sort.antt =====
-- The sort of vector/vector.c, a quicksort. An `int` that may be -1 is kept one higher: `i` is `i + 1` of
-- the code's variable, and `end` is `hight + 1`.
use latte_c.Prelude.{
  ◌>>=◌, ℕ, zero, suc, ◌+◌, ◌-◌, ltb, true, false, Option, none, some, List, get_or, set, sign,
  below, same, above,
}
use latte_c.Cmp.{CmpFunc}
use latte_c.Vector.{Vector}

unfoldable pub swap : ℕ → ℕ → List ℕ → List ℕ
swap a b cells = set (set cells a (get_or cells b 0)) b (get_or cells a 0)

abbrev pub place_pivot : ℕ → List ℕ × ℕ → List ℕ × ℕ
place_pivot high (arr, i) = (swap i high arr, i)

abbrev pub sort_parts : (List ℕ → ℕ → ℕ → Option (List ℕ)) → ℕ → ℕ → List ℕ × ℕ → Option (List ℕ)
sort_parts sort low end (arr, pi) = sort arr low pi >>= λ arr'. sort arr' (pi + 1) end

abbrev pub with_cells : Vector → List ℕ → Vector
with_cells v cells = record { cells = cells; capacity = v.capacity; count = v.count }

module _ (c : CmpFunc ℕ) where
  -- The loop of `partition` from index `j`, with so many rounds left.
  unfoldable pub partition_from : ℕ → ℕ → ℕ → ℕ → List ℕ → List ℕ × ℕ
  partition_from pivot i j zero arr = (arr, i)
  partition_from pivot i j (suc left) arr = elim (sign (c (get_or arr j 0) pivot)) [
    | above ↦ partition_from pivot i (j + 1) left arr
    | below ↦ partition_from pivot (i + 1) (j + 1) left (swap i j arr)
    | same ↦ partition_from pivot (i + 1) (j + 1) left (swap i j arr)
  ]

  -- The cells and the index of the pivot.
  unfoldable pub partition : List ℕ → ℕ → ℕ → List ℕ × ℕ
  partition arr low high =
      place_pivot high (partition_from (get_or arr high 0) low low (high - low) arr)

  -- On fuel: one more than the cells from `low` to `end` is enough.
  unfoldable pub quick_sort : ℕ → List ℕ → ℕ → ℕ → Option (List ℕ)
  quick_sort zero array low end = none
  quick_sort (suc f) array low end = elim (ltb (low + 1) end) [
    | false ↦ some array
    | true ↦ sort_parts (λ arr l e. quick_sort f arr l e) low end (partition array low (end - 1))
  ]

  unfoldable pub vector_sort : Vector → Option Vector
  vector_sort v = quick_sort (v.count + 1) v.cells 0 v.count >>= λ cells. some (with_cells v cells)
