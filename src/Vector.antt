-- ===== src/Vector.antt =====
-- vector/vector.c and vector/vector.h: a growing array of pointers. The modules below hold the
-- proofs.
--
-- A pointer is a number and NULL is 0. `data` is `cells`, the list of the array's cells; `zrealloc`, which
-- gives the cells of the new block, is a parameter, and succeeds. A `size_t` has 64 bits; counts of
-- cells are in cells, `sizeof(void*)` being 8.
pub mod Contents
pub mod Search
pub mod Compare
pub mod Sort
pub mod Partition
pub mod Ascends
pub mod Sorted
mod Examples
use latte_c.Prelude.{
  ℕ, zero, suc, ◌+◌, ◌-◌, ◌*◌, ◌%◌, ℤ, pos, negsuc, sub_ℕ, ltb, leb, ◌==◌, if◌then◌else◌, Bool,
  true, false, Option, none, some, List, [], ◌∷◌, get_or, set, sign, below, same, above,
}
use latte_c.Cmp.{CmpFunc}

pub record Vector : Type 0 where
  pub cells : List ℕ
  pub capacity : ℕ
  pub count : ℕ

unfoldable pub vector_new : Vector
vector_new = record { cells = []; capacity = 0; count = 0 }

-- An index from `count` on is not read.
unfoldable pub vector_get : Vector → ℕ → ℕ
vector_get v index = if leb v.count index then 0 else get_or v.cells index 0

unfoldable pub vector_set : Vector → ℕ → ℕ → Vector
vector_set v index element =
    if leb v.count index
    then v
    else record { cells = set v.cells index element; capacity = v.capacity; count = v.count }

-- The element, NULL for an empty vector, and what is left.
unfoldable pub vector_pop : Vector → ℕ × Vector
vector_pop v = if v.count == 0 then (0, v) else (
  get_or v.cells (v.count - 1) 0,
  record { cells = v.cells; capacity = v.capacity; count = v.count - 1 },
)

-- `(unsigned long)n` of an `int`.
abbrev pub unsigned_long : ℤ → ℕ
unsigned_long (pos n) = n
unsigned_long (negsuc n) = 18446744073709551615 - n

-- `v->data[v->count++] = element`
abbrev pub append_cell : ℕ → Vector → Vector
append_cell element v = record {
  cells = set v.cells v.count element;
  capacity = v.capacity;
  count = v.count + 1;
}

-- The size that `vector_expand_internal` asks for.
unfoldable pub expanded : ℕ → ℕ → ℕ
expanded capacity max =
    if leb 9223372036854775807 capacity
    then max
    else if ltb (capacity * 2) max
    then max
    else capacity * 2

-- The loop of `vector_add` from index `i`, with so many cells left: the first NULL.
unfoldable pub first_null : List ℕ → ℕ → ℕ → Option ℕ
first_null cells i zero = none
first_null cells i (suc left) =
    let later = first_null cells (i + 1) left in if get_or cells i 0 == 0 then some i else later

module _ (zrealloc : List ℕ → ℕ → List ℕ) where
  unfoldable pub vector_resize : Vector → ℕ → Vector
  vector_resize v new_capacity = record {
    cells = zrealloc v.cells new_capacity;
    capacity = new_capacity;
    count = v.count;
  }

  unfoldable pub vector_push : Vector → ℕ → Vector × ℕ
  vector_push v element =
      if v.count == v.capacity
      then (
        append_cell element (
            vector_resize v
              (if v.capacity == 0 then 1 else (v.capacity * 2) % 18446744073709551616)),
        0,
      )
      else (append_cell element v, 0)

  unfoldable pub vector_expand_internal : Vector → ℕ → Vector × ℤ
  vector_expand_internal v max =
      let new_size = expanded v.capacity max in
      if ltb max v.capacity
      then (v, pos 0)
      else if ltb 2305843009213693951 new_size
      then (v, negsuc 0)
      else (vector_resize v new_size, pos 0)

  unfoldable pub vector_shrink : Vector → ℤ → Vector × ℤ
  vector_shrink v empty_slots =
      let room = (2305843009213693951 + (18446744073709551616 - v.count)) % 18446744073709551616 in
      let new_size = (v.count + unsigned_long empty_slots) % 18446744073709551616 in
      let least = if new_size == 0 then 1 else new_size in
      if leb room (unsigned_long empty_slots)
      then (v, negsuc 0)
      else if new_size == v.count
      then (v, pos 0)
      else if ltb v.count new_size
      then vector_expand_internal v new_size
      else (vector_resize v least, pos 0)

  -- The index that it returns, as the `int` it is for a vector of less than 2^31 elements.
  unfoldable pub vector_add : Vector → ℕ → Vector × ℕ
  vector_add v element = elim (first_null v.cells 0 v.count) [
    | some i ↦ (record { cells = set v.cells i element; capacity = v.capacity; count = v.count }, i)
    | none ↦ ((vector_push v element).0, (vector_push v element).0.count - 1)
  ]

-- The loop of `vector_remove` from index `i`, with so many cells left.
unfoldable pub remove_from : ℕ → List ℕ → ℕ → ℕ → List ℕ
remove_from element cells i zero = cells
remove_from element cells i (suc left) =
    remove_from element (if get_or cells i 0 == element then set cells i 0 else cells) (i + 1) left

unfoldable pub vector_remove : Vector → ℕ → Vector
vector_remove v element = record {
  cells = remove_from element v.cells 0 v.count;
  capacity = v.capacity;
  count = v.count;
}

-- A `size_t` returned as an `int` of 32 bits.
unfoldable pub int_of_size : ℕ → ℤ
int_of_size n =
    let low = n % 4294967296 in if ltb low 2147483648 then pos low else sub_ℕ low 4294967296

-- The loop of `private_vector_cmp` from index `i`, with so many elements left.
unfoldable pub cmp_from : CmpFunc ℕ → Vector → Vector → ℕ → ℕ → ℤ
cmp_from cmp a b i zero = pos 0
cmp_from cmp a b i (suc left) =
    let rest = cmp_from cmp a b (i + 1) left in
    elim (sign (cmp (vector_get a i) (vector_get b i))) [
      | same ↦ rest
      | _ ↦ cmp (vector_get a i) (vector_get b i)
    ]

unfoldable pub private_vector_cmp : Vector → Vector → CmpFunc ℕ → ℤ
private_vector_cmp a b cmp =
    if a.count == b.count
    then cmp_from cmp a b 0 a.count
    else int_of_size ((a.count + (18446744073709551616 - b.count)) % 18446744073709551616)

pub record VectorIterator : Type 0 where
  pub v : Vector
  pub index : ℕ

unfoldable pub vector_get_iterator : Vector → VectorIterator
vector_get_iterator v = record { v = v; index = 0 }

unfoldable pub vector_iterator_has_next : VectorIterator → Bool
vector_iterator_has_next it = ltb it.index it.v.count

unfoldable pub vector_iterator_next : VectorIterator → ℕ × VectorIterator
vector_iterator_next it = (vector_get it.v it.index, record { v = it.v; index = it.index + 1 })
