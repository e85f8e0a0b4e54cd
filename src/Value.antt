-- ===== src/Value.antt =====
-- value/value.c and value/value.h: a tagged union. The modules below hold the numbers in memory
-- (`Bytes`) and the proofs.
--
-- A value is its tag and the 16 bytes of its union, on a little-endian machine with 64-bit pointers and
-- long doubles of 10 bytes, padded to 16. A long double is the number that its 10 bytes are. What
-- pointers lead to is the state of a `Runtime`, whose functions are those of the sds, vector, dict and
-- allocation code. `none` is a failed `latte_assert_with_info`, a read outside the caller's bytes,
-- or fuel that has run out.
pub mod Bytes
pub mod Binary
pub mod RoundTrip
mod Examples
use latte_c.Prelude.{
  ◌>>=◌, ℕ, zero, suc, ◌+◌, ◌*◌, ◌/◌, ◌%◌, ◌-◌, ◌==◌, ltb, if◌then◌else◌, Bool, true, false, ℤ, pos,
  negsuc, sub_ℕ, int_of, Option, none, some, List, [], ◌∷◌, ◌++◌, length, take, drop,
}
use latte_c.Value.Bytes.{to_bytes, of_bytes, unsigned_of, signed_of}

pub data ValueType : Type 0 where
  value_undefined value_constant_char value_sds value_int value_uint : ValueType
  value_double value_boolean value_array value_map : ValueType

pub record Value : Type 0 where
  pub tag : ValueType
  pub cells : List ℕ

-- What the code relies on behind its pointers.
pub record Runtime {ℓ} (M : Type ℓ) : Type ℓ where
  pub sds_new_len : List ℕ → M → ℕ × M
  pub sds_bytes : M → ℕ → List ℕ
  pub sds_delete : ℕ → M → M
  pub c_string : M → ℕ → List ℕ
  pub vector_elements : M → ℕ → List ℕ
  pub vector_delete : ℕ → M → M
  pub dict_delete : ℕ → M → M
  pub value_at : M → ℕ → Value
  pub zfree : ℕ → M → M

-- A store to a member of the union.
abbrev pub put : List ℕ → List ℕ → List ℕ
put bytes cells = bytes ++ drop (length bytes) cells

abbrev pub pointer : Value → ℕ
pointer v = of_bytes (take 8 v.cells)

-- The pointer is set to NULL and the tag to VALUE_UNDEFINED.
abbrev pub cleared : Value → Value
cleared v = record { tag = value_undefined; cells = put (to_bytes 8 0) v.cells }

abbrev pub undefined : Value → Value
undefined v = record { tag = value_undefined; cells = v.cells }

abbrev pub filled : ValueType → List ℕ → Value → Value
filled tag bytes v = record { tag = tag; cells = put bytes v.cells }

-- A read of so many of the bytes that the caller gives.
unfoldable pub read : ℕ → List ℕ → Option (List ℕ)
read n bytes = if ltb (length bytes) n then none else some (take n bytes)

-- By an `int`; one below 0 stands for more bytes than the caller has.
abbrev pub read_int : ℤ → List ℕ → Option (List ℕ)
read_int (pos n) bytes = read n bytes
read_int (negsuc n) bytes = none

abbrev pub done {ℓ} : {M : Type ℓ} → M × Value → Option (ℕ × M × Value)
done (m, v) = some (1, m, v)

module _ {ℓ} {M : Type ℓ} (rt : Runtime M) where
  -- `value_delete`, for a way to clean a value.
  abbrev pub delete_with : (M → Value → Option (M × Value)) → ℕ → M → Option M
  delete_with clean p m = clean m (rt.value_at m p) >>= λ (m', v). some (rt.zfree p m')

  unfoldable pub delete_elements : (M → Value → Option (M × Value)) → List ℕ → M → Option M
  delete_elements clean [] m = some m
  delete_elements clean (p ∷ ps) m = delete_with clean p m >>= λ m'. delete_elements clean ps m'

  abbrev pub clean_as :
      (M → Value → Option (M × Value)) → ValueType → M → Value → Option (M × Value)
  clean_as clean value_sds m v = some (rt.sds_delete (pointer v) m, cleared v)
  clean_as clean value_array m v =
      delete_elements clean (rt.vector_elements m (pointer v)) m >>= λ m'.
      some (rt.vector_delete (pointer v) m', cleared v)
  clean_as clean value_map m v = some (rt.dict_delete (pointer v) m, cleared v)
  clean_as clean value_undefined m v = some (m, undefined v)
  clean_as clean value_constant_char m v = some (m, undefined v)
  clean_as clean value_int m v = some (m, undefined v)
  clean_as clean value_uint m v = some (m, undefined v)
  clean_as clean value_double m v = some (m, undefined v)
  clean_as clean value_boolean m v = some (m, undefined v)

  -- On fuel: as many levels as arrays are nested, and one more.
  unfoldable pub value_clean : ℕ → M → Value → Option (M × Value)
  value_clean zero m v = none
  value_clean (suc f) m v = clean_as (λ m' w. value_clean f m' w) v.tag m v

  unfoldable pub value_delete : ℕ → ℕ → M → Option M
  value_delete f p m = delete_with (λ m' w. value_clean f m' w) p m

  -- The setters clean the value and then fill it.
  abbrev pub refill : ℕ → ValueType → List ℕ → M → Value → Option (M × Value)
  refill f tag bytes m v = value_clean f m v >>= λ (m', w). some (m', filled tag bytes w)

  unfoldable pub value_set_sds : ℕ → M → Value → ℕ → Option (M × Value)
  value_set_sds f m v s = refill f value_sds (to_bytes 8 s) m v

  unfoldable pub value_set_int64 : ℕ → M → Value → ℤ → Option (M × Value)
  value_set_int64 f m v l = refill f value_int (to_bytes 8 (unsigned_of l)) m v

  unfoldable pub value_set_uint64 : ℕ → M → Value → ℕ → Option (M × Value)
  value_set_uint64 f m v l = refill f value_uint (to_bytes 8 l) m v

  unfoldable pub value_set_long_double : ℕ → M → Value → ℕ → Option (M × Value)
  value_set_long_double f m v d = refill f value_double (to_bytes 10 d) m v

  unfoldable pub value_set_bool : ℕ → M → Value → Bool → Option (M × Value)
  value_set_bool f m v b = refill f value_boolean ((if b then 1 else 0) ∷ []) m v

  unfoldable pub value_set_array : ℕ → M → Value → ℕ → Option (M × Value)
  value_set_array f m v ve = refill f value_array (to_bytes 8 ve) m v

  unfoldable pub value_set_map : ℕ → M → Value → ℕ → Option (M × Value)
  value_set_map f m v d = refill f value_map (to_bytes 8 d) m v

  unfoldable pub value_set_constant_char : ℕ → M → Value → ℕ → Option (M × Value)
  value_set_constant_char f m v c = refill f value_constant_char (to_bytes 8 c) m v

  abbrev pub binary_as : ValueType → M → Value → Option (ℕ × M)
  binary_as value_constant_char m v = some (rt.sds_new_len (rt.c_string m (pointer v)) m)
  binary_as value_sds m v = some (pointer v, m)
  binary_as value_int m v = some (rt.sds_new_len (take 8 v.cells) m)
  binary_as value_uint m v = some (rt.sds_new_len (take 8 v.cells) m)
  binary_as value_double m v = some (rt.sds_new_len (take 16 v.cells) m)
  binary_as value_boolean m v = some (rt.sds_new_len (take 4 v.cells) m)
  binary_as value_undefined m v = none
  binary_as value_array m v = none
  binary_as value_map m v = none

  -- The sds that it returns, `none` for NULL.
  unfoldable pub value_get_binary : M → Value → Option (ℕ × M)
  value_get_binary m v = binary_as v.tag m v

  -- `len` is converted to an `int`. The result is 1, or 0 for a type that is not supported.
  unfoldable pub value_set_binary : ℕ → M → Value → ValueType → List ℕ → ℕ → Option (ℕ × M × Value)
  value_set_binary f m v value_sds bytes len = read_int (int_of len) bytes >>= λ bs.
      value_set_sds f (rt.sds_new_len bs m).1 v (rt.sds_new_len bs m).0 >>= done
  value_set_binary f m v value_int bytes len =
      read 8 bytes >>= λ bs. value_set_int64 f m v (signed_of (of_bytes bs)) >>= done
  value_set_binary f m v value_uint bytes len =
      read 8 bytes >>= λ bs. value_set_uint64 f m v (of_bytes bs) >>= done
  value_set_binary f m v value_double bytes len =
      read 10 bytes >>= λ bs. value_set_long_double f m v (of_bytes bs) >>= done
  value_set_binary f m v value_boolean bytes len = read 4 bytes >>= λ bs.
      value_set_bool f m v (if of_bytes bs == 0 then false else true) >>= done
  value_set_binary f m v value_undefined bytes len = some (0, m, v)
  value_set_binary f m v value_constant_char bytes len = some (0, m, v)
  value_set_binary f m v value_array bytes len = some (0, m, v)
  value_set_binary f m v value_map bytes len = some (0, m, v)

-- The getters assert the tag.
unfoldable pub value_get_sds : Value → Option ℕ
value_get_sds v = elim v.tag [ value_sds ↦ some (pointer v) | _ ↦ none ]

unfoldable pub value_get_int64 : Value → Option ℤ
value_get_int64 v = elim v.tag [ value_int ↦ some (signed_of (pointer v)) | _ ↦ none ]

unfoldable pub value_get_uint64 : Value → Option ℕ
value_get_uint64 v = elim v.tag [ value_uint ↦ some (pointer v) | _ ↦ none ]

unfoldable pub value_get_long_double : Value → Option ℕ
value_get_long_double v = elim v.tag [ value_double ↦ some (of_bytes (take 10 v.cells)) | _ ↦ none ]

unfoldable pub value_get_bool : Value → Option Bool
value_get_bool v = elim v.tag [
  | value_boolean ↦ some (if of_bytes (take 1 v.cells) == 0 then false else true)
  | _ ↦ none
]

unfoldable pub value_get_array : Value → Option ℕ
value_get_array v = elim v.tag [ value_array ↦ some (pointer v) | _ ↦ none ]

unfoldable pub value_get_map : Value → Option ℕ
value_get_map v = elim v.tag [ value_map ↦ some (pointer v) | _ ↦ none ]

unfoldable pub value_get_constant_char : Value → Option ℕ
value_get_constant_char v = elim v.tag [ value_constant_char ↦ some (pointer v) | _ ↦ none ]
