-- ===== src/Value/Examples.antt =====
-- Runs of value/value.c, and the theorems at such inputs.
use latte_c.Prelude.{◌>>=◌, ℕ, ◌≡◌, refl, true, false, negsuc, some, List, [], ◌∷◌, length, arith}
use latte_c.Value.{
  Value, value_sds, value_undefined, value_boolean, Runtime, value_clean, value_set_int64,
  value_set_bool, value_set_binary, value_get_binary, value_get_bool,
}
use latte_c.Value.Bytes.{to_bytes, of_bytes, unsigned_of, signed_of}
use latte_c.Value.Binary.{int, content, value_set, Shows, IsRuntime, value_set-Shows}
use latte_c.Value.RoundTrip.{IsCopy, value_set_binary-value_get_binary, value_set_binary-stale}

abbrev empty : Value
empty = record { tag = value_undefined; cells = to_bytes 16 0 }

-- A memory with one sds, the newest, at address 1.
abbrev one_sds : Runtime (List ℕ)
one_sds = record {
  sds_new_len = λ bs m. (1, bs);
  sds_bytes = λ m p. m;
  sds_delete = λ p m. m;
  c_string = λ m p. [];
  vector_elements = λ m p. [];
  vector_delete = λ p m. m;
  dict_delete = λ p m. m;
  value_at = λ m p. empty;
  zfree = λ p m. m;
}

one_sds-IsRuntime : IsRuntime one_sds
one_sds-IsRuntime = record { copied = λ bs m. refl; in_memory = λ bs m. omega arith }

-- False behind the number 256.
abbrev stale : List ℕ
stale = 0 ∷ 1 ∷ 0 ∷ 0 ∷ 0 ∷ 0 ∷ 0 ∷ 0 ∷ 0 ∷ 0 ∷ 0 ∷ 0 ∷ 0 ∷ 0 ∷ 0 ∷ 0 ∷ []

stale-reached :
    (value_set_int64 one_sds 1 [] empty (signed_of 256) >>= λ (m, v).
    value_set_bool one_sds 1 m v false)
    ≡ some ([], record { tag = value_boolean; cells = stale })
unfolding value_set_int64 value_set_bool value_clean to_bytes unsigned_of signed_of
stale-reached = refl

value_set-Shows_example :
    (v' : Value) × (value_set one_sds 1 [] empty (int (negsuc 1)) ≡ some ([], v'))
    × Shows (int (negsuc 1)) v'
unfolding value_clean unsigned_of signed_of
value_set-Shows_example =
    value_set-Shows one_sds 1 [] [] empty empty (int (negsuc 1)) refl (omega arith, refl)

-- An sds of two bytes at the address 1.
abbrev text : Value
text = record {
  tag = value_sds;
  cells = 1 ∷ 0 ∷ 0 ∷ 0 ∷ 0 ∷ 0 ∷ 0 ∷ 0 ∷ 0 ∷ 0 ∷ 0 ∷ 0 ∷ 0 ∷ 0 ∷ 0 ∷ 0 ∷ [];
}

abbrev two_bytes : List ℕ
two_bytes = 104 ∷ 105 ∷ []

value_set_binary-value_get_binary_example :
    (s : ℕ) × (m1 : List ℕ) × (m2 : List ℕ) × (u' : Value) × (value_get_binary one_sds two_bytes
        text
      ≡ some (s, m1))
    × (value_set_binary one_sds 1 m1 empty value_sds m1 (length m1) ≡ some (1, m2, u'))
    × IsCopy one_sds two_bytes (content text) m2 (content u')
value_set_binary-value_get_binary_example =
    value_set_binary-value_get_binary one_sds one_sds-IsRuntime 0 two_bytes empty tt text
      (record { sized = refl; bytes = omega arith }) tt (λ p e. omega arith)

value_set_binary-stale_example :
    (value_get_bool (record { tag = value_boolean; cells = stale }) ≡ some false)
    × ((s : ℕ) × (m1 : List ℕ) × (u' : Value) × (value_get_binary one_sds []
            (record { tag = value_boolean; cells = stale })
          ≡ some (s, m1))
        × (value_set_binary one_sds 1 m1 empty value_boolean m1 4 ≡ some (1, m1, u'))
        × (value_get_bool u' ≡ some true))
unfolding of_bytes
value_set_binary-stale_example =
    value_set_binary-stale one_sds one_sds-IsRuntime 0 [] empty tt stale
      (record { sized = refl; bytes = omega arith }) refl (λ e. absurd (omega (arith, e)))
