-- ===== src/Value/Binary.antt =====
-- value/value.c: what the setters store and the getters give, and the binary form of a value.
use latte_c.Prelude.{
  Yields, Yields-bind, Yields-any, ℕ, zero, suc, ◌<◌, ◌^◌, ◌≡◌, refl, sym, ap, ◌∙◌, ◌==◌,
  if◌then◌else◌, Bool, true, false, ℤ, Option, none, some, List, [], ◌∷◌, ◌++◌, length, take, drop,
  take-length_append,
}
use latte_c.Value.{
  clean_as, delete_elements, cleared, ValueType, value_undefined, value_constant_char, value_sds,
  value_int, value_uint, value_double, value_boolean, value_array, value_map, Value, Runtime, put,
  pointer, filled, refill, value_clean, value_set_sds, value_set_int64, value_set_uint64,
  value_set_long_double, value_set_bool, value_set_array, value_set_map, value_set_constant_char,
  value_get_sds, value_get_int64, value_get_uint64, value_get_long_double, value_get_bool,
  value_get_array, value_get_map, value_get_constant_char,
}
use latte_c.Value.Bytes.{
  to_bytes, of_bytes, unsigned_of, signed_of, length-to_bytes, of_bytes-to_bytes,
}

-- What a value stands for.
pub data Content : Type 0 where
  nothing : Content
  chars sds uint double array map : ℕ → Content
  int : ℤ → Content
  boolean : Bool → Content

abbrev pub content_as : ValueType → Value → Content
content_as value_undefined v = nothing
content_as value_constant_char v = chars (pointer v)
content_as value_sds v = sds (pointer v)
content_as value_int v = int (signed_of (pointer v))
content_as value_uint v = uint (pointer v)
content_as value_double v = double (of_bytes (take 10 v.cells))
content_as value_boolean v = boolean (if of_bytes (take 1 v.cells) == 0 then false else true)
content_as value_array v = array (pointer v)
content_as value_map v = map (pointer v)

abbrev pub content : Value → Content
content v = content_as v.tag v

-- The C types' ranges.
abbrev pub IsInRange : Content → Type 0
IsInRange nothing = Unit
IsInRange (chars p) = p < 256 ^ 8
IsInRange (sds p) = p < 256 ^ 8
IsInRange (uint n) = n < 256 ^ 8
IsInRange (double d) = d < 256 ^ 10
IsInRange (array p) = p < 256 ^ 8
IsInRange (map p) = p < 256 ^ 8
IsInRange (int l) = (unsigned_of l < 256 ^ 8) × (signed_of (unsigned_of l) ≡ l)
IsInRange (boolean b) = Unit

abbrev pub as_chars : Content → Option ℕ
as_chars x = elim x [ chars a ↦ some a | _ ↦ none ]

abbrev pub as_sds : Content → Option ℕ
as_sds x = elim x [ sds a ↦ some a | _ ↦ none ]

abbrev pub as_int : Content → Option ℤ
as_int x = elim x [ int a ↦ some a | _ ↦ none ]

abbrev pub as_uint : Content → Option ℕ
as_uint x = elim x [ uint a ↦ some a | _ ↦ none ]

abbrev pub as_double : Content → Option ℕ
as_double x = elim x [ double a ↦ some a | _ ↦ none ]

abbrev pub as_boolean : Content → Option Bool
as_boolean x = elim x [ boolean a ↦ some a | _ ↦ none ]

abbrev pub as_array : Content → Option ℕ
as_array x = elim x [ array a ↦ some a | _ ↦ none ]

abbrev pub as_map : Content → Option ℕ
as_map x = elim x [ map a ↦ some a | _ ↦ none ]

-- The eight getters give the content, or fail their assertion.
abbrev pub Shows : Content → Value → Type 0
Shows x v =
    (value_get_constant_char v ≡ as_chars x)
    × (value_get_sds v ≡ as_sds x)
    × (value_get_int64 v ≡ as_int x)
    × (value_get_uint64 v ≡ as_uint x)
    × (value_get_long_double v ≡ as_double x)
    × (value_get_bool v ≡ as_boolean x)
    × (value_get_array v ≡ as_array x)
    × (value_get_map v ≡ as_map x)

pub content-Shows : (v : Value) → Shows (content v) v
unfolding value_get_constant_char value_get_sds value_get_int64 value_get_uint64
    value_get_long_double value_get_bool value_get_array value_get_map
content-Shows v = by_tag v.tag v.cells
  where
    by_tag :
        (tag : ValueType) (cells : List ℕ)
        → Shows
            (content (record { tag = tag; cells = cells }))
            (record { tag = tag; cells = cells })
    by_tag value_undefined cells = (refl, refl, refl, refl, refl, refl, refl, refl)
    by_tag value_constant_char cells = (refl, refl, refl, refl, refl, refl, refl, refl)
    by_tag value_sds cells = (refl, refl, refl, refl, refl, refl, refl, refl)
    by_tag value_int cells = (refl, refl, refl, refl, refl, refl, refl, refl)
    by_tag value_uint cells = (refl, refl, refl, refl, refl, refl, refl, refl)
    by_tag value_double cells = (refl, refl, refl, refl, refl, refl, refl, refl)
    by_tag value_boolean cells = (refl, refl, refl, refl, refl, refl, refl, refl)
    by_tag value_array cells = (refl, refl, refl, refl, refl, refl, refl, refl)
    by_tag value_map cells = (refl, refl, refl, refl, refl, refl, refl, refl)

-- What was stored in a member of the union is read from it.
stored-back :
    (n x : ℕ) (cells : List ℕ) → x < 256 ^ n → of_bytes (take n (put (to_bytes n x) cells)) ≡ x
stored-back n x cells h =
    let e = length-to_bytes n x in
    let back = take-length_append (to_bytes n x) (drop (length (to_bytes n x)) cells) in
    rw (front (to_bytes n x) (drop (length (to_bytes n x)) cells) e) (of_bytes-to_bytes n x h)
  where
    front : (bs cs : List ℕ) → length bs ≡ n → take n (bs ++ cs) ≡ bs
    front bs cs e = rw (sym e) (take-length_append bs cs)

-- The setter of a content's type; the empty content is set by `value_clean`.
abbrev pub value_set {ℓ} : {M : Type ℓ} → Runtime M → ℕ → M → Value → Content → Option (M × Value)
value_set rt f m v nothing = value_clean rt f m v
value_set rt f m v (chars p) = value_set_constant_char rt f m v p
value_set rt f m v (sds p) = value_set_sds rt f m v p
value_set rt f m v (int l) = value_set_int64 rt f m v l
value_set rt f m v (uint n) = value_set_uint64 rt f m v n
value_set rt f m v (double d) = value_set_long_double rt f m v d
value_set rt f m v (boolean b) = value_set_bool rt f m v b
value_set rt f m v (array p) = value_set_array rt f m v p
value_set rt f m v (map p) = value_set_map rt f m v p

-- The value owns no other object.
abbrev pub OwnsNothing : ValueType → Type 0
OwnsNothing value_undefined = Unit
OwnsNothing value_constant_char = Unit
OwnsNothing value_int = Unit
OwnsNothing value_uint = Unit
OwnsNothing value_double = Unit
OwnsNothing value_boolean = Unit
OwnsNothing value_sds = ⊥
OwnsNothing value_array = ⊥
OwnsNothing value_map = ⊥

module _ {ℓ} {M : Type ℓ} (rt : Runtime M) where
  refill-content :
      (f : ℕ) (tag : ValueType) (n : ℕ) (bits : ℕ) (m m' : M) (v w : Value)
      → value_clean rt f m v ≡ some (m', w)
      → refill rt f tag (to_bytes n bits) m v ≡ some (m', filled tag (to_bytes n bits) w)
  refill-content f tag n bits m m' v w e = rw e refl

  pub content-value_set :
      (f : ℕ) (m m' : M) (v w : Value) (x : Content)
      → value_clean rt f m v ≡ some (m', w)
      → w.tag ≡ value_undefined
      → IsInRange x
      → (v' : Value) × (value_set rt f m v x ≡ some (m', v')) × (content v' ≡ x)
  unfolding value_set_constant_char value_set_sds value_set_int64 value_set_uint64
      value_set_long_double value_set_bool value_set_array value_set_map of_bytes
  content-value_set f m m' v w nothing e u h = (w, e, rw u refl)
  content-value_set f m m' v w (chars p) e u h = (
    filled value_constant_char (to_bytes 8 p) w,
    rw e refl,
    ap (λ n. chars n) (stored-back 8 p w.cells h),
  )
  content-value_set f m m' v w (sds p) e u h =
      (filled value_sds (to_bytes 8 p) w, rw e refl, ap (λ n. sds n) (stored-back 8 p w.cells h))
  content-value_set f m m' v w (int l) e u h = (
    filled value_int (to_bytes 8 (unsigned_of l)) w,
    rw e refl,
    ap (λ n. int (signed_of n)) (stored-back 8 (unsigned_of l) w.cells h.0) ∙ ap (λ n. int n) h.1,
  )
  content-value_set f m m' v w (uint n) e u h =
      (filled value_uint (to_bytes 8 n) w, rw e refl, ap (λ n. uint n) (stored-back 8 n w.cells h))
  content-value_set f m m' v w (double d) e u h = (
    filled value_double (to_bytes 10 d) w,
    rw e refl,
    ap (λ n. double n) (stored-back 10 d w.cells h),
  )
  content-value_set f m m' v w (boolean true) e u h =
      (filled value_boolean (1 ∷ []) w, rw e refl, refl)
  content-value_set f m m' v w (boolean false) e u h =
      (filled value_boolean (0 ∷ []) w, rw e refl, refl)
  content-value_set f m m' v w (array p) e u h = (
    filled value_array (to_bytes 8 p) w,
    rw e refl,
    ap (λ n. array n) (stored-back 8 p w.cells h),
  )
  content-value_set f m m' v w (map p) e u h =
      (filled value_map (to_bytes 8 p) w, rw e refl, ap (λ n. map n) (stored-back 8 p w.cells h))

  IsUndefined : M × Value → Type 0
  IsUndefined (m, v) = v.tag ≡ value_undefined

  value_clean-IsUndefined : (f : ℕ) (m : M) (v : Value) → Yields (value_clean rt f m v) IsUndefined
  unfolding value_clean IsUndefined
  value_clean-IsUndefined zero m v = tt
  value_clean-IsUndefined (suc f) m v = by_tag v.tag
    where
      by_tag :
          (tag : ValueType)
          → Yields (clean_as rt (λ m' w. value_clean rt f m' w) tag m v) IsUndefined
      by_tag value_undefined = refl
      by_tag value_constant_char = refl
      by_tag value_sds = refl
      by_tag value_int = refl
      by_tag value_uint = refl
      by_tag value_double = refl
      by_tag value_boolean = refl
      by_tag value_map = refl
      by_tag value_array =
          let elements =
            delete_elements rt (λ m' w. value_clean rt f m' w) (rt.vector_elements m (pointer v))
              m in
          Yields-bind elements (λ m'. some (rt.vector_delete (pointer v) m', cleared v))
            (λ a. Unit {0}) IsUndefined (Yields-any elements) (λ a u. refl)

  -- Where value_clean of the old content ends: each of the eight setters leaves, for an argument
  -- in the range of its C type, a value of which the getter of that type gives the argument back
  -- and the other seven getters fail their assertion; of a cleaned value all eight fail.
  pub value_set-Shows :
      (f : ℕ) (m m' : M) (v w : Value) (x : Content)
      → value_clean rt f m v ≡ some (m', w)
      → IsInRange x
      → (v' : Value) × (value_set rt f m v x ≡ some (m', v')) × Shows x v'
  unfolding IsUndefined
  value_set-Shows f m m' v w x e h =
      let (v', g, c) =
        content-value_set f m m' v w x e (rw e at (value_clean-IsUndefined f m v)) h in
      (v', g, rw c at (content-Shows v'))

  -- The functions that the binary form of an sds relies on.
  pub record IsRuntime : Type ℓ where
    pub copied :
        (bs : List ℕ) (m : M) → rt.sds_bytes (rt.sds_new_len bs m).1 (rt.sds_new_len bs m).0 ≡ bs
    pub in_memory : (bs : List ℕ) (m : M) → (rt.sds_new_len bs m).0 < 256 ^ 8

  -- Nothing is released with such a value.
  pub value_clean-OwnsNothing :
      (f : ℕ) (m : M) (tag : ValueType) (cells : List ℕ)
      → OwnsNothing tag
      → value_clean rt (suc f) m (record { tag = tag; cells = cells })
        ≡ some (m, record { tag = value_undefined; cells = cells })
  unfolding value_clean
  value_clean-OwnsNothing f m value_undefined cells h = refl
  value_clean-OwnsNothing f m value_constant_char cells h = refl
  value_clean-OwnsNothing f m value_int cells h = refl
  value_clean-OwnsNothing f m value_uint cells h = refl
  value_clean-OwnsNothing f m value_double cells h = refl
  value_clean-OwnsNothing f m value_boolean cells h = refl
  value_clean-OwnsNothing f m value_sds cells h = absurd h
  value_clean-OwnsNothing f m value_array cells h = absurd h
  value_clean-OwnsNothing f m value_map cells h = absurd h
