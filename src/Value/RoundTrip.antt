-- ===== src/Value/RoundTrip.antt =====
-- value/value.c: a value that is set from the binary form of another is a copy of it.
use latte_c.Prelude.{
  int_of-small, ◌≢◌, ◌==◌, false, true, ℕ, zero, suc, ◌≤◌, ◌<◌, ◌^◌, ◌≡◌, refl, ap, ◌∙◌, ltb, inl,
  inr, Bool-cases, some, List, [], ◌∷◌, length, take, arith, take-all, length-take,
}
use latte_c.Value.{
  value_get_bool, ValueType, value_undefined, value_constant_char, value_sds, value_int, value_uint,
  value_double, value_boolean, value_array, value_map, Value, Runtime, read, value_set_binary,
  value_get_binary,
}
use latte_c.Value.Bytes.{of_bytes, signed_of, AreBytes, of_bytes-below, unsigned_of-signed_of}
use latte_c.Value.Binary.{
  content-Shows, as_boolean, Content, nothing, chars, sds, int, uint, double, boolean, array, map,
  content, IsInRange, value_set, IsRuntime, OwnsNothing, value_clean-OwnsNothing, content-value_set,
}

pub record IsValid (v : Value) : Type 0 where
  pub sized : length v.cells ≡ 16
  pub bytes : AreBytes v.cells

-- The types whose binary form `value_set_binary` takes, but for booleans.
abbrev pub IsCopied : ValueType → Type 0
IsCopied value_sds = Unit
IsCopied value_int = Unit
IsCopied value_uint = Unit
IsCopied value_double = Unit
IsCopied value_boolean = ⊥
IsCopied value_undefined = ⊥
IsCopied value_constant_char = ⊥
IsCopied value_array = ⊥
IsCopied value_map = ⊥

take-AreBytes : (n : ℕ) (bs : List ℕ) → AreBytes bs → AreBytes (take n bs)
take-AreBytes zero bs h = tt
take-AreBytes (suc n) [] h = tt
take-AreBytes (suc n) (b ∷ bs) h = (h.0, take-AreBytes n bs h.1)

front-below : (n : ℕ) (bs : List ℕ) → AreBytes bs → n ≤ length bs → of_bytes (take n bs) < 256 ^ n
front-below n bs h g =
    let e = of_bytes-below (take n bs) (take-AreBytes n bs h) in rw (length-take n bs g) at e

read-enough : (n : ℕ) (bs : List ℕ) → n ≤ length bs → read n bs ≡ some (take n bs)
unfolding read
read-enough n bs h = elim (Bool-cases (ltb (length bs) n)) [
  | inl e ↦ absurd (ground arith)
  | inr e ↦ rw (e, read) refl
]

read-front : (n : ℕ) (bs : List ℕ) → n ≤ length bs → read n (take n bs) ≡ some (take n bs)
read-front n bs h =
    let e = length-take n bs h in
    read-enough n (take n bs) (omega arith)
    ∙ ap (λ cs. some cs) (take-all n (take n bs) (omega arith))

read-all : (bs : List ℕ) → read (length bs) bs ≡ some bs
read-all bs =
    read-enough (length bs) bs (omega arith)
    ∙ ap (λ cs. some cs) (take-all (length bs) bs (omega arith))

content-IsInRange : (v : Value) → IsValid v → IsCopied v.tag → IsInRange (content v)
content-IsInRange v w c = by_tag v.tag v.cells w.sized w.bytes c
  where
    of_int : (n : ℕ) → n < 256 ^ 8 → IsInRange (int (signed_of n))
    of_int n h = let e = unsigned_of-signed_of n (omega arith) in (rw e h, ap (λ m. signed_of m) e)

    by_tag :
        (tag : ValueType) (cells : List ℕ)
        → length cells ≡ 16
        → AreBytes cells
        → IsCopied tag
        → IsInRange (content (record { tag = tag; cells = cells }))
    by_tag value_sds cells e h c = front-below 8 cells h (omega arith)
    by_tag value_int cells e h c =
        of_int (of_bytes (take 8 cells)) (front-below 8 cells h (omega arith))
    by_tag value_uint cells e h c = front-below 8 cells h (omega arith)
    by_tag value_double cells e h c = front-below 10 cells h (omega arith)
    by_tag value_boolean cells e h c = absurd c
    by_tag value_undefined cells e h c = absurd c
    by_tag value_constant_char cells e h c = absurd c
    by_tag value_array cells e h c = absurd c
    by_tag value_map cells e h c = absurd c

module _ {ℓ} {M : Type ℓ} (rt : Runtime M) where
  -- The same content, or another sds with the same bytes.
  abbrev pub IsCopy : M → Content → M → Content → Type 0
  IsCopy m (sds p) m' y = (q : ℕ) × (y ≡ sds q) × (rt.sds_bytes m' q ≡ rt.sds_bytes m p)
  IsCopy m nothing m' y = y ≡ nothing
  IsCopy m (chars p) m' y = y ≡ chars p
  IsCopy m (uint n) m' y = y ≡ uint n
  IsCopy m (double d) m' y = y ≡ double d
  IsCopy m (array p) m' y = y ≡ array p
  IsCopy m (map p) m' y = y ≡ map p
  IsCopy m (int l) m' y = y ≡ int l
  IsCopy m (boolean b) m' y = y ≡ boolean b

  module _ (law : IsRuntime rt) (f : ℕ) (m : M) (u : Value) (free : OwnsNothing u.tag) where
    -- A content that is put into `u`.
    put_in :
        (m1 : M) (x : Content)
        → IsInRange x
        → (u' : Value) × (value_set rt (suc f) m1 u x ≡ some (m1, u')) × (content u' ≡ x)
    put_in m1 x h =
        content-value_set rt (suc f) m1 m1 u (record { tag = value_undefined; cells = u.cells }) x
          (value_clean-OwnsNothing rt f m1 u.tag u.cells free) refl h

    -- An sds is of less than 2^31 bytes, so its length is an `int`.
    abbrev pub IsShort : Value → Type 0
    IsShort v = (p : ℕ) → content v ≡ sds p → length (rt.sds_bytes m p) < 2 ^ 31

    abbrev Copied : Value → Type ℓ
    Copied v =
        (s : ℕ) × (m1 : M) × (m2 : M) × (u' : Value) × (value_get_binary rt m v ≡ some (s, m1))
        × (value_set_binary rt (suc f) m1 u v.tag (rt.sds_bytes m1 s) (length (rt.sds_bytes m1 s))
            ≡ some (1, m2, u'))
        × IsCopy m (content v) m2 (content u')

    -- A value that is written as so many of its own bytes.
    copy_number :
        (v : Value) (k : ℕ)
        → IsValid v
        → IsCopied v.tag
        → value_get_binary rt m v ≡ some (rt.sds_new_len (take k v.cells) m)
        → ((m1 : M) (u' : Value)
            → value_set rt (suc f) m1 u (content v) ≡ some (m1, u')
            → value_set_binary rt (suc f) m1 u v.tag (take k v.cells) (length (take k v.cells))
              ≡ some (1, m1, u'))
        → ((m1 : M) (u' : Value) → content u' ≡ content v → IsCopy m (content v) m1 (content u'))
        → Copied v
    copy_number v k w c read store same =
        let (s, m1) = rt.sds_new_len (take k v.cells) m in
        let (u', g, e) = put_in m1 (content v) (content-IsInRange v w c) in
        (s, m1, m1, u', read, rw (law.copied (take k v.cells) m) (store m1 u' g), same m1 u' e)

    copy_by_tag :
        (tag : ValueType) (cells : List ℕ)
        → IsValid (record { tag = tag; cells = cells })
        → IsCopied tag
        → IsShort (record { tag = tag; cells = cells })
        → Copied (record { tag = tag; cells = cells })
    unfolding value_set_binary value_get_binary
    copy_by_tag value_sds cells w c short =
        let bs = rt.sds_bytes m (of_bytes (take 8 cells)) in
        let (q, m2) = rt.sds_new_len bs m in
        let (u', g, e) = put_in m2 (sds q) (law.in_memory bs m) in
        (
          of_bytes (take 8 cells),
          m,
          m2,
          u',
          refl,
          rw (int_of-small (length bs) (short (of_bytes (take 8 cells)) refl), read-all bs, g) refl,
          (q, e, law.copied bs m),
        )
    copy_by_tag value_int cells w c short =
        copy_number (record { tag = value_int; cells = cells }) 8 w c refl
          (λ m1 u' g. rw (read-front 8 cells (omega (arith, w.sized)), g) refl) (λ m1 u' e. e)
    copy_by_tag value_uint cells w c short =
        copy_number (record { tag = value_uint; cells = cells }) 8 w c refl
          (λ m1 u' g. rw (read-front 8 cells (omega (arith, w.sized)), g) refl) (λ m1 u' e. e)
    copy_by_tag value_double cells w c short =
        let all = take-all 16 cells (omega (arith, w.sized)) in
        copy_number (record { tag = value_double; cells = cells }) 16 w c refl
          (λ m1 u' g. rw (all, read-enough 10 cells (omega (arith, w.sized)), g) refl)
          (λ m1 u' e. e)
    copy_by_tag value_boolean cells w c short = absurd c
    copy_by_tag value_undefined cells w c short = absurd c
    copy_by_tag value_constant_char cells w c short = absurd c
    copy_by_tag value_array cells w c short = absurd c
    copy_by_tag value_map cells w c short = absurd c

    -- Where a new sds has the bytes that it is asked for, at an address of 64 bits: for a value
    -- of 16 bytes that is an sds of less than 2^31 bytes, an int64, a uint64 or a long double,
    -- value_get_binary gives an sds, and value_set_binary with the value's type and those bytes,
    -- into a value that owns no other object, returns 1 and leaves a value with the same content,
    -- or with an sds of the same bytes.
    pub value_set_binary-value_get_binary :
        (v : Value)
        → IsValid v
        → IsCopied v.tag
        → IsShort v
        → (s : ℕ) × (m1 : M) × (m2 : M) × (u' : Value) × (value_get_binary rt m v ≡ some (s, m1))
          × (value_set_binary rt (suc f) m1 u v.tag (rt.sds_bytes m1 s) (length (rt.sds_bytes m1 s))
              ≡ some (1, m2, u'))
          × IsCopy m (content v) m2 (content u')
    value_set_binary-value_get_binary v w c short = copy_by_tag v.tag v.cells w c short

    -- Where a new sds has the bytes that it is asked for, at an address of 64 bits: for a boolean
    -- value of 16 bytes that is false while the four bytes at its start are not all 0, what
    -- value_get_binary gives is read by value_set_binary, into a value that owns no other object,
    -- as true.
    pub value_set_binary-stale :
        (cells : List ℕ)
        → IsValid (record { tag = value_boolean; cells = cells })
        → of_bytes (take 1 cells) ≡ 0
        → of_bytes (take 4 cells) ≢ 0
        → (value_get_bool (record { tag = value_boolean; cells = cells }) ≡ some false)
          × ((s : ℕ) × (m1 : M) × (u' : Value) × (value_get_binary rt m
                  (record { tag = value_boolean; cells = cells })
                ≡ some (s, m1))
              × (value_set_binary rt (suc f) m1 u value_boolean (rt.sds_bytes m1 s) 4
                  ≡ some (1, m1, u'))
              × (value_get_bool u' ≡ some true))
    unfolding value_set_binary value_get_binary value_get_bool
    value_set_binary-stale cells w low high =
        let (s, m1) = rt.sds_new_len (take 4 cells) m in
        let (u', g, e) = put_in m1 (boolean true) tt in
        (
          rw low refl,
          (
            s,
            m1,
            u',
            refl,
            rw
                (
                  law.copied (take 4 cells) m,
                  read-front 4 cells (omega (arith, w.sized)),
                  not_zero (of_bytes (take 4 cells)) high,
                  g,
                )
                refl,
            (content-Shows u').5 ∙ ap (λ x. as_boolean x) e,
          ),
        )
      where
        not_zero : (n : ℕ) → n ≢ 0 → (n == 0) ≡ false
        not_zero n h = ground arith
