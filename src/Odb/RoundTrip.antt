-- ===== src/Odb/RoundTrip.antt =====
-- What odb.c writes to a stream it reads back, for any backend that is a stream of bytes.
use latte_c.Prelude.{
  ℕ, ◌+◌, ◌≤◌, ◌<◌, ◌^◌, ◌≡◌, refl, ◌==◌, ltb, if◌then◌else◌, Option, none, some, List, [], ◌∷◌,
  ◌++◌, length, take, drop, length-append, take-length_append, drop-length_append, append_assoc,
  arith, ==_self, ==_ne, ap, append-nil, ◌∙◌, sym, false,
}
use latte_c.Odb.Oio.{OioBackend, IsStream}
use latte_c.Odb.Bytes.{put_u32_le, get_u32_le-put, length-put_u32_le}
use latte_c.Odb.{
  write_exact, read_exact, write_body, read_number, odb_write_len32_le, odb_read_len32_le,
  odb_write_string, odb_read_string, odb_write_binary, odb_read_binary,
}

not_too_long : (n : ℕ) → n ≤ 0xFFFFFFFF → ltb 0xFFFFFFFF n ≡ false
not_too_long n h = ground arith

-- What `odb_read_binary` hands out for such bytes: NULL and 0 for none.
abbrev pub as_binary : List ℕ → Option (List ℕ) × ℕ
as_binary [] = (none, 0)
as_binary (x ∷ xs) = (some (x ∷ xs), length (x ∷ xs))

module _ {ℓ} {S : Type ℓ} (b : OioBackend S) (s : IsStream b) where
  -- A write that succeeds and appends `bytes`.
  abbrev pub Wrote : ℕ × S → S → List ℕ → Type ℓ
  Wrote r o bytes = (o' : S) × (r ≡ (1, o')) × (s.content o' ≡ s.content o ++ bytes) × s.Valid o'

  -- A read that succeeds with `x` and leaves `rest` to be read.
  abbrev pub Got {κ} : {A : Type κ} → Option A × S → A → List ℕ → Type (ℓ ⊔ κ)
  Got r x rest = (o' : S) × (r ≡ (some x, o')) × (s.pending o' ≡ rest) × s.Valid o'

  pub write_exact_lem :
      (bytes : List ℕ) (o : S)
      → s.Valid o
      → length (s.content o) + length bytes < 2 ^ 64
      → Wrote (write_exact b bytes o) o bytes
  unfolding write_exact
  write_exact_lem bytes o v room =
      let (o', e, c, v') = s.write_lem o bytes v room in (o', rw (e, ==_self (length bytes)), c, v')

  read_exact_lem :
      (n : ℕ) (xs rest : List ℕ) (o : S)
      → s.Valid o
      → s.pending o ≡ xs ++ rest
      → n ≡ length xs
      → Got (read_exact b n o) xs rest
  unfolding read_exact
  read_exact_lem n xs rest o v p e =
      let enough : n ≤ length (s.pending o) = omega (arith, ap length p, length-append xs rest) in
      let taken : take n (s.pending o) ≡ xs =
        ap (take n) p ∙ ap (λ k. take k (xs ++ rest)) e ∙ take-length_append xs rest in
      let left : drop n (s.pending o) ≡ rest =
        ap (drop n) p ∙ ap (λ k. drop k (xs ++ rest)) e ∙ drop-length_append xs rest in
      let (o', q, after, v') = s.read_lem o n v enough in
      (o', rw (q, ==_self n, taken), after ∙ left, v')

  write_body_lem :
      (bytes : List ℕ) (o : S)
      → s.Valid o
      → length (s.content o) + length bytes < 2 ^ 64
      → Wrote (write_body b bytes o) o bytes
  unfolding write_body
  write_body_lem [] o v room = (o, refl, sym (append-nil (s.content o)), v)
  write_body_lem (x ∷ xs) o v room =
      rw (==_ne (length (x ∷ xs)) 0 (omega arith)) (write_exact_lem (x ∷ xs) o v room)

  odb_write_len32_le_lem :
      (n : ℕ) (o : S)
      → s.Valid o
      → length (s.content o) + 4 < 2 ^ 64
      → Wrote (odb_write_len32_le b n o) o (put_u32_le n)
  unfolding odb_write_len32_le
  odb_write_len32_le_lem n o v room =
      write_exact_lem (put_u32_le n) o v (omega (arith, length-put_u32_le n))

  pub odb_write_string_lem :
      (bytes : List ℕ) (o : S)
      → s.Valid o
      → length bytes ≤ 0xFFFFFFFF
      → length (s.content o) + length bytes + 4 < 2 ^ 64
      → Wrote (odb_write_string b bytes o) o (put_u32_le (length bytes) ++ bytes)
  unfolding odb_write_string
  odb_write_string_lem bytes o v h room =
      let n = length bytes in
      let (o', e, c, v') = odb_write_len32_le_lem n o v (omega arith) in
      let (o'', e', c', v'') = write_body_lem bytes o' v' (
        omega
          (arith, length-put_u32_le n, ap length c, length-append (s.content o) (put_u32_le n))) in
      (
        o'',
        rw (not_too_long n h, e) e',
        c' ∙ ap (λ t. t ++ bytes) c ∙ append_assoc (s.content o) (put_u32_le n) bytes,
        v'',
      )

  pub odb_read_len32_le_lem :
      (n : ℕ) (rest : List ℕ) (o : S)
      → s.Valid o
      → n ≤ 0xFFFFFFFF
      → s.pending o ≡ put_u32_le n ++ rest
      → Got (odb_read_len32_le b o) n rest
  unfolding odb_read_len32_le
  odb_read_len32_le_lem n rest o v h p =
      let (o', e, after, v') =
        read_exact_lem 4 (put_u32_le n) rest o v p (omega (arith, length-put_u32_le n)) in
      (o', rw (e, get_u32_le-put n (omega arith)), after, v')

  read_body_lem :
      (bytes rest : List ℕ) (o : S)
      → s.Valid o
      → s.pending o ≡ bytes ++ rest
      → Got (if length bytes == 0 then (some [], o) else read_exact b (length bytes) o) bytes rest
  read_body_lem [] rest o v p = (o, refl, p, v)
  read_body_lem (x ∷ xs) rest o v p =
      rw (==_ne (length (x ∷ xs)) 0 (omega arith))
        (read_exact_lem (length (x ∷ xs)) (x ∷ xs) rest o v p refl)

  pub odb_read_string_lem :
      (bytes rest : List ℕ) (o : S)
      → s.Valid o
      → length bytes ≤ 0xFFFFFFFF
      → s.pending o ≡ (put_u32_le (length bytes) ++ bytes) ++ rest
      → Got (odb_read_string b o) bytes rest
  unfolding odb_read_string
  odb_read_string_lem bytes rest o v h p =
      let (o', e, after, v') =
        odb_read_len32_le_lem (length bytes) (bytes ++ rest) o v h
          (p ∙ append_assoc (put_u32_le (length bytes)) bytes rest) in
      let (o'', e', after', v'') = read_body_lem bytes rest o' v' after in
      (o'', rw (e, odb_read_string) e', after', v'')

  pub odb_write_binary_lem :
      (bytes : List ℕ) (o : S)
      → s.Valid o
      → length bytes ≤ 0xFFFFFFFF
      → length (s.content o) + length bytes + 4 < 2 ^ 64
      → Wrote (odb_write_binary b bytes o) o (put_u32_le (length bytes) ++ bytes)
  unfolding odb_write_binary odb_write_string
  odb_write_binary_lem bytes o v h room = odb_write_string_lem bytes o v h room

  pub odb_read_binary_lem :
      (bytes rest : List ℕ) (o : S)
      → s.Valid o
      → length bytes ≤ 0xFFFFFFFF
      → s.pending o ≡ (put_u32_le (length bytes) ++ bytes) ++ rest
      → Got (odb_read_binary b o) (as_binary bytes) rest
  unfolding odb_read_binary
  odb_read_binary_lem [] rest o v h p =
      let (o', e, after, v') =
        odb_read_len32_le_lem 0 rest o v h (p ∙ append_assoc (put_u32_le 0) [] rest) in
      (o', rw (e, odb_read_binary), after, v')
  odb_read_binary_lem (x ∷ xs) rest o v h p =
      let n = length (x ∷ xs) in
      let (o', e, after, v') =
        odb_read_len32_le_lem n ((x ∷ xs) ++ rest) o v h
          (p ∙ append_assoc (put_u32_le n) (x ∷ xs) rest) in
      let (o'', e', after', v'') = read_exact_lem n (x ∷ xs) rest o' v' after refl in
      (o'', rw (e, odb_read_binary, ==_ne n 0 (omega arith), e'), after', v'')

  pub read_number_lem :
      (n : ℕ) (get : List ℕ → ℕ) (v : ℕ) (bytes rest : List ℕ) (o : S)
      → s.Valid o
      → s.pending o ≡ bytes ++ rest
      → n ≡ length bytes
      → get bytes ≡ v
      → Got (read_number b n get o) v rest
  unfolding read_number
  read_number_lem n get v bytes rest o ok p e g =
      let (o', q, after, ok') = read_exact_lem n bytes rest o ok p e in (o', rw (q, g), after, ok')
