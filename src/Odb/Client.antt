-- ===== src/Odb/Client.antt =====
-- odb.c over the memory buffer, and reads of a stream that ends too soon.
use latte_c.Prelude.{
  ℕ, ◌≤◌, ◌<◌, ◌^◌, ◌≡◌, ◌⊎◌, inl, inr, ==_ne, ◌∙◌, none, some, List, [], ◌++◌, length, append-nil,
  arith, sym, ap,
}
use latte_c.Odb.Oio.{OioBackend, IsStream}
use latte_c.Odb.Bytes.{put_u32_le}
use latte_c.Odb.{read_exact, odb_read_len32_le, odb_read_string}
use latte_c.Odb.RoundTrip.{odb_read_len32_le_lem}
use latte_c.Odb.Buffer.{
  OioBuffer, odb_oio_create_buffer, odb_oio_buffer_rewind, buffer_backend, buffer_stream, rest_of,
}
use latte_c.Odb.Items.{
  Item, AllItems, encode_all, kinds, values, write_all, read_all, write_all_lem, read_all_lem,
}

-- Items with the C types of the arguments (strings and binary blocks of at most 0xFFFFFFFF bytes,
-- unsigned numbers of 8, 16, 32 and 64 bits), of less than 2^64 bytes together: written one after
-- another to a new buffer every write returns 1, and after a rewind the reads of their kinds hand
-- out their values in order and leave nothing to be read.
pub buffer_round_trip :
    (is : List Item)
    → AllItems is
    → length (encode_all is) < 2 ^ 64
    → (o o' : OioBuffer) × (write_all buffer_backend is odb_oio_create_buffer ≡ (1, o))
      × (read_all buffer_backend (kinds is) (odb_oio_buffer_rewind o) ≡ (some (values is), o'))
      × (rest_of o' ≡ [])
unfolding buffer_stream odb_oio_buffer_rewind
buffer_round_trip is h room =
    let (o, e, c, v) =
      write_all_lem buffer_backend buffer_stream is odb_oio_create_buffer
        (record { inside = omega arith; small = omega arith }) h (omega arith) in
    let (o', e', after, v') =
      read_all_lem buffer_backend buffer_stream is [] (odb_oio_buffer_rewind o)
        (record { inside = omega arith; small = v.small }) h
        (c ∙ sym (append-nil (encode_all is))) in
    (o, o', e, e', after)

module _ {ℓ} {S : Type ℓ} (b : OioBackend S) (s : IsStream b) where
  read_exact_short :
      (n : ℕ) (o : S)
      → s.Valid o
      → length (s.pending o) < n
      → (o' : S) × (read_exact b n o ≡ (none, o'))
  unfolding read_exact
  read_exact_short n o v h =
      let (m, bytes, o', e, ne) = s.read_short o n v h in (o', rw (e, ==_ne m n ne))

  -- On any backend that is a stream of bytes, a string is not read from a valid stream on which
  -- fewer than 4 bytes are left, nor from one on which a length is followed by fewer bytes than
  -- it says: the read returns NULL.
  pub odb_read_string_truncated :
      (o : S)
      → s.Valid o
      → (length (s.pending o) < 4)
        ⊎ ((n : ℕ) × (rest : List ℕ) × (n ≤ 0xFFFFFFFF)
            × (s.pending o ≡ put_u32_le n ++ rest)
            × (length rest < n))
      → (o' : S) × (odb_read_string b o ≡ (none, o'))
  unfolding odb_read_string odb_read_len32_le
  odb_read_string_truncated o v (inl h) = let (o', e) = read_exact_short 4 o v h in (o', rw e)
  odb_read_string_truncated o v (inr (n, rest, fits, p, h)) =
      let (o', e, after, v') = odb_read_len32_le_lem b s n rest o v fits p in
      let (o'', e') = read_exact_short n o' v' (omega (arith, ap length after)) in
      (o'', rw (e, odb_read_string, ==_ne n 0 (λ z. omega arith), e'))
