-- ===== src/Odb/Buffer.antt =====
-- The memory buffer backend of odb/odb.c: an sds and a position.
use latte_c.Prelude.{
  ℕ, ◌+◌, ◌-◌, ◌%◌, ◌^◌, ◌≤◌, ◌<◌, ◌≡◌, ◌≢◌, refl, sym, ltb, if◌then◌else◌, List, [], ◌++◌, length,
  take, drop, length-append, length-drop, drop-drop, arith, ltb→lt, lt→ltb, Bool-cases, inl, inr,
}
use latte_c.Odb.Oio.{OioBackend, IsStream}

-- `io.buffer` and `processed_bytes`. The other fields of `oio` are set once and never read here.
pub record OioBuffer : Type 0 where
  pub ptr : List ℕ
  pub pos : ℕ
  pub processed_bytes : ℕ

-- `avail` is a `size_t` difference; a short read returns 0 and changes nothing.
unfoldable pub oio_buffer_read : OioBuffer → ℕ → ℕ × List ℕ × OioBuffer
oio_buffer_read o len =
    let avail = (length o.ptr + 2 ^ 64 - o.pos) % 2 ^ 64 in
    if ltb avail len then (0, [], o) else (
      len,
      take len (drop o.pos o.ptr),
      record o { pos = o.pos + len; processed_bytes = (o.processed_bytes + len) % 2 ^ 64 },
    )

-- `sds_cat_len` appends; the position moves on by what was written.
unfoldable pub oio_buffer_write : OioBuffer → List ℕ → ℕ × OioBuffer
oio_buffer_write o bytes = (
  length bytes,
  record {
    ptr = o.ptr ++ bytes;
    pos = o.pos + length bytes;
    processed_bytes = (o.processed_bytes + length bytes) % 2 ^ 64;
  },
)

unfoldable pub oio_buffer_tell : OioBuffer → ℕ
oio_buffer_tell o = o.pos

abbrev pub odb_oio_create_buffer : OioBuffer
odb_oio_create_buffer = record { ptr = []; pos = 0; processed_bytes = 0 }

unfoldable pub odb_oio_buffer_rewind : OioBuffer → OioBuffer
odb_oio_buffer_rewind o = record o { pos = 0 }

unfoldable pub buffer_backend : OioBackend OioBuffer
buffer_backend = record { read = oio_buffer_read; write = oio_buffer_write }

-- The position is inside the buffer, whose length is a `size_t`.
pub record IsValid (o : OioBuffer) : Type 0 where
  pub inside : o.pos ≤ length o.ptr
  pub small : length o.ptr < 2 ^ 64

abbrev pub rest_of : OioBuffer → List ℕ
rest_of o = drop o.pos o.ptr

avail-eq :
    (o : OioBuffer)
    → IsValid o
    → (length o.ptr + 2 ^ 64 - o.pos) % 2 ^ 64 ≡ length (drop o.pos o.ptr)
avail-eq o v = omega (arith, length-drop o.pos o.ptr)

pub buffer_write_lem :
    (o : OioBuffer) (bytes : List ℕ)
    → IsValid o
    → length o.ptr + length bytes < 2 ^ 64
    → (o' : OioBuffer) × (oio_buffer_write o bytes ≡ (length bytes, o'))
      × (o'.ptr ≡ o.ptr ++ bytes)
      × IsValid o'
unfolding oio_buffer_write
buffer_write_lem o bytes v h = (
  record {
    ptr = o.ptr ++ bytes;
    pos = o.pos + length bytes;
    processed_bytes = (o.processed_bytes + length bytes) % 2 ^ 64;
  },
  refl,
  refl,
  record {
    inside = omega (arith, length-append o.ptr bytes);
    small = omega (arith, length-append o.ptr bytes);
  },
)

pub buffer_read_lem :
    (o : OioBuffer) (n : ℕ)
    → IsValid o
    → n ≤ length (rest_of o)
    → (o' : OioBuffer) × (oio_buffer_read o n ≡ (n, take n (rest_of o), o'))
      × (rest_of o' ≡ drop n (rest_of o))
      × IsValid o'
unfolding oio_buffer_read
buffer_read_lem o n v h = elim (Bool-cases (ltb (length (rest_of o)) n)) [
  | inl e ↦ absurd (omega (arith, ltb→lt _ _ e))
  | inr e ↦ (
    record o { pos = o.pos + n; processed_bytes = (o.processed_bytes + n) % 2 ^ 64 },
    rw (avail-eq o v, e),
    sym (drop-drop o.pos n (o.pos + n) o.ptr refl),
    record { inside = omega (arith, length-drop o.pos o.ptr); small = v.small },
  )
]

pub buffer_read_short :
    (o : OioBuffer) (n : ℕ)
    → IsValid o
    → length (rest_of o) < n
    → (m : ℕ) × (bytes : List ℕ) × (o' : OioBuffer) × (oio_buffer_read o n ≡ (m, bytes, o'))
      × (m ≢ n)
unfolding oio_buffer_read
buffer_read_short o n v h = (0, [], o, rw (avail-eq o v, lt→ltb _ _ h), λ e. absurd (omega arith))

-- The buffer backend is a stream of bytes: at a position inside the buffer a write appends, a read
-- takes the next bytes, a read past the end fails, and the position stays inside.
unfoldable pub buffer_stream : IsStream buffer_backend
unfolding buffer_backend
buffer_stream = record {
  Valid = IsValid;
  content = λ o. o.ptr;
  pending = rest_of;
  write_lem = buffer_write_lem;
  read_lem = buffer_read_lem;
  read_short = buffer_read_short;
}
