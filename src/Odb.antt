-- ===== src/Odb.antt =====
-- odb/odb.c and odb/oio.h: strings, binary data and numbers written to, and read from, an oio
-- backend. The buffer backend is `Odb/Buffer`; a backend is the two function pointers of `oio`.
--
-- A byte is a number below 256, `none` a NULL or an error status of a read, and 1 and 0 are the
-- status of a write.
pub mod Oio
pub mod Bytes
pub mod Buffer
pub mod RoundTrip
pub mod Items
pub mod Client
mod Examples
use latte_c.Prelude.{
  ℕ, ◌≡◌, ◌==◌, ltb, if◌then◌else◌, Option, none, some, List, [], ◌∷◌, length, get_or,
}
use latte_c.Odb.Oio.{OioBackend, ◌>>=◌, ◌>>◌}
use latte_c.Odb.Bytes.{put_u16_le, put_u32_le, put_u64_le, get_u16_le, get_u32_le, get_u64_le}

module _ {ℓ} {S : Type ℓ} (b : OioBackend S) where
  open b use {read, write}

  -- `write(o, buf, n) == n ? 1 : 0`
  unfoldable pub write_exact : List ℕ → S → ℕ × S
  write_exact bytes o = let (n, o') = write o bytes in (if n == length bytes then 1 else 0, o')

  -- `if (read(o, buf, n) != n)` fails.
  unfoldable pub read_exact : ℕ → S → Option (List ℕ) × S
  read_exact n o = let (m, bytes, o') = read o n in (if m == n then some bytes else none, o')

  unfoldable pub odb_write_len32_le : ℕ → S → ℕ × S
  odb_write_len32_le len o = write_exact (put_u32_le len) o

  unfoldable pub odb_read_len32_le : S → Option ℕ × S
  odb_read_len32_le o = read_exact 4 o >>= λ buf o'. (some (get_u32_le buf), o')

  -- The part behind the length: `if (len && write(o, s, len) != len) return 0; return 1;`
  unfoldable pub write_body : List ℕ → S → ℕ × S
  write_body s o = if length s == 0 then (1, o) else write_exact s o

  unfoldable pub odb_write_string : List ℕ → S → ℕ × S
  odb_write_string s o =
      let rest = odb_write_len32_le (length s) o >> write_body s in
      if ltb 0xFFFFFFFF (length s) then (0, o) else rest

  -- The bytes of the sds, NULL being `none`.
  unfoldable pub odb_read_string : S → Option (List ℕ) × S
  odb_read_string o =
      odb_read_len32_le o >>= λ len o'. if len == 0 then (some [], o') else read_exact len o'

  unfoldable pub odb_write_binary : List ℕ → S → ℕ × S
  odb_write_binary buf o =
      let rest = odb_write_len32_le (length buf) o >> write_body buf in
      if ltb 0xFFFFFFFF (length buf) then (0, o) else rest

  -- `none` is -1. For a length of 0 `*out` is NULL, `none` inside; the number is `*out_len`.
  unfoldable pub odb_read_binary : S → Option (Option (List ℕ) × ℕ) × S
  odb_read_binary o = odb_read_len32_le o >>= λ len o'.
      if len == 0
      then (some (none, 0), o')
      else read_exact len o' >>= λ bytes o''. (some (some bytes, len), o'')

  unfoldable pub odb_write_u8 : ℕ → S → ℕ × S
  odb_write_u8 v o = write_exact (v ∷ []) o

  unfoldable pub odb_write_u16 : ℕ → S → ℕ × S
  odb_write_u16 v o = write_exact (put_u16_le v) o

  unfoldable pub odb_write_u32 : ℕ → S → ℕ × S
  odb_write_u32 v o = write_exact (put_u32_le v) o

  unfoldable pub odb_write_u64 : ℕ → S → ℕ × S
  odb_write_u64 v o = write_exact (put_u64_le v) o

  -- A number read by its bytes.
  unfoldable pub read_number : ℕ → (List ℕ → ℕ) → S → Option ℕ × S
  read_number n get o = read_exact n o >>= λ buf o'. (some (get buf), o')

  unfoldable pub odb_read_u8 : S → Option ℕ × S
  odb_read_u8 o = read_number 1 (λ buf. get_or buf 0 0) o

  unfoldable pub odb_read_u16 : S → Option ℕ × S
  odb_read_u16 o = read_number 2 get_u16_le o

  unfoldable pub odb_read_u32 : S → Option ℕ × S
  odb_read_u32 o = read_number 4 get_u32_le o

  unfoldable pub odb_read_u64 : S → Option ℕ × S
  odb_read_u64 o = read_number 8 get_u64_le o
