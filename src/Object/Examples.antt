-- ===== src/Object/Examples.antt =====
-- Managers with one type, and the theorems at them.
use latte_c.Prelude.{
  ◌⊎◌, ℕ, zero, suc, ◌+◌, ◌-◌, ◌<◌, ◌≡◌, refl, ap, ◌∙◌, Option, none, some, List, [], ◌∷◌, ◌++◌,
  length, get_or, take, drop, arith, pos, negsuc,
}
use latte_c.Odb.Buffer.{
  OioBuffer, odb_oio_create_buffer, odb_oio_buffer_rewind, buffer_backend, buffer_stream, rest_of,
  oio_buffer_read, oio_buffer_write, buffer_write_lem, buffer_read_lem,
}
use latte_c.Odb.Bytes.{put_u32_le}
use latte_c.Object.{
  ErrorCode, c_ok, c_not_found, c_corruption, c_io_error, LatteObject, TypeEntry, empty_entry,
  find_from, find_type_id_by_name, first_free_slot, cleared_types, object_manager_register,
  entry_at, owned, out, failed, with_count, object_manager_save, object_manager_load,
  release_wrapped,
}
use latte_c.Object.Registry.{unmapped, object_manager_save_registry, object_manager_load_registry}
use latte_c.Object.Names.{IsName, Misses, AreNamed, AreDistinct, IsValid, registered}
use latte_c.Object.Stream.{object_manager_load_registry-unknown}
use latte_c.Object.Register.{given, Registered, cleared_types-IsValid, object_manager_register_lem}
use latte_c.Object.RoundTrip.{
  IsCodec, IsTransfer, object_manager_load-object_manager_save, object_manager_load-last_type,
}
use latte_c.Object.Counting.{incr_times, decr_times, latte_object_decr_ref_count-last}

-- Objects with one byte, in a memory that counts the releases.
abbrev Entry : Type 0
Entry = TypeEntry OioBuffer ℕ ℕ

abbrev byte_of : Option ℕ → ℕ
byte_of none = 0
byte_of (some x) = x

abbrev save_byte : OioBuffer → LatteObject ℕ → ErrorCode × OioBuffer
save_byte o obj = (c_ok, (oio_buffer_write o (byte_of obj.ptr ∷ [])).1)

abbrev loaded : ℕ × List ℕ × OioBuffer → (Option ErrorCode × Option (LatteObject ℕ)) × OioBuffer
loaded (zero, bytes, o) = ((some c_io_error, none), o)
loaded (suc n, bytes, o) =
    ((none, some (record { tag = 0; lru = 0; refcount = 0; ptr = some (get_or bytes 0 0) })), o)

abbrev load_byte : OioBuffer → (Option ErrorCode × Option (LatteObject ℕ)) × OioBuffer
load_byte o = loaded (oio_buffer_read o 1)

abbrev create_byte : ℕ → Option (LatteObject ℕ) × ℕ
create_byte mem = (some (record { tag = 0; lru = 0; refcount = 0; ptr = some 0 }), mem)

abbrev byte_name : List ℕ
byte_name = 98 ∷ 121 ∷ 116 ∷ 101 ∷ []

abbrev byte_entry : Entry
byte_entry = given byte_name create_byte (λ o mem. mem + 1) save_byte load_byte none

-- The type at index `k`, before `r` free entries.
abbrev around : ℕ → ℕ → List Entry
around zero r = byte_entry ∷ cleared_types r
around (suc k) r = empty_entry ∷ around k r

cleared_rest :
    (r : ℕ) (i : ℕ)
    → (length (cleared_types {S = OioBuffer} {P = ℕ} {M = ℕ} r) ≡ r)
      × AreNamed (cleared_types {S = OioBuffer} {P = ℕ} {M = ℕ} r)
      × AreDistinct (cleared_types {S = OioBuffer} {P = ℕ} {M = ℕ} r)
      × Misses byte_name (cleared_types {S = OioBuffer} {P = ℕ} {M = ℕ} r)
      × (registered (cleared_types {S = OioBuffer} {P = ℕ} {M = ℕ} r) i ≡ [])
unfolding cleared_types registered
cleared_rest zero i = (refl, tt, tt, tt, refl)
cleared_rest (suc r) i =
    let (l, n, d, m, e) = cleared_rest r (i + 1) in
    (ap (λ k. suc k) l, (tt, n), (tt, d), (refl, m), e)

byte_name-IsName : IsName byte_name
byte_name-IsName = ((refl, (refl, (refl, (refl, tt)))), omega arith)

around_lem :
    (k r i : ℕ)
    → (length (around k r) ≡ k + 1 + r)
      × AreNamed (around k r)
      × AreDistinct (around k r)
      × (registered (around k r) i ≡ (i + k, byte_name) ∷ [])
      × (find_from byte_name (around k r) i ≡ some (i + k))
      × (entry_at (around k r) k ≡ byte_entry)
unfolding registered find_from
around_lem zero r i =
    let (l, n, d, m, e) = cleared_rest r (i + 1) in
    let at : i ≡ i + 0 = omega arith in
    (
      omega arith,
      (byte_name-IsName, n),
      (m, d),
      rw e (ap (λ (k : ℕ). (k, byte_name) ∷ []) at),
      ap (λ (k : ℕ). some k) at,
      refl,
    )
around_lem (suc k) r i =
    let (l, n, d, e, f, g) = around_lem k r (i + 1) in
    let at : i + 1 + k ≡ i + suc k = omega arith in
    (
      omega arith,
      (tt, n),
      (tt, d),
      e ∙ ap (λ (k : ℕ). (k, byte_name) ∷ []) at,
      f ∙ ap (λ (k : ℕ). some k) at,
      g,
    )

around-IsValid : (k r : ℕ) → k + 1 + r ≡ 256 → IsValid (around k r)
around-IsValid k r h =
    let (l, n, d, e, f, g) = around_lem k r 0 in
    record { sized = omega arith; named = n; distinct = d }

found_at : (k r : ℕ) → find_type_id_by_name (around k r) byte_name ≡ some k
unfolding find_type_id_by_name
found_at k r =
    let (l, n, d, e, f, g) = around_lem k r 0 in
    f ∙ ap (λ (j : ℕ). some j) {x = 0 + k} {y = k} (omega arith)

-- Saved with the id 0.
abbrev seven : LatteObject ℕ
seven = record { tag = 0; lru = 0; refcount = 1; ptr = some 7 }

abbrev copy : LatteObject ℕ
copy = record { tag = 0; lru = 0; refcount = 0; ptr = some 7 }

byte-IsCodec : IsCodec buffer_backend buffer_stream save_byte load_byte seven copy (7 ∷ [])
unfolding buffer_stream
byte-IsCodec = record {
  saves = λ o v room.
      let (o', e, c, v') = buffer_write_lem o (7 ∷ []) v room in
      (o', ap (λ p. (c_ok, p.1)) e, c, v');
  loads = λ o rest v p.
      let (o', e, r, v') = buffer_read_lem o 1 v (omega (arith, ap (λ t. length t) p)) in
      (
        o',
        ap (λ q. loaded q) e ∙ ap (λ q. loaded (1, take 1 q, o')) p,
        r ∙ ap (λ q. drop 1 q) p,
        v',
      );
}

-- From the id 0 to the id `k`.
transfer :
    (k r : ℕ)
    → k + 1 + r ≡ 256
    → IsTransfer (around 0 255) (around k r) seven copy save_byte load_byte byte_name (7 ∷ []) k
unfolding put_u32_le
transfer k r h =
    let (l, n, d, e, f, g) = around_lem 0 255 0 in
    let (l', n', d', e', f', g') = around_lem k r 0 in
    record {
      saver = around-IsValid 0 255 refl;
      loader = around-IsValid k r h;
      known = rw e (byte_name-IsName, (k, found_at k r), tt);
      tag = omega arith;
      type_name = refl;
      save_fn = refl;
      found = found_at k r;
      load_fn = ap (λ x. x.load_fn) g';
      codec = byte-IsCodec;
      room = rw e (omega arith);
    }

object_manager_load-object_manager_save_example :
    (o1 : OioBuffer) × (o2 : OioBuffer) × (id_map : List ℕ) × (o3 : OioBuffer) × (o4 : OioBuffer)
    × (object_manager_save_registry buffer_backend (around 0 255) odb_oio_create_buffer
        ≡ (none, o1))
    × (object_manager_save buffer_backend (around 0 255) o1 seven ≡ (none, o2))
    × (object_manager_load_registry buffer_backend (around 7 248) (odb_oio_buffer_rewind o2)
        ≡ (none, id_map, o3))
    × (object_manager_load buffer_backend (around 7 248) o3 (some id_map)
        ≡ (out (owned 7 copy), o4))
    × (rest_of o4 ≡ [])
object_manager_load-object_manager_save_example =
    object_manager_load-object_manager_save (around 0 255) (around 7 248) seven copy save_byte
      load_byte byte_name (7 ∷ []) 7 (transfer 7 248 refl) (λ e. absurd (omega (arith, e)))

object_manager_load-last_type_example :
    (o1 : OioBuffer) × (o2 : OioBuffer) × (id_map : List ℕ) × (o3 : OioBuffer) × (o4 : OioBuffer)
    × (object_manager_save_registry buffer_backend (around 0 255) odb_oio_create_buffer
        ≡ (none, o1))
    × (object_manager_save buffer_backend (around 0 255) o1 seven ≡ (none, o2))
    × (object_manager_load_registry buffer_backend (around 255 0) (odb_oio_buffer_rewind o2)
        ≡ (none, id_map, o3))
    × (object_manager_load buffer_backend (around 255 0) o3 (some id_map)
        ≡ (failed c_corruption, o4))
object_manager_load-last_type_example =
    object_manager_load-last_type (around 0 255) (around 255 0) seven copy save_byte load_byte
      byte_name (7 ∷ []) 255 (transfer 255 0 refl) refl

-- A buffer with a registry of one type, `x`.
abbrev other_registry : OioBuffer
other_registry = record {
  ptr = put_u32_le 1 ++ (5 ∷ (put_u32_le 1 ++ (120 ∷ [])));
  pos = 0;
  processed_bytes = 0;
}

object_manager_load_registry-unknown_example :
    (o' : OioBuffer) × (object_manager_load_registry buffer_backend
        (cleared_types {P = ℕ} {M = ℕ} 256)
        other_registry
      ≡ (some c_not_found, unmapped 256, o'))
unfolding buffer_stream put_u32_le find_type_id_by_name find_from cleared_types
object_manager_load_registry-unknown_example =
    object_manager_load_registry-unknown buffer_backend buffer_stream
      (cleared_types {P = ℕ} {M = ℕ} 256) [] 5 0 (120 ∷ []) [] other_registry
      (record { inside = omega arith; small = omega arith }) tt ((refl, tt), omega arith) refl
      (omega arith) refl

object_manager_register_lem_example :
    ((object_manager_register
          (cleared_types {S = OioBuffer} 256)
          (some byte_name)
          (some create_byte)
          (some (λ o mem. mem + 1))
          (some save_byte)
          (some load_byte)
          none
        ≡ (negsuc 0, cleared_types 256))
      × (((id : ℕ) × (find_type_id_by_name
                (cleared_types {S = OioBuffer} {P = ℕ} {M = ℕ} 256)
                byte_name
              ≡ some id))
          ⊎ (first_free_slot (cleared_types {S = OioBuffer} {P = ℕ} {M = ℕ} 256) ≡ none)))
    ⊎ ((m' : List Entry) × (object_manager_register
            (cleared_types 256)
            (some byte_name)
            (some create_byte)
            (some (λ o mem. mem + 1))
            (some save_byte)
            (some load_byte)
            none
          ≡ (pos 0, m'))
        × (find_type_id_by_name (cleared_types {S = OioBuffer} {P = ℕ} {M = ℕ} 256) byte_name
            ≡ none)
        × Registered byte_name byte_entry (cleared_types 256) m')
object_manager_register_lem_example =
    object_manager_register_lem (cleared_types 256) byte_name create_byte (λ o mem. mem + 1)
      save_byte load_byte none cleared_types-IsValid byte_name-IsName

latte_object_decr_ref_count-last_example :
    ((j : ℕ)
      → j < 3
      → decr_times (λ o mem. mem) (around 0 255) j (incr_times 2 seven) 0
        ≡ (some (with_count (3 - j) seven), 0))
    × (decr_times (λ o mem. mem) (around 0 255) 3 (incr_times 2 seven) 0
        ≡ (none, release_wrapped (λ o mem. mem) (around 0 255) (with_count 0 seven) 0))
latte_object_decr_ref_count-last_example =
    latte_object_decr_ref_count-last (λ o mem. mem) (around 0 255) 2 seven 0 (omega arith)
      (omega arith)
