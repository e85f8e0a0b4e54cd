-- ===== src/Odb/Examples.antt =====
-- A run of odb.c over the buffer, and the theorems at such inputs.
use latte_c.Prelude.{◌≡◌, ◌<◌, ◌^◌, length, refl, some, none, inl, List, [], ◌∷◌, arith}
use latte_c.Odb.{odb_read_string, odb_write_u16, write_exact}
use latte_c.Odb.Bytes.{get_u64_le, put_u64_le, put_u32_le, put_u16_le}
use latte_c.Odb.Buffer.{
  OioBuffer, odb_oio_create_buffer, oio_buffer_write, odb_oio_buffer_rewind, buffer_backend,
  buffer_stream, rest_of, IsValid,
}
use latte_c.Odb.Items.{
  Item, kinds, values, encode_all, write_all, read_all, write_all_lem, read_all_lem,
}
use latte_c.Odb.RoundTrip.{Wrote, Got}
use latte_c.Odb.Client.{buffer_round_trip, odb_read_string_truncated}

abbrev items : List Item
items =
    Item.string (104 ∷ 105 ∷ [])
    ∷ Item.u16 0x1234
    ∷ Item.binary []
    ∷ Item.u64 0x0102030405060708
    ∷ []

little_endian : (odb_write_u16 buffer_backend 0x1234 odb_oio_create_buffer).1.ptr ≡ 0x34 ∷ 0x12 ∷ []
unfolding odb_write_u16 buffer_backend write_exact put_u16_le oio_buffer_write
little_endian = refl

eight_bytes : get_u64_le (put_u64_le 0x8182838485868788) ≡ 0x8182838485868788
unfolding get_u64_le put_u64_le
eight_bytes = refl

room : length (encode_all items) < 2 ^ 64
unfolding put_u16_le put_u32_le put_u64_le
room = omega arith

buffer_round_trip_example :
    (o o' : OioBuffer) × (write_all buffer_backend items odb_oio_create_buffer ≡ (1, o))
    × (read_all buffer_backend (kinds items) (odb_oio_buffer_rewind o) ≡ (some (values items), o'))
    × (rest_of o' ≡ [])
buffer_round_trip_example = buffer_round_trip items (omega arith) room

odb_read_string_truncated_example :
    (o' : OioBuffer) × (odb_read_string buffer_backend
        (record { ptr = 5 ∷ 0 ∷ []; pos = 0; processed_bytes = 0 })
      ≡ (none, o'))
unfolding buffer_stream
odb_read_string_truncated_example =
    odb_read_string_truncated buffer_backend buffer_stream
      (record { ptr = 5 ∷ 0 ∷ []; pos = 0; processed_bytes = 0 })
      (record { inside = omega arith; small = omega arith }) (inl (omega arith))

abbrev written : OioBuffer
written = record { ptr = 0x34 ∷ 0x12 ∷ 7 ∷ []; pos = 0; processed_bytes = 3 }

written-IsValid : IsValid written
written-IsValid = record { inside = omega arith; small = omega arith }

-- 0x1234 and then 9 are written behind what is there.
write_all_lem_example :
    Wrote buffer_backend buffer_stream
      (write_all buffer_backend (Item.u16 0x1234 ∷ Item.u8 9 ∷ []) written)
      written
      (encode_all (Item.u16 0x1234 ∷ Item.u8 9 ∷ []))
unfolding buffer_stream put_u16_le
write_all_lem_example =
    write_all_lem buffer_backend buffer_stream (Item.u16 0x1234 ∷ Item.u8 9 ∷ []) written
      written-IsValid (omega arith) (omega arith)

-- 0x1234 is read, and a byte is left.
read_all_lem_example :
    Got buffer_backend buffer_stream
      (read_all buffer_backend (kinds (Item.u16 0x1234 ∷ [])) written)
      (values (Item.u16 0x1234 ∷ []))
      (7 ∷ [])
unfolding buffer_stream put_u16_le
read_all_lem_example =
    read_all_lem buffer_backend buffer_stream (Item.u16 0x1234 ∷ []) (7 ∷ []) written
      written-IsValid (omega arith) refl
