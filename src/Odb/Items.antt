-- ===== src/Odb/Items.antt =====
-- A client that writes items one after another with the functions of odb.c, and reads them back.
use latte_c.Prelude.{
  ℕ, ◌+◌, ◌≤◌, ◌<◌, ◌^◌, ◌≡◌, refl, Option, none, some, List, [], ◌∷◌, ◌++◌, length, length-append,
  append_assoc, arith, ap, ◌∙◌, sym, append-nil,
}
use latte_c.Odb.Oio.{OioBackend, IsStream, ◌>>=◌, ◌>>◌}
use latte_c.Odb.Bytes.{
  put_u16_le, put_u32_le, put_u64_le, get_u16_le-put, get_u32_le-put, get_u64_le-put,
  length-put_u16_le, length-put_u32_le, length-put_u64_le,
}
use latte_c.Odb.{
  odb_write_string, odb_read_string, odb_write_binary, odb_read_binary, odb_write_u8, odb_write_u16,
  odb_write_u32, odb_write_u64, odb_read_u8, odb_read_u16, odb_read_u32, odb_read_u64,
}
use latte_c.Odb.RoundTrip.{
  Wrote, Got, as_binary, write_exact_lem, read_number_lem, odb_write_string_lem,
  odb_read_string_lem, odb_write_binary_lem, odb_read_binary_lem,
}

-- What can be written.
pub data Item : Type 0 where
  string binary : List ℕ → Item
  u8 u16 u32 u64 : ℕ → Item

-- What a read hands out.
pub data Value : Type 0 where
  text : List ℕ → Value
  block : Option (List ℕ) × ℕ → Value
  number : ℕ → Value

abbrev pub as_value : Item → Value
as_value (string bytes) = text bytes
as_value (binary bytes) = block (as_binary bytes)
as_value (u8 v) = number v
as_value (u16 v) = number v
as_value (u32 v) = number v
as_value (u64 v) = number v

-- The C types of the arguments.
abbrev pub IsItem : Item → Type 0
IsItem (string bytes) = length bytes ≤ 0xFFFFFFFF
IsItem (binary bytes) = length bytes ≤ 0xFFFFFFFF
IsItem (u8 v) = v < 2 ^ 8
IsItem (u16 v) = v < 2 ^ 16
IsItem (u32 v) = v < 2 ^ 32
IsItem (u64 v) = v < 2 ^ 64

-- The bytes on the stream.
abbrev pub encode : Item → List ℕ
encode (string bytes) = put_u32_le (length bytes) ++ bytes
encode (binary bytes) = put_u32_le (length bytes) ++ bytes
encode (u8 v) = v ∷ []
encode (u16 v) = put_u16_le v
encode (u32 v) = put_u32_le v
encode (u64 v) = put_u64_le v

pub data Kind : Type 0 where
  string binary u8 u16 u32 u64 : Kind

abbrev pub kind_of : Item → Kind
kind_of (string bytes) = string
kind_of (binary bytes) = binary
kind_of (u8 v) = u8
kind_of (u16 v) = u16
kind_of (u32 v) = u32
kind_of (u64 v) = u64

abbrev pub AllItems : List Item → Type 0
AllItems [] = Unit
AllItems (i ∷ is) = IsItem i × AllItems is

abbrev pub encode_all : List Item → List ℕ
encode_all [] = []
encode_all (i ∷ is) = encode i ++ encode_all is

abbrev pub kinds : List Item → List Kind
kinds [] = []
kinds (i ∷ is) = kind_of i ∷ kinds is

abbrev pub values : List Item → List Value
values [] = []
values (i ∷ is) = as_value i ∷ values is

abbrev hand_out {ℓ κ} : {S : Type ℓ} {A : Type κ} → (A → Value) → Option A × S → Option Value × S
hand_out f (none, o) = (none, o)
hand_out f (some x, o) = (some (f x), o)

module _ {ℓ} {S : Type ℓ} (b : OioBackend S) where
  -- The call that writes an item, and the call that reads one of the same kind.
  abbrev pub write_item : Item → S → ℕ × S
  write_item (string bytes) o = odb_write_string b bytes o
  write_item (binary bytes) o = odb_write_binary b bytes o
  write_item (u8 v) o = odb_write_u8 b v o
  write_item (u16 v) o = odb_write_u16 b v o
  write_item (u32 v) o = odb_write_u32 b v o
  write_item (u64 v) o = odb_write_u64 b v o

  abbrev pub read_kind : Kind → S → Option Value × S
  read_kind string o = hand_out text (odb_read_string b o)
  read_kind binary o = hand_out block (odb_read_binary b o)
  read_kind u8 o = hand_out number (odb_read_u8 b o)
  read_kind u16 o = hand_out number (odb_read_u16 b o)
  read_kind u32 o = hand_out number (odb_read_u32 b o)
  read_kind u64 o = hand_out number (odb_read_u64 b o)

  -- Stops at the first write that does not return 1.
  unfoldable pub write_all : List Item → S → ℕ × S
  write_all [] o = (1, o)
  write_all (i ∷ is) o = write_item i o >> write_all is

  unfoldable pub read_all : List Kind → S → Option (List Value) × S
  read_all [] o = (some [], o)
  read_all (k ∷ ks) o = read_kind k o >>= λ v o'. read_all ks o' >>= λ vs o''. (some (v ∷ vs), o'')

  module _ (s : IsStream b) where
    abbrev size : Item → ℕ
    size i = length (encode i)

    write_item_lem :
        (i : Item) (o : S)
        → s.Valid o
        → IsItem i
        → length (s.content o) + length (encode i) < 2 ^ 64
        → Wrote b s (write_item i o) o (encode i)
    unfolding odb_write_u8 odb_write_u16 odb_write_u32 odb_write_u64
    write_item_lem (string bytes) o v h room = odb_write_string_lem b s bytes o v h (
        omega (
          arith,
          length-append (put_u32_le (length bytes)) bytes,
          length-put_u32_le (length bytes),
        ))
    write_item_lem (binary bytes) o v h room = odb_write_binary_lem b s bytes o v h (
        omega (
          arith,
          length-append (put_u32_le (length bytes)) bytes,
          length-put_u32_le (length bytes),
        ))
    write_item_lem (u8 x) o v h room = write_exact_lem b s (x ∷ []) o v room
    write_item_lem (u16 x) o v h room = write_exact_lem b s (put_u16_le x) o v room
    write_item_lem (u32 x) o v h room = write_exact_lem b s (put_u32_le x) o v room
    write_item_lem (u64 x) o v h room = write_exact_lem b s (put_u64_le x) o v room

    hand_out_lem {κ} :
        {A : Type κ} (f : A → Value) (r : Option A × S) {x : A} (rest : List ℕ)
        → Got b s r x rest
        → Got b s (hand_out f r) (f x) rest
    hand_out_lem f r rest (o', e, after, v) = (o', ap (hand_out f) e, after, v)

    read_kind_lem :
        (i : Item) (rest : List ℕ) (o : S)
        → s.Valid o
        → IsItem i
        → s.pending o ≡ encode i ++ rest
        → Got b s (read_kind (kind_of i) o) (as_value i) rest
    unfolding odb_read_u8 odb_read_u16 odb_read_u32 odb_read_u64
    read_kind_lem (string bytes) rest o v h p =
        hand_out_lem text _ rest (odb_read_string_lem b s bytes rest o v h p)
    read_kind_lem (binary bytes) rest o v h p =
        hand_out_lem block _ rest (odb_read_binary_lem b s bytes rest o v h p)
    read_kind_lem (u8 x) rest o v h p =
        hand_out_lem number _ rest (read_number_lem b s 1 _ x (x ∷ []) rest o v p refl refl)
    read_kind_lem (u16 x) rest o v h p = hand_out_lem number _ rest (
        read_number_lem b s 2 _ x (put_u16_le x) rest o v p (omega (arith, length-put_u16_le x))
          (get_u16_le-put x h))
    read_kind_lem (u32 x) rest o v h p = hand_out_lem number _ rest (
        read_number_lem b s 4 _ x (put_u32_le x) rest o v p (omega (arith, length-put_u32_le x))
          (get_u32_le-put x h))
    read_kind_lem (u64 x) rest o v h p = hand_out_lem number _ rest (
        read_number_lem b s 8 _ x (put_u64_le x) rest o v p (omega (arith, length-put_u64_le x))
          (get_u64_le-put x h))

    -- On any backend that is a stream of bytes, items with the C types of the arguments, written
    -- one after another to a valid stream with room for them below 2^64 bytes: every write
    -- returns 1, the stream's content grows by the items' bytes in order, and the stream stays
    -- valid.
    pub write_all_lem :
        (is : List Item) (o : S)
        → s.Valid o
        → AllItems is
        → length (s.content o) + length (encode_all is) < 2 ^ 64
        → Wrote b s (write_all is o) o (encode_all is)
    unfolding write_all
    write_all_lem [] o v h room = (o, refl, sym (append-nil (s.content o)), v)
    write_all_lem (i ∷ is) o v h room =
        let (o', e, c, v') =
          write_item_lem i o v h.0 (omega (arith, length-append (encode i) (encode_all is))) in
        let (o'', e', c', v'') = write_all_lem is o' v' h.1 (
          omega (
            arith,
            ap length c,
            length-append (s.content o) (encode i),
            length-append (encode i) (encode_all is),
          )) in
        (
          o'',
          rw (e, write_all) e',
          c'
              ∙ ap (λ t. t ++ encode_all is) c
              ∙ append_assoc (s.content o) (encode i) (encode_all is),
          v'',
        )

    -- On any backend that is a stream of bytes, a valid stream whose next bytes are those of
    -- items with the C types of the arguments, in order: the reads of their kinds hand out their
    -- values, leave what follows, and the stream stays valid.
    pub read_all_lem :
        (is : List Item) (rest : List ℕ) (o : S)
        → s.Valid o
        → AllItems is
        → s.pending o ≡ encode_all is ++ rest
        → Got b s (read_all (kinds is) o) (values is) rest
    unfolding read_all
    read_all_lem [] rest o v h p = (o, refl, p, v)
    read_all_lem (i ∷ is) rest o v h p =
        let (o', e, after, v') =
          read_kind_lem i (encode_all is ++ rest) o v h.0
            (p ∙ append_assoc (encode i) (encode_all is) rest) in
        let (o'', e', after', v'') = read_all_lem is rest o' v' h.1 after in
        (o'', rw (e, read_all, e'), after', v'')
