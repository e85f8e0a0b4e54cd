-- ===== src/Object/RoundTrip.antt =====
-- Objects that one manager saves, another loads through the id map of a loaded registry.
use latte_c.Prelude.{
  ℕ, zero, suc, ◌+◌, ◌≤◌, ◌<◌, ◌^◌, ◌≡◌, ◌≢◌, refl, sym, ap, ◌∙◌, ==_ne, true, inl, inr, Bool-cases,
  Option, none, some, List, [], ◌∷◌, ◌++◌, append_assoc, append-nil, length, length-append, get_or,
  arith,
}
use latte_c.Odb.Oio.{OioBackend, IsStream}
use latte_c.Odb.{odb_write_u8}
use latte_c.Odb.RoundTrip.{write_exact_lem}
use latte_c.Odb.Buffer.{
  OioBuffer, odb_oio_create_buffer, odb_oio_buffer_rewind, buffer_backend, buffer_stream, rest_of,
}
use latte_c.Object.{
  ErrorCode, c_ok, c_corruption, LatteObject, TypeEntry, name_of, is_named, find_from,
  find_type_id_by_name, entry_at, when_used, owned, out, failed, load_as, object_manager_save,
  object_manager_load,
}
use latte_c.Object.Registry.{unmapped, object_manager_save_registry, object_manager_load_registry}
use latte_c.Object.Names.{IsValid, registered, add_name}
use latte_c.Object.Stream.{
  Saved, AreKnown, mapped, id_or, encode_registry, odb_read_u8_lem,
  object_manager_save_registry_lem, object_manager_load_registry_lem,
}
use latte_c.Object.Load.{translated, mapped-at}

module _ {ℓ} {S P : Type ℓ} (b : OioBackend S) (s : IsStream b) where
  -- A pair of callbacks: the bytes that one writes for an object, the other reads as a copy.
  pub record IsCodec (save : S → LatteObject P → ErrorCode × S)
      (load : S → (Option ErrorCode × Option (LatteObject P)) × S) (obj copy : LatteObject P)
      (bytes : List ℕ) : Type (ℓ ⊔ 1) where
    pub saves :
        (o : S)
        → s.Valid o
        → length (s.content o) + length bytes < 2 ^ 64
        → (o' : S) × (save o obj ≡ (c_ok, o')) × (s.content o' ≡ s.content o ++ bytes) × s.Valid o'
    pub loads :
        (o : S) (rest : List ℕ)
        → s.Valid o
        → s.pending o ≡ bytes ++ rest
        → (o' : S) × (load o ≡ ((none, some copy), o')) × (s.pending o' ≡ rest) × s.Valid o'

module _ {ℓ} {S P M : Type ℓ} (b : OioBackend S) (s : IsStream b) where
  object_manager_save_lem :
      (m : List (TypeEntry S P M)) (obj : LatteObject P) (save : S → LatteObject P → ErrorCode × S)
      (load : S → (Option ErrorCode × Option (LatteObject P)) × S) (copy : LatteObject P)
      (bytes : List ℕ) (o : S)
      → when_used (entry_at m obj.tag) (entry_at m obj.tag).save_fn ≡ some save
      → IsCodec b s save load obj copy bytes
      → s.Valid o
      → length (s.content o) + length bytes + 1 < 2 ^ 64
      → Saved b s (object_manager_save b m o obj) o (obj.tag ∷ bytes)
  unfolding object_manager_save odb_write_u8
  object_manager_save_lem m obj save load copy bytes o h codec v room =
      let (o', e, c, v') = write_exact_lem b s (obj.tag ∷ []) o v (omega arith) in
      let (o'', e', c', v'') =
        codec.saves o' v'
          (omega (arith, ap (λ t. length t) c, length-append (s.content o) (obj.tag ∷ []))) in
      (
        o'',
        rw (h, object_manager_save, e, e') refl,
        c' ∙ ap (λ t. t ++ bytes) c ∙ append_assoc (s.content o) (obj.tag ∷ []) bytes,
        v'',
      )

  object_manager_load_lem :
      (m : List (TypeEntry S P M)) (obj : LatteObject P) (save : S → LatteObject P → ErrorCode × S)
      (load : S → (Option ErrorCode × Option (LatteObject P)) × S) (copy : LatteObject P)
      (bytes id_map rest : List ℕ) (id saved_id : ℕ) (o : S)
      → when_used (entry_at m id) (entry_at m id).load_fn ≡ some load
      → get_or id_map saved_id 0 ≡ id
      → id ≢ 255
      → IsCodec b s save load obj copy bytes
      → s.Valid o
      → s.pending o ≡ saved_id ∷ (bytes ++ rest)
      → (o' : S) × (object_manager_load b m o (some id_map) ≡ (out (owned id copy), o'))
        × (s.pending o' ≡ rest)
        × s.Valid o'
  unfolding object_manager_load
  object_manager_load_lem m obj save load copy bytes id_map rest id saved_id o h g ne codec v p =
      let (o', e, p', v') = odb_read_u8_lem b s saved_id (bytes ++ rest) o v p in
      let (o'', e', p'', v'') = codec.loads o' rest v' p' in
      (
        o'',
        rw (e, object_manager_load, g, ==_ne id 255 ne, load_as, h, e')
            (ap (λ (k : ℕ). (out (owned k copy), o'')) g),
        p'',
        v'',
      )

  -- A type with the id 255 is taken for one that the map does not have.
  object_manager_load_last :
      (m : List (TypeEntry S P M)) (id_map rest : List ℕ) (saved_id : ℕ) (o : S)
      → get_or id_map saved_id 0 ≡ 255
      → s.Valid o
      → s.pending o ≡ saved_id ∷ rest
      → (o' : S) × (object_manager_load b m o (some id_map) ≡ (failed c_corruption, o'))
  unfolding object_manager_load
  object_manager_load_last m id_map rest saved_id o g v p =
      let (o', e, p', v') = odb_read_u8_lem b s saved_id rest o v p in
      (o', rw (e, object_manager_load, g) refl)

module _ {ℓ} {S P M : Type ℓ} where
  find_from-used :
      (n : List ℕ) (es : List (TypeEntry S P M)) (i k : ℕ)
      → find_from n es i ≡ some k
      → (j : ℕ) × (k ≡ i + j) × ((entry_at es j).used ≡ true) × (j < length es)
  unfolding find_from
  find_from-used n [] i k h = absurd (cc h)
  find_from-used n (e ∷ es) i k h = elim (Bool-cases (is_named n e)) [
    | inl g ↦ let q : i ≡ k = cc (rw g at h) in (0, omega arith, in_use e g, omega arith)
    | inr g ↦
        let (j, q, u, l) = find_from-used n es (i + 1) k (rw g at h) in
        (suc j, omega arith, u, omega arith)
  ]
    where
      in_use : (e : TypeEntry S P M) → is_named n e ≡ true → e.used ≡ true
      in_use e g = elim (Bool-cases e.used) [ inl u ↦ u | inr u ↦ absurd (cc (rw u at g)) ]

  length-registered : (es : List (TypeEntry S P M)) (i : ℕ) → length (registered es i) ≤ length es
  unfolding registered
  length-registered [] i = omega arith
  length-registered (e ∷ es) i = by_name (name_of e) (length-registered es (i + 1))
    where
      by_name :
          (x : Option (List ℕ))
          → length (registered es (i + 1)) ≤ length es
          → length (add_name i x (registered es (i + 1))) ≤ suc (length es)
      by_name none h = omega arith
      by_name (some n) h = omega arith

  -- A name that is found stands at an entry in use.
  when_used-found :
      {A : Type ℓ} (m : List (TypeEntry S P M)) (n : List ℕ) (id : ℕ) (fn : Option A)
      → find_type_id_by_name m n ≡ some id
      → when_used (entry_at m id) fn ≡ fn
  unfolding find_type_id_by_name
  when_used-found m n id fn h =
      let (j, q, u, l) = find_from-used n m 0 id h in let r : id ≡ j = omega arith in rw (r, u) refl

  when_used-named :
      {A : Type ℓ} (e : TypeEntry S P M) (n : List ℕ) (fn : Option A)
      → name_of e ≡ some n
      → when_used e fn ≡ fn
  when_used-named e n fn h = elim (Bool-cases e.used) [
    | inl u ↦ rw u refl
    | inr u ↦ absurd (cc (rw u at h))
  ]

-- What the saving manager writes for an object behind its registry, and what the loading one is to
-- find there.
module _ {P M : Type 0} (m1 m2 : List (TypeEntry OioBuffer P M)) (obj copy : LatteObject P)
    (save : OioBuffer → LatteObject P → ErrorCode × OioBuffer)
    (load : OioBuffer → (Option ErrorCode × Option (LatteObject P)) × OioBuffer) (n bytes : List ℕ)
    (id : ℕ) where
  pub record IsTransfer : Type 1 where
    pub saver : IsValid m1
    pub loader : IsValid m2
    pub known : AreKnown m2 (registered m1 0)
    pub tag : obj.tag < 256
    pub type_name : name_of (entry_at m1 obj.tag) ≡ some n
    pub save_fn : (entry_at m1 obj.tag).save_fn ≡ some save
    pub found : find_type_id_by_name m2 n ≡ some id
    pub load_fn : (entry_at m2 id).load_fn ≡ some load
    pub codec : IsCodec buffer_backend buffer_stream save load obj copy bytes
    pub room : length (encode_registry m1) + length bytes + 1 < 2 ^ 64

  -- The two saves, and the registry loaded after a rewind.
  record Prepared : Type 0 where
    after_registry : OioBuffer
    after_object : OioBuffer
    before_load : OioBuffer
    id_map : List ℕ
    registry_saved :
        object_manager_save_registry buffer_backend m1 odb_oio_create_buffer
        ≡ (none, after_registry)
    object_saved : object_manager_save buffer_backend m1 after_registry obj ≡ (none, after_object)
    registry_loaded :
        object_manager_load_registry buffer_backend m2 (odb_oio_buffer_rewind after_object)
        ≡ (none, id_map, before_load)
    leads : get_or id_map obj.tag 0 ≡ id
    pending : rest_of before_load ≡ obj.tag ∷ (bytes ++ [])
    valid : buffer_stream.Valid before_load

  id_small : IsTransfer → id < 256
  unfolding find_type_id_by_name
  id_small t = let (j, q, u, l) = find_from-used n m2 0 id t.found in omega (arith, t.loader.sized)

  length-unmapped : (k : ℕ) → length (unmapped k) ≡ k
  unfolding unmapped
  length-unmapped zero = refl
  length-unmapped (suc k) = ap (λ j. suc j) (length-unmapped k)

  id_map-leads : IsTransfer → get_or (mapped m2 (registered m1 0) (unmapped 256)) obj.tag 0 ≡ id
  id_map-leads t =
      let at =
        mapped-at m2 m1 0 obj.tag (unmapped 256) (omega (arith, t.tag, t.saver.sized))
          (omega (arith, t.saver.sized, length-unmapped 256)) in
      let named = ap (λ x. translated m2 x (get_or (unmapped 256) (0 + obj.tag) 0)) t.type_name in
      let found = ap (λ x. id_or x) t.found in
      let start : 0 + obj.tag ≡ obj.tag = omega arith in
      omega (arith, rw start at (at ∙ named ∙ found), id_small t)

  prepared : IsTransfer → Prepared
  unfolding buffer_stream odb_oio_buffer_rewind
  prepared t =
      let (o1, e1, c1, v1) =
        object_manager_save_registry_lem buffer_backend buffer_stream m1 odb_oio_create_buffer
          (record { inside = omega arith; small = omega arith }) t.saver.named
          (omega (arith, t.room)) in
      let (o2, e2, c2, v2) =
        object_manager_save_lem buffer_backend buffer_stream m1 obj save load copy bytes o1
          (when_used-named (entry_at m1 obj.tag) n (entry_at m1 obj.tag).save_fn t.type_name
            ∙ t.save_fn)
          t.codec v1 (omega (arith, t.room, ap (λ x. length x) c1)) in
      let ps = registered m1 0 in
      let (o3, e3, p3, v3) =
        object_manager_load_registry_lem buffer_backend buffer_stream m2 ps
          (obj.tag ∷ (bytes ++ [])) (odb_oio_buffer_rewind o2)
          (record { inside = omega arith; small = v2.small }) t.known
          (omega (arith, length-registered m1 0, t.saver.sized))
          (c2
            ∙ ap (λ x. x ++ (obj.tag ∷ bytes)) c1
            ∙ ap (λ x. encode_registry m1 ++ (obj.tag ∷ x)) (sym (append-nil bytes))) in
      record {
        after_registry = o1;
        after_object = o2;
        before_load = o3;
        id_map = mapped m2 ps (unmapped 256);
        registry_saved = e1;
        object_saved = e2;
        registry_loaded = e3;
        leads = id_map-leads t;
        pending = p3;
        valid = v3;
      }

  -- For two valid managers (256 entries; those in use have names, no two the same), a name of
  -- which the first has a type and the second has registered, as it has all names of the first,
  -- and callbacks of which the load reads what the save writes: the registry and an object of the
  -- type, together less than 2^64 bytes, are saved by the first to a new buffer without error,
  -- and after a rewind the second loads the registry without error; where the second's id of the
  -- name is not 255, it then loads the object through the id map, as the callback's copy with
  -- that id and one reference, and leaves nothing to be read.
  pub object_manager_load-object_manager_save :
      IsTransfer
      → id ≢ 255
      → (o1 : OioBuffer) × (o2 : OioBuffer) × (id_map : List ℕ) × (o3 : OioBuffer)
        × (o4 : OioBuffer) × (object_manager_save_registry buffer_backend m1 odb_oio_create_buffer
            ≡ (none, o1))
        × (object_manager_save buffer_backend m1 o1 obj ≡ (none, o2))
        × (object_manager_load_registry buffer_backend m2 (odb_oio_buffer_rewind o2)
            ≡ (none, id_map, o3))
        × (object_manager_load buffer_backend m2 o3 (some id_map) ≡ (out (owned id copy), o4))
        × (rest_of o4 ≡ [])
  unfolding buffer_stream
  object_manager_load-object_manager_save t ne =
      let p = prepared t in
      let (o4, e, r, v) =
        object_manager_load_lem buffer_backend buffer_stream m2 obj save load copy bytes p.id_map []
          id obj.tag p.before_load
          (when_used-found m2 n id (entry_at m2 id).load_fn t.found ∙ t.load_fn) p.leads ne t.codec
          p.valid p.pending in
      (
        p.after_registry, p.after_object, p.id_map, p.before_load, o4, p.registry_saved,
        p.object_saved, p.registry_loaded, e, r,
      )

  -- For two valid managers (256 entries; those in use have names, no two the same), a name of
  -- which the first has a type and the second has registered, as it has all names of the first,
  -- and callbacks of which the load reads what the save writes: the registry and an object of the
  -- type, together less than 2^64 bytes, are saved by the first to a new buffer without error,
  -- and after a rewind the second loads the registry without error; where the second's id of the
  -- name is 255, the load of the object through the id map fails with CCorruption.
  pub object_manager_load-last_type :
      IsTransfer
      → id ≡ 255
      → (o1 : OioBuffer) × (o2 : OioBuffer) × (id_map : List ℕ) × (o3 : OioBuffer)
        × (o4 : OioBuffer) × (object_manager_save_registry buffer_backend m1 odb_oio_create_buffer
            ≡ (none, o1))
        × (object_manager_save buffer_backend m1 o1 obj ≡ (none, o2))
        × (object_manager_load_registry buffer_backend m2 (odb_oio_buffer_rewind o2)
            ≡ (none, id_map, o3))
        × (object_manager_load buffer_backend m2 o3 (some id_map) ≡ (failed c_corruption, o4))
  unfolding buffer_stream
  object_manager_load-last_type t last =
      let p = prepared t in
      let (o4, e) =
        object_manager_load_last buffer_backend buffer_stream m2 p.id_map (bytes ++ []) obj.tag
          p.before_load (p.leads ∙ last) p.valid p.pending in
      (
        p.after_registry, p.after_object, p.id_map, p.before_load, o4, p.registry_saved,
        p.object_saved, p.registry_loaded, e,
      )
