-- ===== src/Object/Stream.antt =====
-- What object_manager_save_registry writes, object_manager_load_registry reads.
use latte_c.Prelude.{
  ℕ, suc, ◌+◌, ◌%◌, ◌<◌, ◌^◌, ◌≡◌, refl, sym, ap, ◌∙◌, inl, inr, Option, none, some, List, [], ◌∷◌,
  ◌++◌, append_assoc, append-nil, length, length-append, set, get_or, arith,
}
use latte_c.Odb.Oio.{OioBackend, IsStream}
use latte_c.Odb.Bytes.{put_u32_le, length-put_u32_le, get_u32_le-put}
use latte_c.Odb.{odb_write_u8, odb_write_u32, odb_write_string, odb_read_u8, odb_read_u32}
use latte_c.Odb.RoundTrip.{
  Wrote, Got, write_exact_lem, read_number_lem, odb_write_string_lem, odb_read_string_lem,
}
use latte_c.Object.{c_not_found, ErrorCode, TypeEntry, find_type_id_by_name}
use latte_c.Object.Registry.{
  unmapped, written, count_used, save_types, object_manager_save_registry, load_types,
  object_manager_load_registry,
}
use latte_c.Object.Names.{IsName, IsNamedAs-cases, AreNamed, registered, c_string-IsCString}

-- An id and a name on the stream.
abbrev pub encode_name : ℕ → List ℕ → List ℕ
encode_name i n = (i ∷ []) ++ (put_u32_le (length n) ++ n)

abbrev pub encode_names : List (ℕ × List ℕ) → List ℕ
encode_names [] = []
encode_names ((i, n) ∷ ps) = encode_name i n ++ encode_names ps

abbrev pub id_or : Option ℕ → ℕ
id_or none = 0xFF
id_or (some id) = id % 256

module _ {ℓ} {S P M : Type ℓ} where
  -- The bytes of a saved registry.
  abbrev pub encode_registry : List (TypeEntry S P M) → List ℕ
  encode_registry m = put_u32_le (length (registered m 0)) ++ encode_names (registered m 0)

  -- Each saved name is one of this manager's.
  abbrev pub AreKnown : List (TypeEntry S P M) → List (ℕ × List ℕ) → Type 0
  AreKnown m [] = Unit
  AreKnown m ((i, n) ∷ ps) =
      IsName n × ((id : ℕ) × (find_type_id_by_name m n ≡ some id)) × AreKnown m ps

  -- The id map with each saved id sent to that of its name.
  abbrev pub mapped : List (TypeEntry S P M) → List (ℕ × List ℕ) → List ℕ → List ℕ
  mapped m [] id_map = id_map
  mapped m ((i, n) ∷ ps) id_map = mapped m ps (set id_map i (id_or (find_type_id_by_name m n)))

module _ {ℓ} {S : Type ℓ} (b : OioBackend S) (s : IsStream b) where
  -- A call without error, which appends `bytes`.
  abbrev pub Saved : Option ErrorCode × S → S → List ℕ → Type ℓ
  Saved r o bytes = (o' : S) × (r ≡ (none, o')) × (s.content o' ≡ s.content o ++ bytes) × s.Valid o'

  written-Saved :
      (r : ℕ × S) (o : S) (bytes more : List ℕ) (next : S → Option ErrorCode × S)
      → Wrote b s r o bytes
      → ((o' : S) → s.Valid o' → s.content o' ≡ s.content o ++ bytes → Saved (next o') o' more)
      → Saved (written r next) o (bytes ++ more)
  written-Saved r o bytes more next (o', e, c, v) h =
      let (o'', e', c', v') = h o' v c in
      (o'', rw e e', c' ∙ ap (λ t. t ++ more) c ∙ append_assoc (s.content o) bytes more, v')

  pub odb_read_u8_lem :
      (v : ℕ) (rest : List ℕ) (o : S)
      → s.Valid o
      → s.pending o ≡ v ∷ rest
      → Got b s (odb_read_u8 b o) v rest
  unfolding odb_read_u8
  odb_read_u8_lem v rest o ok p =
      read_number_lem b s 1 (λ buf. get_or buf 0 0) v (v ∷ []) rest o ok p refl refl

  odb_read_u32_lem :
      (v : ℕ) (rest : List ℕ) (o : S)
      → s.Valid o
      → v < 2 ^ 32
      → s.pending o ≡ put_u32_le v ++ rest
      → Got b s (odb_read_u32 b o) v rest
  unfolding odb_read_u32
  odb_read_u32_lem v rest o ok h p =
      read_number_lem b s 4 _ v (put_u32_le v) rest o ok p (omega (arith, length-put_u32_le v))
        (get_u32_le-put v h)

  module _ {P M : Type ℓ} where
    save_types_lem :
        (es : List (TypeEntry S P M)) (i : ℕ) (o : S)
        → s.Valid o
        → AreNamed es
        → length (s.content o) + length (encode_names (registered es i)) < 2 ^ 64
        → Saved (save_types b es i o) o (encode_names (registered es i))
    unfolding save_types registered
    save_types_lem [] i o v h room = (o, refl, sym (append-nil (s.content o)), v)
    save_types_lem (e ∷ es) i o v h room = elim (IsNamedAs-cases e.used e.name h.0) [
      | inl (u, none_) ↦
          let same : registered (e ∷ es) i ≡ registered es (i + 1) = rw (none_, registered) refl in
          let (o', g, c, v') =
            save_types_lem es (i + 1) o v h.1
              (omega (arith, ap (λ ps. length (encode_names ps)) same)) in
          (o', rw (none_, save_types) g, rw (none_, registered) c, v')
      | inr (n, u, named, w) ↦
          let rest = encode_names (registered es (i + 1)) in
          let all : encode_names (registered (e ∷ es) i) ≡ encode_name i n ++ rest =
            rw (named, registered) refl in
          let bytes = put_u32_le (length n) ++ n in
          let sizes = ap (λ t. length t) all ∙ length-append ((i ∷ []) ++ bytes) rest in
          let more = length-append (put_u32_le (length n)) n in
          let four = length-put_u32_le (length n) in
          let (o', g, c, v') =
            written-Saved (odb_write_u8 b i o) o (i ∷ []) (bytes ++ rest)
              (λ o'. written (odb_write_string b n o') (λ o''. save_types b es (i + 1) o''))
              (unfold odb_write_u8 in write_exact_lem b s (i ∷ []) o v (omega arith))
              (λ o' v' c'.
                written-Saved (odb_write_string b n o') o' bytes rest
                  (λ o''. save_types b es (i + 1) o'')
                  (odb_write_string_lem b s n o' v' w.1 (
                    omega (
                      arith,
                      room,
                      sizes,
                      more,
                      four,
                      ap (λ t. length t) c',
                      length-append (s.content o) (i ∷ []),
                    )))
                  (λ o'' v'' c''. save_types_lem es (i + 1) o'' v'' h.1 (
                    omega (
                      arith,
                      room,
                      sizes,
                      more,
                      four,
                      ap (λ t. length t) c',
                      ap (λ t. length t) c'',
                      length-append (s.content o) (i ∷ []),
                      length-append (s.content o') bytes,
                    )))) in
          (o', rw (named, save_types) g, rw (named, registered) c, v')
    ]

    count_used-length :
        (es : List (TypeEntry S P M)) (i : ℕ)
        → AreNamed es
        → count_used es ≡ length (registered es i)
    unfolding count_used registered
    count_used-length [] i h = refl
    count_used-length (e ∷ es) i h = elim (IsNamedAs-cases e.used e.name h.0) [
      | inl (u, free) ↦ rw (free, registered, u, count_used) (count_used-length es (i + 1) h.1)
      | inr (n, u, named, w) ↦
          rw (named, registered, u, count_used) (ap (λ k. suc k) (count_used-length es (i + 1) h.1))
    ]

    pub object_manager_save_registry_lem :
        (m : List (TypeEntry S P M)) (o : S)
        → s.Valid o
        → AreNamed m
        → length (s.content o) + length (encode_registry m) < 2 ^ 64
        → Saved (object_manager_save_registry b m o) o (encode_registry m)
    unfolding object_manager_save_registry
    object_manager_save_registry_lem m o v h room =
        let ps = registered m 0 in
        let count = put_u32_le (length ps) in
        let sizes = length-append count (encode_names ps) in
        rw (count_used-length m 0 h) (
          written-Saved (odb_write_u32 b (length ps) o) o count (encode_names ps)
            (λ o'. save_types b m 0 o')
            (unfold odb_write_u32 in write_exact_lem b s count o v (omega (arith, room, sizes)))
            (λ o' v' c'. save_types_lem m 0 o' v' h (
              omega
                (arith, room, sizes, ap (λ t. length t) c', length-append (s.content o) count))))

    load_types_lem :
        (m : List (TypeEntry S P M)) (ps : List (ℕ × List ℕ)) (id_map rest : List ℕ) (o : S)
        → s.Valid o
        → AreKnown m ps
        → s.pending o ≡ encode_names ps ++ rest
        → (o' : S) × (load_types b m (length ps) id_map o ≡ (none, mapped m ps id_map, o'))
          × (s.pending o' ≡ rest)
          × s.Valid o'
    unfolding load_types
    load_types_lem m [] id_map rest o v k p = (o, refl, p, v)
    load_types_lem m ((i, n) ∷ ps) id_map rest o v (w, (id, f), k) p =
        let bytes = put_u32_le (length n) ++ n in
        let (o', e, p', v') =
          odb_read_u8_lem i (bytes ++ (encode_names ps ++ rest)) o v
            (p ∙ ap (λ t. i ∷ t) (append_assoc bytes (encode_names ps) rest)) in
        let (o'', e', p'', v'') =
          odb_read_string_lem b s n (encode_names ps ++ rest) o' v' w.1 p' in
        let (o3, e3, p3, v3) = load_types_lem m ps (set id_map i (id % 256)) rest o'' v'' k p'' in
        (o3, rw (e, load_types, e', c_string-IsCString n w.0, f) e3, p3, v3)

    pub object_manager_load_registry_lem :
        (m : List (TypeEntry S P M)) (ps : List (ℕ × List ℕ)) (rest : List ℕ) (o : S)
        → s.Valid o
        → AreKnown m ps
        → length ps < 2 ^ 32
        → s.pending o ≡ (put_u32_le (length ps) ++ encode_names ps) ++ rest
        → (o' : S) × (object_manager_load_registry b m o ≡ (none, mapped m ps (unmapped 256), o'))
          × (s.pending o' ≡ rest)
          × s.Valid o'
    unfolding object_manager_load_registry
    object_manager_load_registry_lem m ps rest o v k h p =
        let (o', e, p', v') =
          odb_read_u32_lem (length ps) (encode_names ps ++ rest) o v h
            (p ∙ append_assoc (put_u32_le (length ps)) (encode_names ps) rest) in
        let (o'', e', p'', v'') = load_types_lem m ps (unmapped 256) rest o' v' k p' in
        (o'', rw (e, object_manager_load_registry) e', p'', v'')

    -- The names before an unknown one are mapped.
    load_types-unknown :
        (m : List (TypeEntry S P M)) (ps : List (ℕ × List ℕ)) (i k : ℕ) (n id_map rest : List ℕ)
        (o : S)
        → s.Valid o
        → AreKnown m ps
        → IsName n
        → find_type_id_by_name m n ≡ none
        → s.pending o ≡ encode_names ps ++ (encode_name i n ++ rest)
        → (o' : S) × (load_types b m (length ps + suc k) id_map o
            ≡ (some c_not_found, mapped m ps id_map, o'))
    unfolding load_types
    load_types-unknown m [] i k n id_map rest o v kn w f p =
        let bytes = put_u32_le (length n) ++ n in
        let one : 0 + suc k ≡ suc k = omega arith in
        let (o', e, p', v') = odb_read_u8_lem i (bytes ++ rest) o v p in
        let (o'', e', p'', v'') = odb_read_string_lem b s n rest o' v' w.1 p' in
        (o'', rw (one, load_types, e, e', c_string-IsCString n w.0, f) refl)
    load_types-unknown m ((j, a) ∷ ps) i k n id_map rest o v (aw, (id, g), kn) w f p =
        let bytes = put_u32_le (length a) ++ a in
        let tail = encode_name i n ++ rest in
        let more : suc (length ps) + suc k ≡ suc (length ps + suc k) = omega arith in
        let (o', e, p', v') =
          odb_read_u8_lem j (bytes ++ (encode_names ps ++ tail)) o v
            (p ∙ ap (λ t. j ∷ t) (append_assoc bytes (encode_names ps) tail)) in
        let (o'', e', p'', v'') =
          odb_read_string_lem b s a (encode_names ps ++ tail) o' v' aw.1 p' in
        let (o3, e3) =
          load_types-unknown m ps i k n (set id_map j (id % 256)) rest o'' v'' kn w f p'' in
        (o3, rw (more, load_types, e, e', c_string-IsCString a aw.0, g) e3)

    -- On any backend that is a stream of bytes, a valid stream whose next bytes are a registry of
    -- less than 2^32 types, of which the first few are known to the manager and the next one is
    -- not: object_manager_load_registry gives the error CNotFound, and its id map holds the ids
    -- of those before.
    pub object_manager_load_registry-unknown :
        (m : List (TypeEntry S P M)) (ps : List (ℕ × List ℕ)) (i k : ℕ) (n rest : List ℕ) (o : S)
        → s.Valid o
        → AreKnown m ps
        → IsName n
        → find_type_id_by_name m n ≡ none
        → length ps + suc k < 2 ^ 32
        → s.pending o
          ≡ put_u32_le (length ps + suc k) ++ (encode_names ps ++ (encode_name i n ++ rest))
        → (o' : S) × (object_manager_load_registry b m o
            ≡ (some c_not_found, mapped m ps (unmapped 256), o'))
    unfolding object_manager_load_registry
    object_manager_load_registry-unknown m ps i k n rest o v kn w f h p =
        let (o', e, p', v') =
          odb_read_u32_lem (length ps + suc k) (encode_names ps ++ (encode_name i n ++ rest)) o v h
            p in
        let (o'', e') = load_types-unknown m ps i k n (unmapped 256) rest o' v' kn w f p' in
        (o'', rw (e, object_manager_load_registry) e')
