-- ===== src/Object/Registry.antt =====
-- object/object_manager.c: the registry on a stream. A saved registry is the number of types, and an id
-- and a name for each.
use latte_c.Prelude.{
  ℕ, zero, suc, ◌+◌, ◌==◌, ◌%◌, if◌then◌else◌, Option, none, some, List, [], ◌∷◌, set,
}
use latte_c.Odb.Oio.{OioBackend}
use latte_c.Odb.{
  odb_write_u8, odb_write_u32, odb_write_string, odb_read_u8, odb_read_u32, odb_read_string,
}
use latte_c.Object.{ErrorCode, c_io_error, c_not_found, TypeEntry, name_of, find_type_id_by_name}

-- The bytes of a string up to its first zero, as `strcmp` reads them.
unfoldable pub c_string : List ℕ → List ℕ
c_string [] = []
c_string (x ∷ xs) = let rest = c_string xs in if x == 0 then [] else x ∷ rest

-- `memset(id_map, 0xFF, n)`
unfoldable pub unmapped : ℕ → List ℕ
unmapped zero = []
unmapped (suc n) = 0xFF ∷ unmapped n

-- A write that does not return 1 is an I/O error.
abbrev pub written {ℓ} : {S : Type ℓ} → ℕ × S → (S → Option ErrorCode × S) → Option ErrorCode × S
written (n, o) next = if n == 1 then next o else (some c_io_error, o)

-- A read that fails is an I/O error; the map is left as it is then.
abbrev pub read_or {ℓ κ} :
    {S : Type ℓ} {A : Type κ}
    → Option A × S
    → List ℕ
    → (A → S → Option ErrorCode × List ℕ × S)
    → Option ErrorCode × List ℕ × S
read_or (none, o) id_map next = (some c_io_error, id_map, o)
read_or (some a, o) id_map next = next a o

-- `id_map[saved_id] = (uint8_t)current_id`, and the next round, where the name is registered.
abbrev pub map_id {ℓ} :
    {S : Type ℓ}
    → ℕ
    → List ℕ
    → S
    → (List ℕ → S → Option ErrorCode × List ℕ × S)
    → Option ℕ
    → Option ErrorCode × List ℕ × S
map_id saved_id id_map o next none = (some c_not_found, id_map, o)
map_id saved_id id_map o next (some id) = next (set id_map saved_id (id % 256)) o

module _ {ℓ} {S P M : Type ℓ} where
  -- `if (m->types[i].used) count++`
  unfoldable pub count_used : List (TypeEntry S P M) → ℕ
  count_used [] = 0
  count_used (e ∷ es) = let rest = count_used es in if e.used then suc rest else rest

  module _ (b : OioBackend S) where
    -- The loop from index `i`.
    unfoldable pub save_types : List (TypeEntry S P M) → ℕ → S → Option ErrorCode × S
    save_types [] i o = (none, o)
    save_types (e ∷ es) i o = elim (name_of e) [
      | none ↦ save_types es (i + 1) o
      | some n ↦
          written (odb_write_u8 b i o)
            (λ o'. written (odb_write_string b n o') (λ o''. save_types es (i + 1) o''))
    ]

    unfoldable pub object_manager_save_registry : List (TypeEntry S P M) → S → Option ErrorCode × S
    object_manager_save_registry m o =
        written (odb_write_u32 b (count_used m) o) (λ o'. save_types m 0 o')

    -- So many rounds of the loop.
    unfoldable pub load_types :
        List (TypeEntry S P M) → ℕ → List ℕ → S → Option ErrorCode × List ℕ × S
    load_types m zero id_map o = (none, id_map, o)
    load_types m (suc n) id_map o = read_or (odb_read_u8 b o) id_map (λ saved_id o'.
        read_or (odb_read_string b o') id_map (λ type_name o''.
          map_id saved_id id_map o'' (λ ids o3. load_types m n ids o3)
            (find_type_id_by_name m (c_string type_name))))

    -- The error, the id map and the stream.
    unfoldable pub object_manager_load_registry :
        List (TypeEntry S P M) → S → Option ErrorCode × List ℕ × S
    object_manager_load_registry m o =
        read_or (odb_read_u32 b o) (unmapped 256) (λ count o'. load_types m count (unmapped 256) o')
