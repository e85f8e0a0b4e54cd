-- ===== src/Object.antt =====
-- object/object.c, object/object.h and object/object_manager.c: the registry of object types, objects
-- with a reference count, and their saving and loading over odb.c. The modules below hold the
-- registry on a stream (`Registry`) and the proofs.
--
-- The global manager is the list of its 256 entries. A callback is a function, NULL `none`; those
-- that allocate or release act on the memory `M`, those that save or load on the state `S` of the stream.
-- A name is the bytes of a C string; `sds_new` succeeds. An error is its code, `none` the NULL of
-- success. The arguments `o`, `obj`, `out_obj` and `id_map` of the stream's functions are not NULL.
pub mod Registry
pub mod Names
pub mod Register
pub mod Stream
pub mod Load
pub mod RoundTrip
pub mod Counting
mod Examples
use latte_c.Prelude.{
  ℕ, zero, suc, ◌+◌, ◌-◌, ◌%◌, ◌≡◌, ltb, leb, ◌==◌, if◌then◌else◌, Bool, true, false, ◌&&◌, Option,
  none, some, List, [], ◌∷◌, length, get_or, set, ℤ, pos, negsuc,
}
use latte_c.Odb.Oio.{OioBackend}
use latte_c.Odb.{odb_write_u8, odb_read_u8}

pub data ErrorCode : Type 0 where
  c_ok c_not_found c_corruption c_not_supported c_invalid_argument c_io_error : ErrorCode

-- `strcmp(a, b) == 0`
abbrev pub same_name : List ℕ → List ℕ → Bool
same_name [] [] = true
same_name [] (y ∷ ys) = false
same_name (x ∷ xs) [] = false
same_name (x ∷ xs) (y ∷ ys) = (x == y) && same_name xs ys

pub record LatteObject {ℓ} (P : Type ℓ) : Type ℓ where
  pub tag : ℕ
  pub lru : ℕ
  pub refcount : ℕ
  pub ptr : Option P

-- `type_entry_t`, for a stream, what objects point to, and memory.
pub record TypeEntry {ℓ} (S P M : Type ℓ) : Type ℓ where
  pub used : Bool
  pub name : Option (List ℕ)
  pub create_fn : Option (M → Option (LatteObject P) × M)
  pub release_fn : Option (LatteObject P → M → M)
  pub save_fn : Option (S → LatteObject P → ErrorCode × S)
  pub load_fn : Option (S → (Option ErrorCode × Option (LatteObject P)) × S)
  pub calc_fn : Option (LatteObject P → ℕ)

module _ {ℓ} {P : Type ℓ} where
  -- `obj->type = id; obj->refcount = 1`
  abbrev pub owned : ℕ → LatteObject P → LatteObject P
  owned id o = record { tag = id % 256; lru = o.lru; refcount = 1; ptr = o.ptr }

  unfoldable pub latte_object_incr_ref_count : LatteObject P → LatteObject P
  latte_object_incr_ref_count o = record {
    tag = o.tag;
    lru = o.lru;
    refcount = (o.refcount + 1) % 4294967296;
    ptr = o.ptr;
  }

  abbrev pub with_count : ℕ → LatteObject P → LatteObject P
  with_count n o = record { tag = o.tag; lru = o.lru; refcount = n; ptr = o.ptr }

  abbrev pub out : LatteObject P → (Option ErrorCode × Option (LatteObject P))
  out o = (none, some o)

  abbrev pub failed : ErrorCode → (Option ErrorCode × Option (LatteObject P))
  failed c = (some c, none)

module _ {ℓ κ} {P : Type ℓ} {X : Type κ} where
  abbrev pub created : ℕ → Option (LatteObject P) × X → Option (LatteObject P) × X
  created id (none, mem) = (none, mem)
  created id (some o, mem) = (some (owned id o), mem)

  abbrev pub load_result :
      ℕ
      → (Option ErrorCode × Option (LatteObject P)) × X
      → (Option ErrorCode × Option (LatteObject P)) × X
  load_result id ((some c, obj), o) = (failed c, o)
  load_result id ((none, none), o) = (failed c_corruption, o)
  load_result id ((none, some obj), o) = (out (owned id obj), o)

abbrev pub save_result {κ} : {X : Type κ} → ErrorCode × X → Option ErrorCode × X
save_result (c_ok, o) = (none, o)
save_result (c_not_found, o) = (some c_not_found, o)
save_result (c_corruption, o) = (some c_corruption, o)
save_result (c_not_supported, o) = (some c_not_supported, o)
save_result (c_invalid_argument, o) = (some c_invalid_argument, o)
save_result (c_io_error, o) = (some c_io_error, o)

-- The write of the type's id, and the callback where it returned 1.
abbrev pub save_with {ℓ κ} :
    {P : Type ℓ} {X : Type κ}
    → (X → LatteObject P → ErrorCode × X)
    → LatteObject P
    → ℕ × X
    → Option ErrorCode × X
save_with save obj (n, o) = if n == 1 then save_result (save o obj) else (some c_io_error, o)

module _ {ℓ} {S P M : Type ℓ} where
  abbrev pub empty_entry : TypeEntry S P M
  empty_entry = record {
    used = false;
    name = none;
    create_fn = none;
    release_fn = none;
    save_fn = none;
    load_fn = none;
    calc_fn = none;
  }

  -- The name of an entry in use.
  abbrev pub name_of : TypeEntry S P M → Option (List ℕ)
  name_of e = if e.used then e.name else none

  -- `used && name && strcmp(name, type_name) == 0`
  abbrev pub is_named : List ℕ → TypeEntry S P M → Bool
  is_named type_name e = elim (name_of e) [ none ↦ false | some n ↦ same_name n type_name ]

  -- The loop from index `i`.
  unfoldable pub find_from : List ℕ → List (TypeEntry S P M) → ℕ → Option ℕ
  find_from type_name [] i = none
  find_from type_name (e ∷ es) i =
      let rest = find_from type_name es (i + 1) in if is_named type_name e then some i else rest

  -- `none` is -1.
  unfoldable pub find_type_id_by_name : List (TypeEntry S P M) → List ℕ → Option ℕ
  find_type_id_by_name m type_name = find_from type_name m 0

  unfoldable pub free_from : List (TypeEntry S P M) → ℕ → Option ℕ
  free_from [] i = none
  free_from (e ∷ es) i = let rest = free_from es (i + 1) in if e.used then rest else some i

  unfoldable pub first_free_slot : List (TypeEntry S P M) → Option ℕ
  first_free_slot m = free_from m 0

  -- The entries after `memset(m, 0, sizeof(*m))`.
  unfoldable pub cleared_types : ℕ → List (TypeEntry S P M)
  cleared_types zero = []
  cleared_types (suc n) = empty_entry ∷ cleared_types n

  unfoldable pub global_object_manager_init : List (TypeEntry S P M) → List (TypeEntry S P M)
  global_object_manager_init m = cleared_types 256

  unfoldable pub global_object_manager_free : List (TypeEntry S P M) → List (TypeEntry S P M)
  global_object_manager_free m = cleared_types 256

  -- The type goes to the first free slot, unless its name is registered or no slot is free.
  abbrev pub register_at :
      Option ℕ → Option ℕ → TypeEntry S P M → List (TypeEntry S P M) → ℤ × List (TypeEntry S P M)
  register_at (some id) slot e m = (negsuc 0, m)
  register_at none none e m = (negsuc 0, m)
  register_at none (some slot) e m = (pos 0, set m slot e)

  -- All callbacks but `calc_fn` must be given.
  unfoldable pub object_manager_register :
      List (TypeEntry S P M)
      → Option (List ℕ)
      → Option (M → Option (LatteObject P) × M)
      → Option (LatteObject P → M → M)
      → Option (S → LatteObject P → ErrorCode × S)
      → Option (S → (Option ErrorCode × Option (LatteObject P)) × S)
      → Option (LatteObject P → ℕ)
      → ℤ × List (TypeEntry S P M)
  object_manager_register m (some type_name) (some c) (some r) (some s) (some l) calc =
      register_at (find_type_id_by_name m type_name) (first_free_slot m)
        (record {
          used = true;
          name = some type_name;
          create_fn = some c;
          release_fn = some r;
          save_fn = some s;
          load_fn = some l;
          calc_fn = calc;
        })
        m
  object_manager_register m none c r s l calc = (negsuc 0, m)
  object_manager_register m (some n) none r s l calc = (negsuc 0, m)
  object_manager_register m (some n) (some c) none s l calc = (negsuc 0, m)
  object_manager_register m (some n) (some c) (some r) none l calc = (negsuc 0, m)
  object_manager_register m (some n) (some c) (some r) (some s) none calc = (negsuc 0, m)

  abbrev pub entry_at : List (TypeEntry S P M) → ℕ → TypeEntry S P M
  entry_at m id = get_or m id empty_entry

  unfoldable pub object_manager_create_object :
      List (TypeEntry S P M) → List ℕ → M → Option (LatteObject P) × M
  object_manager_create_object m type_name mem = elim (find_type_id_by_name m type_name) [
    | none ↦ (none, mem)
    | some id ↦ elim (entry_at m id).create_fn [
      | none ↦ (none, mem)
      | some create ↦ created id (create mem)
    ]
  ]

  -- The `release_fn` of an object with a payload.
  abbrev pub release_payload : TypeEntry S P M → Option P → LatteObject P → M → M
  release_payload e none o mem = mem
  release_payload e (some p) o mem =
      if e.used then elim e.release_fn [ none ↦ mem | some release ↦ release o mem ] else mem

  unfoldable pub release_wrapped :
      (LatteObject P → M → M) → List (TypeEntry S P M) → LatteObject P → M → M
  release_wrapped zfree m o mem = zfree o (release_payload (entry_at m o.tag) o.ptr o mem)

  unfoldable pub object_manager_create_wrapped :
      List (TypeEntry S P M) → List ℕ → M → Option (LatteObject P) × M
  object_manager_create_wrapped m type_name mem = object_manager_create_object m type_name mem

  -- `none` is NULL.
  unfoldable pub object_manager_release_object :
      (LatteObject P → M → M) → List (TypeEntry S P M) → Option (LatteObject P) → M → M
  object_manager_release_object zfree m none mem = mem
  object_manager_release_object zfree m (some o) mem = release_wrapped zfree m o mem

  unfoldable pub object_manager_release_wrapped :
      (LatteObject P → M → M) → List (TypeEntry S P M) → Option (LatteObject P) → M → M
  object_manager_release_wrapped zfree m none mem = mem
  object_manager_release_wrapped zfree m (some o) mem = release_wrapped zfree m o mem

  -- The object, `none` where it was released.
  unfoldable pub latte_object_decr_ref_count :
      (LatteObject P → M → M)
      → List (TypeEntry S P M)
      → LatteObject P
      → M
      → Option (LatteObject P) × M
  latte_object_decr_ref_count zfree m o mem =
      if o.refcount == 0
      then (some o, mem)
      else if o.refcount == 1
      then (none, release_wrapped zfree m (with_count 0 o) mem)
      else (some (with_count (o.refcount - 1) o), mem)

  unfoldable pub object_manager_get_type_name : List (TypeEntry S P M) → ℕ → Option (List ℕ)
  object_manager_get_type_name m type_id = name_of (entry_at m type_id)

  unfoldable pub object_manager_calc : List (TypeEntry S P M) → LatteObject P → ℕ
  object_manager_calc m o = elim (entry_at m o.tag).calc_fn [ none ↦ 0 | some calc ↦ calc o ]

  -- The callback of an entry in use.
  abbrev pub when_used {κ} : {A : Type κ} → TypeEntry S P M → Option A → Option A
  when_used e fn = if e.used then fn else none

  -- The load of an object of a type that this manager has.
  abbrev pub load_as :
      List (TypeEntry S P M) → ℕ → S → (Option ErrorCode × Option (LatteObject P)) × S
  load_as m type_id o = elim (when_used (entry_at m type_id) (entry_at m type_id).load_fn) [
    | none ↦ (failed c_invalid_argument, o)
    | some load ↦ load_result type_id (load o)
  ]

  -- A saved id goes through the map, where there is one; 0xFF says that it has no type here.
  abbrev pub load_mapped :
      List (TypeEntry S P M)
      → Option (List ℕ)
      → ℕ
      → S
      → (Option ErrorCode × Option (LatteObject P)) × S
  load_mapped m none saved_id o = load_as m saved_id o
  load_mapped m (some id_map) saved_id o =
      if get_or id_map saved_id 0 == 0xFF
      then (failed c_corruption, o)
      else load_as m (get_or id_map saved_id 0) o

  module _ (b : OioBackend S) where
    unfoldable pub object_manager_save :
        List (TypeEntry S P M) → S → LatteObject P → Option ErrorCode × S
    object_manager_save m o obj =
        elim (when_used (entry_at m obj.tag) (entry_at m obj.tag).save_fn) [
          | none ↦ (some c_invalid_argument, o)
          | some save ↦ save_with save obj (odb_write_u8 b obj.tag o)
        ]

    abbrev pub load_read :
        List (TypeEntry S P M)
        → Option (List ℕ)
        → Option ℕ × S
        → (Option ErrorCode × Option (LatteObject P)) × S
    load_read m id_map (none, o) = (failed c_io_error, o)
    load_read m id_map (some saved_id, o) = load_mapped m id_map saved_id o

    unfoldable pub object_manager_load :
        List (TypeEntry S P M)
        → S
        → Option (List ℕ)
        → (Option ErrorCode × Option (LatteObject P)) × S
    object_manager_load m o id_map = load_read m id_map (odb_read_u8 b o)
