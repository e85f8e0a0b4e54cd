-- ===== src/Object/Register.antt =====
-- object_manager_register: a new type gets the first free slot, and its name is found there.
use latte_c.Prelude.{
  ℕ, zero, suc, ◌+◌, ◌<◌, ◌≡◌, ◌⊎◌, refl, sym, ap, ◌∙◌, inl, inr, Bool-cases, if◌then◌else◌, true,
  false, Option, none, some, List, [], ◌∷◌, length, length-set, set, pos, negsuc, arith,
}
use latte_c.Object.{
  LatteObject, ErrorCode, TypeEntry, same_name, name_of, is_named, find_from, find_type_id_by_name,
  free_from, first_free_slot, cleared_types, register_at, object_manager_register,
}
use latte_c.Object.Names.{
  same_name-eq, same_name_comm, IsName, IsNamedAs, Misses, MissesName, AreNamed, AreDistinct,
  IsValid, find_from-Misses,
}

module _ {ℓ} {S P M : Type ℓ} where
  abbrev IsFree : List (TypeEntry S P M) → ℕ → Type 0
  IsFree [] j = ⊥
  IsFree (e ∷ es) zero = e.used ≡ false
  IsFree (e ∷ es) (suc j) = IsFree es j

  free_from-IsFree :
      (es : List (TypeEntry S P M)) (i k : ℕ)
      → free_from es i ≡ some k
      → (j : ℕ) × (k ≡ i + j) × IsFree es j
  unfolding free_from
  free_from-IsFree [] i k h = absurd (cc h)
  free_from-IsFree (e ∷ es) i k h = elim (Bool-cases e.used) [
    | inl u ↦ let (j, p, f) = free_from-IsFree es (i + 1) k (rw u at h) in (suc j, omega arith, f)
    | inr u ↦ let q : i ≡ k = cc (rw u at h) in (0, omega arith, u)
  ]

  IsFree-length : (es : List (TypeEntry S P M)) (j : ℕ) → IsFree es j → j < length es
  IsFree-length [] j h = absurd h
  IsFree-length (e ∷ es) zero h = omega arith
  IsFree-length (e ∷ es) (suc j) h = omega (arith, IsFree-length es j h)

  module _ (n : List ℕ) (new : TypeEntry S P M) (named : name_of new ≡ some n) where
    is_named-new : (n' : List ℕ) → is_named n' new ≡ same_name n n'
    is_named-new n' = rw (named, is_named) refl

    -- A slot that was free has no name.
    is_named-free : (e : TypeEntry S P M) (n' : List ℕ) → e.used ≡ false → is_named n' e ≡ false
    is_named-free e n' u = rw (u, is_named) refl

    find_from-set :
        (es : List (TypeEntry S P M)) (i j : ℕ) (n' : List ℕ)
        → IsFree es j
        → Misses n es
        → find_from n' (set es j new) i
          ≡ (if same_name n n' then some (i + j) else find_from n' es i)
    unfolding find_from
    find_from-set [] i j n' f m = absurd f
    find_from-set (e ∷ es) i zero n' f m = elim (Bool-cases (same_name n n')) [
      | inl s ↦ rw (is_named-new n', s) (ap (λ (t : ℕ). some t) (omega arith))
      | inr s ↦ rw (is_named-new n', s, is_named-free e n' f) refl
    ]
    find_from-set (e ∷ es) i (suc j) n' f m =
        let ih = find_from-set es (i + 1) j n' f m.1 in
        elim (Bool-cases (same_name n n')) [
          | inl s ↦
              let other : is_named n' e ≡ false = rw (sym (same_name-eq n n' s)) m.0 in
              rw (other, ih, s) (ap (λ (t : ℕ). some t) (omega arith))
          | inr s ↦ rw (ih, s) refl
        ]

    Misses-set :
        (n' : List ℕ) (es : List (TypeEntry S P M)) (j : ℕ)
        → same_name n n' ≡ false
        → Misses n' es
        → Misses n' (set es j new)
    Misses-set n' [] j s h = tt
    Misses-set n' (e ∷ es) zero s h = (is_named-new n' ∙ s, h.1)
    Misses-set n' (e ∷ es) (suc j) s h = (h.0, Misses-set n' es j s h.1)

    MissesName-set :
        (x : Option (List ℕ)) (e : TypeEntry S P M) (es : List (TypeEntry S P M)) (j : ℕ)
        → name_of e ≡ x
        → is_named n e ≡ false
        → MissesName x es
        → MissesName x (set es j new)
    MissesName-set none e es j p s h = tt
    MissesName-set (some n') e es j p s h =
        Misses-set n' es j (same_name_comm n n' ∙ (rw (p, is_named) at s)) h

    AreDistinct-set :
        (es : List (TypeEntry S P M)) (j : ℕ)
        → IsFree es j
        → Misses n es
        → AreDistinct es
        → AreDistinct (set es j new)
    AreDistinct-set [] j f m h = absurd f
    AreDistinct-set (e ∷ es) zero f m h = (rw named m.1, h.1)
    AreDistinct-set (e ∷ es) (suc j) f m h =
        (MissesName-set (name_of e) e es j refl m.0 h.0, AreDistinct-set es j f m.1 h.1)

    AreNamed-set :
        (es : List (TypeEntry S P M)) (j : ℕ)
        → IsNamedAs new.used new.name
        → AreNamed es
        → AreNamed (set es j new)
    AreNamed-set [] j w h = tt
    AreNamed-set (e ∷ es) zero w h = (w, h.1)
    AreNamed-set (e ∷ es) (suc j) w h = (h.0, AreNamed-set es j w h.1)

  -- The manager after global_object_manager_init and global_object_manager_free.
  pub cleared_types-IsValid : IsValid (cleared_types {S = S} {P = P} {M = M} 256)
  unfolding cleared_types
  cleared_types-IsValid = record { sized = sized 256; named = named 256; distinct = distinct 256 }
    where
      sized : (k : ℕ) → length (cleared_types {S = S} {P = P} {M = M} k) ≡ k
      sized zero = refl
      sized (suc k) = ap (λ j. suc j) (sized k)

      named : (k : ℕ) → AreNamed (cleared_types {S = S} {P = P} {M = M} k)
      named zero = tt
      named (suc k) = (tt, named k)

      distinct : (k : ℕ) → AreDistinct (cleared_types {S = S} {P = P} {M = M} k)
      distinct zero = tt
      distinct (suc k) = (tt, distinct k)

  -- A type that a manager has got in a free slot.
  pub record Registered (n : List ℕ) (e : TypeEntry S P M) (m m' : List (TypeEntry S P M))
      : Type ℓ where
    pub id : ℕ
    pub small : id < 256
    pub first : first_free_slot m ≡ some id
    pub stored : m' ≡ set m id e
    pub found :
        (n' : List ℕ)
        → find_type_id_by_name m' n'
          ≡ (if same_name n n' then some id else find_type_id_by_name m n')
    pub valid : IsValid m'

  abbrev pub given :
      List ℕ
      → (M → Option (LatteObject P) × M)
      → (LatteObject P → M → M)
      → (S → LatteObject P → ErrorCode × S)
      → (S → (Option ErrorCode × Option (LatteObject P)) × S)
      → Option (LatteObject P → ℕ)
      → TypeEntry S P M
  given n c r s l calc = record {
    used = true;
    name = some n;
    create_fn = some c;
    release_fn = some r;
    save_fn = some s;
    load_fn = some l;
    calc_fn = calc;
  }

  set-Registered :
      (m : List (TypeEntry S P M)) (n : List ℕ) (e : TypeEntry S P M) (id : ℕ)
      → IsValid m
      → IsNamedAs e.used e.name
      → name_of e ≡ some n
      → find_type_id_by_name m n ≡ none
      → first_free_slot m ≡ some id
      → Registered n e m (set m id e)
  unfolding find_type_id_by_name first_free_slot
  set-Registered m n e id w named p f g =
      let (j, q, free) = free_from-IsFree m 0 id g in
      let free' : IsFree m id = moved j id q free in
      let missing = find_from-Misses n m 0 f in
      record {
        id = id;
        small = omega (arith, IsFree-length m id free', w.sized);
        first = g;
        stored = refl;
        found = λ n'.
            find_from-set n e p m 0 id n' free' missing
            ∙ ap (λ (k : ℕ). if same_name n n' then some k else find_from n' m 0) {x = 0 + id}
                {y = id} (omega arith);
        valid = record {
          sized = length-set m id e ∙ w.sized;
          named = AreNamed-set n e p m id named w.named;
          distinct = AreDistinct-set n e p m id free' missing w.distinct;
        };
      }
    where
      moved : (j id : ℕ) → id ≡ 0 + j → IsFree m j → IsFree m id
      moved j id q h = let r : id ≡ j = omega arith in rw r h

  -- On a valid manager, for a C string of at most 0xFFFFFFFF bytes and given callbacks:
  -- object_manager_register returns -1 and changes nothing where the name is registered or no
  -- slot is free; otherwise it returns 0, stores the type in the first free slot, whose index is
  -- below 256, that name is found there and every other name where it was, and the manager stays
  -- valid.
  pub object_manager_register_lem :
      (m : List (TypeEntry S P M)) (n : List ℕ) (c : M → Option (LatteObject P) × M)
      (r : LatteObject P → M → M) (s : S → LatteObject P → ErrorCode × S)
      (l : S → (Option ErrorCode × Option (LatteObject P)) × S) (calc : Option (LatteObject P → ℕ))
      → IsValid m
      → IsName n
      → ((object_manager_register m (some n) (some c) (some r) (some s) (some l) calc
            ≡ (negsuc 0, m))
          × (((id : ℕ) × (find_type_id_by_name m n ≡ some id)) ⊎ (first_free_slot m ≡ none)))
        ⊎ ((m' : List (TypeEntry S P M)) × (object_manager_register m
                (some n)
                (some c)
                (some r)
                (some s)
                (some l)
                calc
              ≡ (pos 0, m'))
            × (find_type_id_by_name m n ≡ none)
            × Registered n (given n c r s l calc) m m')
  unfolding object_manager_register
  object_manager_register_lem m n c r s l calc w h =
      by_found (find_type_id_by_name m n) (first_free_slot m) refl refl
    where
      e : TypeEntry S P M
      e = given n c r s l calc

      by_found :
          (x y : Option ℕ)
          → find_type_id_by_name m n ≡ x
          → first_free_slot m ≡ y
          → ((register_at x y e m ≡ (negsuc 0, m)) × (((id : ℕ) × (x ≡ some id)) ⊎ (y ≡ none)))
            ⊎ ((m' : List (TypeEntry S P M)) × (register_at x y e m ≡ (pos 0, m'))
                × (x ≡ none)
                × Registered n e m m')
      by_found (some id) y p q = inl (refl, inl (id, refl))
      by_found none none p q = inl (refl, inr refl)
      by_found none (some id) p q =
          inr (set m id e, refl, refl, set-Registered m n e id w h refl p q)
