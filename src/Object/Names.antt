-- ===== src/Object/Names.antt =====
-- The names that object_manager.c has registered.
use latte_c.Prelude.{
  ◌⊎◌, ℕ, ◌+◌, ◌≤◌, ◌≡◌, refl, sym, ◌∙◌, ◌==◌, inl, inr, Bool-cases, if◌then◌else◌, Bool, true,
  false, Option, none, some, List, [], ◌∷◌, length, arith,
}
use latte_c.Object.{TypeEntry, same_name, name_of, is_named, find_from}
use latte_c.Object.Registry.{c_string}

pub same_name_self : (n : List ℕ) → same_name n n ≡ true
same_name_self [] = refl
same_name_self (x ∷ n) = elim (Bool-cases (x == x)) [
  | inl e ↦ rw (e, same_name_self n) refl
  | inr e ↦ absurd (ground arith)
]

pub same_name-eq : (a b : List ℕ) → same_name a b ≡ true → a ≡ b
same_name-eq [] [] h = refl
same_name-eq [] (y ∷ b) h = absurd (cc h)
same_name-eq (x ∷ a) [] h = absurd (cc h)
same_name-eq (x ∷ a) (y ∷ b) h = elim (Bool-cases (x == y)) [
  | inl e ↦
      let heads : x ≡ y = ground arith in
      let tails = same_name-eq a b (rw e at h) in rw (heads, tails) refl
  | inr e ↦ absurd (cc (rw e at h))
]

pub same_name_comm : (a b : List ℕ) → same_name a b ≡ same_name b a
same_name_comm a b = elim (Bool-cases (same_name a b)) [
  | inl e ↦ rw (same_name-eq a b e) refl
  | inr e ↦ elim (Bool-cases (same_name b a)) [
    | inl f ↦ rw (same_name-eq b a f) refl
    | inr f ↦ e ∙ sym f
  ]
]

-- No zero byte.
abbrev pub IsCString : List ℕ → Type 0
IsCString [] = Unit
IsCString (x ∷ xs) = ((x == 0) ≡ false) × IsCString xs

pub c_string-IsCString : (n : List ℕ) → IsCString n → c_string n ≡ n
unfolding c_string
c_string-IsCString [] h = refl
c_string-IsCString (x ∷ n) h = rw (h.0, c_string-IsCString n h.1) refl

-- A name that a stream can hold.
abbrev pub IsName : List ℕ → Type 0
IsName n = IsCString n × (length n ≤ 0xFFFFFFFF)

-- An entry in use has a name.
abbrev pub IsNamedAs : Bool → Option (List ℕ) → Type 0
IsNamedAs false n = Unit
IsNamedAs true none = ⊥
IsNamedAs true (some n) = IsName n

abbrev pub add_name : ℕ → Option (List ℕ) → List (ℕ × List ℕ) → List (ℕ × List ℕ)
add_name i none ps = ps
add_name i (some n) ps = (i, n) ∷ ps

-- An entry is free, or in use with a name.
pub IsNamedAs-cases :
    (used : Bool) (name : Option (List ℕ))
    → IsNamedAs used name
    → ((used ≡ false) × ((if used then name else none) ≡ none))
      ⊎ ((n : List ℕ) × (used ≡ true) × ((if used then name else none) ≡ some n) × IsName n)
IsNamedAs-cases false name h = inl (refl, refl)
IsNamedAs-cases true none h = absurd h
IsNamedAs-cases true (some n) h = inr (n, refl, refl, h)

module _ {ℓ} {S P M : Type ℓ} where
  -- No entry in use has the name.
  abbrev pub Misses : List ℕ → List (TypeEntry S P M) → Type 0
  Misses n [] = Unit
  Misses n (e ∷ es) = (is_named n e ≡ false) × Misses n es

  abbrev pub MissesName : Option (List ℕ) → List (TypeEntry S P M) → Type 0
  MissesName none es = Unit
  MissesName (some n) es = Misses n es

  abbrev pub AreNamed : List (TypeEntry S P M) → Type 0
  AreNamed [] = Unit
  AreNamed (e ∷ es) = IsNamedAs e.used e.name × AreNamed es

  abbrev pub AreDistinct : List (TypeEntry S P M) → Type 0
  AreDistinct [] = Unit
  AreDistinct (e ∷ es) = MissesName (name_of e) es × AreDistinct es

  -- 256 entries; those in use have names, no two the same.
  pub record IsValid (m : List (TypeEntry S P M)) : Type ℓ where
    pub sized : length m ≡ 256
    pub named : AreNamed m
    pub distinct : AreDistinct m

  -- The names, each with the id of its type.
  unfoldable pub registered : List (TypeEntry S P M) → ℕ → List (ℕ × List ℕ)
  registered [] i = []
  registered (e ∷ es) i = add_name i (name_of e) (registered es (i + 1))

  pub find_from-Misses :
      (n : List ℕ) (es : List (TypeEntry S P M)) (i : ℕ) → find_from n es i ≡ none → Misses n es
  unfolding find_from
  find_from-Misses n [] i h = tt
  find_from-Misses n (e ∷ es) i h = elim (Bool-cases (is_named n e)) [
    | inl g ↦ absurd (cc (rw g at h))
    | inr g ↦ (g, find_from-Misses n es (i + 1) (rw g at h))
  ]
