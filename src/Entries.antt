-- ===== src/Entries.antt =====
-- A map as a list of its entries in ascending order of their keys: the abstract view of the search
-- trees, in `Avl` and `Maple`.
pub mod Ordered
use latte_c.Prelude.{
  ℕ, ◌≡◌, ◌≢◌, refl, sign, below, same, above, Option, none, some, List, [], ◌∷◌, ◌++◌, Sign-cases,
  inl, inr,
}
use latte_c.Cmp.{CmpFunc, IsOrder}

-- 1 for a new key, 0 for one that is there; and the other way round.
abbrev pub is_new {ℓ} : {A : Type ℓ} → Option A → ℕ
is_new none = 1
is_new (some v) = 0

abbrev pub is_old {ℓ} : {A : Type ℓ} → Option A → ℕ
is_old none = 0
is_old (some v) = 1

abbrev pub AllKeys {ℓ κ μ} : {K : Type ℓ} {V : Type κ} → (K → Type μ) → List (K × V) → Type μ
AllKeys P [] = Unit
AllKeys P ((k, v) ∷ es) = P k × AllKeys P es

pub AllKeys-imp {ℓ κ μ ν} :
    {K : Type ℓ} {V : Type κ} {P : K → Type μ} {Q : K → Type ν}
    → ((k : K) → P k → Q k)
    → (es : List (K × V)) → AllKeys P es
    → AllKeys Q es
AllKeys-imp f [] a = tt
AllKeys-imp f ((k, v) ∷ es) a = (f k a.0, AllKeys-imp f es a.1)

module _ {ℓ κ} {K : Type ℓ} {V : Type κ} (cmp : CmpFunc K) where
  -- An equal key keeps its key and takes the value.
  unfoldable pub insert_entry : K → V → List (K × V) → List (K × V)
  insert_entry key value [] = (key, value) ∷ []
  insert_entry key value ((k, v) ∷ es) = elim (sign (cmp key k)) [
    | below ↦ (key, value) ∷ (k, v) ∷ es
    | same ↦ (k, value) ∷ es
    | above ↦ (k, v) ∷ insert_entry key value es
  ]

  unfoldable pub lookup_entry : K → List (K × V) → Option V
  lookup_entry key [] = none
  lookup_entry key ((k, v) ∷ es) = elim (sign (cmp key k)) [
    | same ↦ some v
    | _ ↦ lookup_entry key es
  ]

  unfoldable pub remove_entry : K → List (K × V) → List (K × V)
  remove_entry key [] = []
  remove_entry key ((k, v) ∷ es) = elim (sign (cmp key k)) [
    | same ↦ es
    | _ ↦ (k, v) ∷ remove_entry key es
  ]

  -- Every key is below all that follow it.
  abbrev pub IsAscending : List (K × V) → Type 0
  IsAscending [] = Unit
  IsAscending ((k, v) ∷ es) = AllKeys (λ x. sign (cmp k x) ≡ below) es × IsAscending es

  -- What an ascending list says of the two sides of one of its entries.
  pub record Split (xs : List (K × V)) (k : K) (ys : List (K × V)) : Type 0 where
    pub left_below : AllKeys (λ x. sign (cmp x k) ≡ below) xs
    pub right_above : AllKeys (λ x. sign (cmp k x) ≡ below) ys
    pub left : IsAscending xs
    pub right : IsAscending ys

  pub AllKeys-append_left {μ} :
      (P : K → Type μ) (xs : List (K × V)) (ys : List (K × V)) → AllKeys P (xs ++ ys) → AllKeys P xs
  AllKeys-append_left P [] ys a = tt
  AllKeys-append_left P ((k, v) ∷ xs) ys a = (a.0, AllKeys-append_left P xs ys a.1)

  pub AllKeys-append_right {μ} :
      (P : K → Type μ) (xs : List (K × V)) (ys : List (K × V)) → AllKeys P (xs ++ ys) → AllKeys P ys
  AllKeys-append_right P [] ys a = a
  AllKeys-append_right P ((k, v) ∷ xs) ys a = AllKeys-append_right P xs ys a.1

  pub IsAscending-Split :
      (xs : List (K × V)) (k : K) (v : V) (ys : List (K × V))
      → IsAscending (xs ++ (k, v) ∷ ys)
      → Split xs k ys
  IsAscending-Split [] k v ys a = record {
    left_below = tt;
    right_above = a.0;
    left = tt;
    right = a.1;
  }
  IsAscending-Split ((j, w) ∷ xs) k v ys a =
      let s = IsAscending-Split xs k v ys a.1 in
      record {
        left_below = (
          (AllKeys-append_right (λ x. sign (cmp j x) ≡ below) xs ((k, v) ∷ ys) a.0).0,
          s.left_below,
        );
        right_above = s.right_above;
        left = (AllKeys-append_left (λ x. sign (cmp j x) ≡ below) xs ((k, v) ∷ ys) a.0, s.left);
        right = s.right;
      }

  -- One entry at a time.
  pub insert_entry-cons_below :
      (key : K) (value : V) (k : K) (v : V) (es : List (K × V))
      → sign (cmp key k) ≡ below
      → insert_entry key value ((k, v) ∷ es) ≡ (key, value) ∷ (k, v) ∷ es
  unfolding insert_entry
  insert_entry-cons_below key value k v es e = rw (e, insert_entry)

  pub insert_entry-cons_above :
      (key : K) (value : V) (k : K) (v : V) (es : List (K × V))
      → sign (cmp key k) ≡ above
      → insert_entry key value ((k, v) ∷ es) ≡ (k, v) ∷ insert_entry key value es
  unfolding insert_entry
  insert_entry-cons_above key value k v es e = rw (e, insert_entry)

  pub insert_entry-cons_same :
      (key : K) (value : V) (k : K) (v : V) (es : List (K × V))
      → sign (cmp key k) ≡ same
      → insert_entry key value ((k, v) ∷ es) ≡ (k, value) ∷ es
  unfolding insert_entry
  insert_entry-cons_same key value k v es e = rw (e, insert_entry)

  pub lookup-cons :
      (key k : K) (v : V) (es : List (K × V))
      → sign (cmp key k) ≢ same
      → lookup_entry key ((k, v) ∷ es) ≡ lookup_entry key es
  unfolding lookup_entry
  lookup-cons key k v es n = elim (Sign-cases (sign (cmp key k))) [
    | inl e ↦ rw (e, lookup_entry)
    | inr (inl e) ↦ absurd (n e)
    | inr (inr e) ↦ rw (e, lookup_entry)
  ]

  pub lookup-cons_same :
      (key k : K) (v : V) (es : List (K × V))
      → sign (cmp key k) ≡ same
      → lookup_entry key ((k, v) ∷ es) ≡ some v
  unfolding lookup_entry
  lookup-cons_same key k v es e = rw (e, lookup_entry)

  pub remove-cons :
      (key k : K) (v : V) (es : List (K × V))
      → sign (cmp key k) ≢ same
      → remove_entry key ((k, v) ∷ es) ≡ (k, v) ∷ remove_entry key es
  unfolding remove_entry
  remove-cons key k v es n = elim (Sign-cases (sign (cmp key k))) [
    | inl e ↦ rw (e, remove_entry)
    | inr (inl e) ↦ absurd (n e)
    | inr (inr e) ↦ rw (e, remove_entry)
  ]

  pub remove-cons_same :
      (key k : K) (v : V) (es : List (K × V))
      → sign (cmp key k) ≡ same
      → remove_entry key ((k, v) ∷ es) ≡ es
  unfolding remove_entry
  remove-cons_same key k v es e = rw (e, remove_entry)

  -- Two sides of an entry, seen from a key.
  abbrev pub Misses : K → List (K × V) → Type 0
  Misses key es = AllKeys (λ x. sign (cmp key x) ≢ same) es

  pub insert_entry-append_below :
      (key : K) (value : V) (xs : List (K × V)) (k : K) (v : V) (ys : List (K × V))
      → sign (cmp key k) ≡ below
      → insert_entry key value (xs ++ (k, v) ∷ ys) ≡ insert_entry key value xs ++ (k, v) ∷ ys
  unfolding insert_entry
  insert_entry-append_below key value [] k v ys e = rw (e, insert_entry)
  insert_entry-append_below key value ((j, w) ∷ xs) k v ys e =
      elim (Sign-cases (sign (cmp key j))) [
        | inl p ↦ rw (p, insert_entry)
        | inr (inl p) ↦ rw (p, insert_entry)
        | inr (inr p) ↦ rw (p, insert_entry, insert_entry-append_below key value xs k v ys e)
      ]

  pub insert_entry-append_above :
      (key : K) (value : V) (xs ys : List (K × V))
      → AllKeys (λ x. sign (cmp key x) ≡ above) xs
      → insert_entry key value (xs ++ ys) ≡ xs ++ insert_entry key value ys
  insert_entry-append_above key value [] ys a = refl
  insert_entry-append_above key value ((k, v) ∷ xs) ys a = rw (
    insert_entry-cons_above key value k v (xs ++ ys) a.0,
    insert_entry-append_above key value xs ys a.1,
  )

  pub lookup-append_right :
      (key : K) (xs ys : List (K × V))
      → Misses key xs
      → lookup_entry key (xs ++ ys) ≡ lookup_entry key ys
  lookup-append_right key [] ys a = refl
  lookup-append_right key ((k, v) ∷ xs) ys a =
      rw (lookup-cons key k v (xs ++ ys) a.0) (lookup-append_right key xs ys a.1)

  pub lookup-miss : (key : K) (es : List (K × V)) → Misses key es → lookup_entry key es ≡ none
  lookup-miss key [] a = unfold lookup_entry in refl
  lookup-miss key ((k, v) ∷ es) a = rw (lookup-cons key k v es a.0) (lookup-miss key es a.1)

  pub lookup-append_left :
      (key : K) (xs ys : List (K × V))
      → lookup_entry key ys ≡ none
      → lookup_entry key (xs ++ ys) ≡ lookup_entry key xs
  unfolding lookup_entry
  lookup-append_left key [] ys e = e
  lookup-append_left key ((k, v) ∷ xs) ys e = elim (Sign-cases (sign (cmp key k))) [
    | inl p ↦ rw (p, lookup_entry) (lookup-append_left key xs ys e)
    | inr (inl p) ↦ rw (p, lookup_entry)
    | inr (inr p) ↦ rw (p, lookup_entry) (lookup-append_left key xs ys e)
  ]

  pub remove-append_right :
      (key : K) (xs ys : List (K × V))
      → Misses key xs
      → remove_entry key (xs ++ ys) ≡ xs ++ remove_entry key ys
  remove-append_right key [] ys a = refl
  remove-append_right key ((k, v) ∷ xs) ys a =
      rw (remove-cons key k v (xs ++ ys) a.0, remove-append_right key xs ys a.1)

  pub remove-miss : (key : K) (es : List (K × V)) → Misses key es → remove_entry key es ≡ es
  remove-miss key [] a = unfold remove_entry in refl
  remove-miss key ((k, v) ∷ es) a = rw (remove-cons key k v es a.0, remove-miss key es a.1)

  pub remove-append_left :
      (key : K) (xs ys : List (K × V))
      → Misses key ys
      → remove_entry key (xs ++ ys) ≡ remove_entry key xs ++ ys
  unfolding remove_entry
  remove-append_left key [] ys a = remove-miss key ys a
  remove-append_left key ((k, v) ∷ xs) ys a = elim (Sign-cases (sign (cmp key k))) [
    | inl p ↦ rw (p, remove_entry, remove-append_left key xs ys a)
    | inr (inl p) ↦ rw (p, remove_entry)
    | inr (inr p) ↦ rw (p, remove_entry, remove-append_left key xs ys a)
  ]
