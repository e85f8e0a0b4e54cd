-- ===== src/Object/Load.antt =====
-- Objects that one manager saves, another loads through the id map of a loaded registry.
use latte_c.Prelude.{
  ℕ, zero, suc, ◌+◌, ◌≤◌, ◌<◌, ◌≡◌, ◌≢◌, refl, ap, ◌∙◌, Option, none, some, List, [], ◌∷◌, length,
  length-set, set, get_or, get_or-set_self, get_or-set_ne, arith,
}
use latte_c.Object.{TypeEntry, name_of, find_type_id_by_name, entry_at}
use latte_c.Object.Names.{add_name, registered}
use latte_c.Object.Stream.{mapped, id_or}

module _ {ℓ} {S P M : Type ℓ} (m : List (TypeEntry S P M)) where
  abbrev put_name : Option (List ℕ) → ℕ → List ℕ → List ℕ
  put_name none i id_map = id_map
  put_name (some n) i id_map = set id_map i (id_or (find_type_id_by_name m n))

  -- Where a saved id leads: to the id of its name here.
  abbrev pub translated : Option (List ℕ) → ℕ → ℕ
  translated none d = d
  translated (some n) d = id_or (find_type_id_by_name m n)

  mapped-add_name :
      (x : Option (List ℕ)) (i : ℕ) (ps : List (ℕ × List ℕ)) (id_map : List ℕ)
      → mapped m (add_name i x ps) id_map ≡ mapped m ps (put_name x i id_map)
  mapped-add_name none i ps id_map = refl
  mapped-add_name (some n) i ps id_map = refl

  length-put_name :
      (x : Option (List ℕ)) (i : ℕ) (id_map : List ℕ) → length (put_name x i id_map) ≡ length id_map
  length-put_name none i id_map = refl
  length-put_name (some n) i id_map = length-set id_map i (id_or (find_type_id_by_name m n))

  put_name_other :
      (x : Option (List ℕ)) (i k : ℕ) (id_map : List ℕ)
      → i ≢ k
      → get_or (put_name x i id_map) k 0 ≡ get_or id_map k 0
  put_name_other none i k id_map h = refl
  put_name_other (some n) i k id_map h = get_or-set_ne id_map (id_or (find_type_id_by_name m n)) 0 h

  put_name_same :
      (x : Option (List ℕ)) (i : ℕ) (id_map : List ℕ)
      → i < length id_map
      → get_or (put_name x i id_map) i 0 ≡ translated x (get_or id_map i 0)
  put_name_same none i id_map h = refl
  put_name_same (some n) i id_map h =
      get_or-set_self id_map i (id_or (find_type_id_by_name m n)) 0 h

  mapped-before :
      (es : List (TypeEntry S P M)) (i k : ℕ) (id_map : List ℕ)
      → k < i
      → get_or (mapped m (registered es i) id_map) k 0 ≡ get_or id_map k 0
  unfolding registered
  mapped-before [] i k id_map h = refl
  mapped-before (e ∷ es) i k id_map h =
      rw (mapped-add_name (name_of e) i (registered es (i + 1)) id_map) (
        mapped-before es (i + 1) k (put_name (name_of e) i id_map) (omega arith)
        ∙ put_name_other (name_of e) i k id_map (λ e. omega arith))

  pub mapped-at :
      (es : List (TypeEntry S P M)) (i j : ℕ) (id_map : List ℕ)
      → j < length es
      → i + length es ≤ length id_map
      → get_or (mapped m (registered es i) id_map) (i + j) 0
        ≡ translated (name_of (entry_at es j)) (get_or id_map (i + j) 0)
  unfolding registered
  mapped-at [] i j id_map h g = absurd (omega arith)
  mapped-at (e ∷ es) i zero id_map h g =
      let at_zero : i + 0 ≡ i = omega arith in
      rw (at_zero, mapped-add_name (name_of e) i (registered es (i + 1)) id_map)
        (mapped-before es (i + 1) i (put_name (name_of e) i id_map) (omega arith)
          ∙ put_name_same (name_of e) i id_map (omega arith))
  mapped-at (e ∷ es) i (suc j) id_map h g =
      let next : i + suc j ≡ (i + 1) + j = omega arith in
      let id_map' = put_name (name_of e) i id_map in
      rw (next, mapped-add_name (name_of e) i (registered es (i + 1)) id_map)
        (mapped-at es (i + 1) j id_map' (omega arith)
            (omega (arith, length-put_name (name_of e) i id_map))
          ∙ ap (λ d. translated (name_of (entry_at es j)) d)
              (put_name_other (name_of e) i ((i + 1) + j) id_map (λ e. omega arith)))
