-- ===== src/BPlusTree/Find.antt =====
-- The search in a leaf of b_plus_tree.c, and the entries that a store through its pointer leaves.
use latte_c.Prelude.{
  ◌>>=◌, ◌≡◌, ◌≢◌, refl, sym, ap, ◌∙◌, Option, none, some, List, [], ◌∷◌, ◌⊎◌, inl, inr, Sign-cases,
  sign, below, same, above,
}
use latte_c.Cmp.{CmpFunc, IsOrder}
use latte_c.Entries.{
  AllKeys, AllKeys-imp, Misses, insert_entry, lookup_entry, IsAscending, lookup-miss, lookup-cons,
  lookup-cons_same, insert_entry-cons_above, insert_entry-cons_same,
}
use latte_c.BPlusTree.Inserting.{slot}
use latte_c.BPlusTree.Finding.{Cell, behind, cell_at, tested, find_in_entries}
use latte_c.BPlusTree.Sides.{slot-below, slot-cons, below_ascending}

module _ {ℓ κ} {K : Type ℓ} {V : Type κ} (cmp : CmpFunc K) where
  -- What a search in a list of entries gives: outside the array for a key below all of them, else
  -- the value or NULL.
  unfoldable pub search_entries : K → List (K × V) → Option (Option V)
  search_entries key [] = none
  search_entries key ((k, v) ∷ es) = elim (sign (cmp key k)) [
    | below ↦ none
    | same ↦ some (some v)
    | above ↦ some (lookup_entry cmp key es)
  ]

  pub search_entries-cons_below :
      (key k : K) (v : V) (es : List (K × V))
      → sign (cmp key k) ≡ below
      → search_entries key ((k, v) ∷ es) ≡ none
  unfolding search_entries
  search_entries-cons_below key k v es e = rw (e, search_entries)

  pub search_entries-cons :
      (key k : K) (v : V) (es : List (K × V))
      → sign (cmp key k) ≢ below
      → search_entries key ((k, v) ∷ es) ≡ some (lookup_entry cmp key ((k, v) ∷ es))
  unfolding search_entries lookup_entry
  search_entries-cons key k v es n = elim (Sign-cases (sign (cmp key k))) [
    | inl e ↦ absurd (n e)
    | inr (inl e) ↦ rw (e, search_entries, lookup_entry)
    | inr (inr e) ↦ rw (e, search_entries, lookup_entry)
  ]

  -- What a pointer shows, where it is not NULL.
  abbrev pub shown {μ} : {P : Type μ} → Option (Option (V × P)) → Option (Option V)
  shown none = none
  shown (some none) = some none
  shown (some (some (v, store))) = some (some v)

  -- A pointer into a list of entries: a store through it is an insertion at the key.
  abbrev pub ListStores : K → List (K × V) → Option (Option (V × (V → List (K × V)))) → Type (ℓ ⊔ κ)
  ListStores key es none = Unit
  ListStores key es (some none) = Unit
  ListStores key es (some (some (v, store))) = (w : V) → store w ≡ insert_entry cmp key w es

  abbrev pub ListPoints : K → List (K × V) → Option (Option (V × (V → List (K × V)))) → Type (ℓ ⊔ κ)
  ListPoints key es out = (search_entries key es ≡ shown out) × ListStores key es out

  module _ (o : IsOrder cmp) where
    ListPoints-behind :
        (key k : K) (v : V) (es : List (K × V))
        → sign (cmp key k) ≡ above
        → search_entries key ((k, v) ∷ es) ≡ search_entries key es
        → (cell : Option (Cell K V)) → ListPoints key es (cell >>= tested cmp key)
        → ListPoints key ((k, v) ∷ es) (cell >>= behind (k, v) >>= tested cmp key)
    ListPoints-behind key k v es e step none p = (step ∙ p.0, tt)
    ListPoints-behind key k v es e step (some (j, u, store)) p =
        elim (Sign-cases (sign (cmp key j))) [
          | inl q ↦ rw (tested, q) (step ∙ (rw (tested, q) at p).0, tt)
          | inr (inr q) ↦ rw (tested, q) (step ∙ (rw (tested, q) at p).0, tt)
          | inr (inl q) ↦
              let p' : (search_entries key es ≡ some (some u))
                  × ((w : V) → store w ≡ insert_entry cmp key w es) =
                rw (tested, q) at p in
              rw (tested, q)
                (step ∙ p'.0, λ w. rw (p'.1 w) (sym (insert_entry-cons_above cmp key w k v es e)))
        ]

    search_entries-cons_above :
        (key k : K) (v : V) (j : K) (u : V) (es : List (K × V))
        → sign (cmp key k) ≡ above
        → sign (cmp key j) ≢ below
        → search_entries key ((k, v) ∷ (j, u) ∷ es) ≡ search_entries key ((j, u) ∷ es)
    search_entries-cons_above key k v j u es e n =
        search_entries-cons key k v ((j, u) ∷ es) (λ q. cc (q, e))
        ∙ ap some (lookup-cons cmp key k v ((j, u) ∷ es) (λ q. cc (q, e)))
        ∙ sym (search_entries-cons key j u es n)

    Misses-below :
        (key : K) (es : List (K × V))
        → AllKeys (λ x. sign (cmp key x) ≡ below) es
        → Misses cmp key es
    Misses-below key es a = AllKeys-imp (λ x p q. cc (p, q)) es a

    -- The cell of the last key that is not above, where it is the first.
    found_first :
        (key k : K) (v : V) (es : List (K × V))
        → sign (cmp key k) ≢ below
        → AllKeys (λ x. sign (cmp key x) ≡ below) es
        → ListPoints key
            ((k, v) ∷ es)
            (find_in_entries cmp key ((k, v) ∷ es) (slot cmp key ((k, v) ∷ es)))
    unfolding cell_at
    found_first key k v es n a =
        rw (slot-cons cmp o key k v es n, slot-below cmp o key es a)
          (elim (Sign-cases (sign (cmp key k))) [
            | inl e ↦ absurd (n e)
            | inr (inl e) ↦
                rw (tested, e)
                  (
                    search_entries-cons key k v es n ∙ ap some (lookup-cons_same cmp key k v es e),
                    λ w. sym (insert_entry-cons_same cmp key w k v es e),
                  )
            | inr (inr e) ↦
                rw (tested, e)
                  (
                    search_entries-cons key k v es n
                        ∙ ap some (
                            lookup-cons cmp key k v es (λ q. cc (q, e))
                            ∙ lookup-miss cmp key es (Misses-below key es a)),
                    tt,
                  )
          ])

    pub find_in_entries_lem :
        (key : K) (es : List (K × V))
        → IsAscending cmp es
        → ListPoints key es (find_in_entries cmp key es (slot cmp key es))
    unfolding cell_at
    find_in_entries_lem key [] a = unfold slot search_entries in (refl, tt)
    find_in_entries_lem key ((k, v) ∷ []) a = elim (Sign-cases (sign (cmp key k))) [
      | inl e ↦
          rw (slot-below cmp o key ((k, v) ∷ []) (e, tt))
            (search_entries-cons_below key k v [] e, tt)
      | inr (inl e) ↦ found_first key k v [] (λ q. cc (q, e)) tt
      | inr (inr e) ↦ found_first key k v [] (λ q. cc (q, e)) tt
    ]
    find_in_entries_lem key ((k, v) ∷ (j, u) ∷ es) a = elim (Sign-cases (sign (cmp key k))) [
      | inl e ↦
          rw
            (slot-below cmp o key ((k, v) ∷ (j, u) ∷ es)
              (below_ascending cmp o key k v ((j, u) ∷ es) a e))
            (search_entries-cons_below key k v ((j, u) ∷ es) e, tt)
      | inr (inl e) ↦
          let below_j : sign (cmp key j) ≡ below = rw (o.eq_of_same key k e) a.0.0 in
          found_first key k v ((j, u) ∷ es) (λ q. cc (q, e))
            (below_ascending cmp o key j u es a.1 below_j)
      | inr (inr e) ↦ elim (Sign-cases (sign (cmp key j))) [
        | inl q ↦
            found_first key k v ((j, u) ∷ es) (λ p. cc (p, e))
              (below_ascending cmp o key j u es a.1 q)
        | inr q ↦
            let n : sign (cmp key j) ≢ below = not_below j q in
            rw
              (slot-cons cmp o key k v ((j, u) ∷ es) (λ p. cc (p, e)), slot-cons cmp o key j u es n)
              (ListPoints-behind key k v ((j, u) ∷ es) e
                (search_entries-cons_above key k v j u es e n)
                (cell_at (slot cmp key es) ((j, u) ∷ es))
                (rw (slot-cons cmp o key j u es n) at (find_in_entries_lem key ((j, u) ∷ es) a.1)))
      ]
    ]
      where
        not_below :
            (j : K)
            → (sign (cmp key j) ≡ same) ⊎ (sign (cmp key j) ≡ above)
            → sign (cmp key j) ≢ below
        not_below j (inl p) e = cc (p, e)
        not_below j (inr p) e = cc (p, e)

  pub lookup-search_entries :
      (key : K) (es : List (K × V)) (v : V)
      → search_entries key es ≡ some (some v)
      → lookup_entry cmp key es ≡ some v
  unfolding search_entries
  lookup-search_entries key [] v e = absurd (cc e)
  lookup-search_entries key ((k, u) ∷ es) v e = elim (Sign-cases (sign (cmp key k))) [
    | inl q ↦ absurd (cc (rw (q, search_entries) at e))
    | inr (inl q) ↦ cc (search_entries-cons key k u es (λ p. cc (p, q)), e)
    | inr (inr q) ↦ cc (search_entries-cons key k u es (λ p. cc (p, q)), e)
  ]
