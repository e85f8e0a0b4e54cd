-- ===== src/BPlusTree/Shape.antt =====
-- What the nodes of b_plus_tree.c keep: their entries from left to right, separators, numbers of
-- keys and depth.
use latte_c.Prelude.{
  ℕ, zero, suc, ◌+◌, ◌≤◌, ◌<◌, ◌≡◌, refl, ap, List, [], ◌∷◌, ◌++◌, append_assoc, length,
  length-append, arith, cons_head,
}
use latte_c.BPlusTree.{
  BPlusNode, leaf, inner, Children, last, more, separators, num_keys, join, height, first_height,
}

module _ {ℓ κ} {K : Type ℓ} {V : Type κ} where
  abbrev mutual
    pub entries : BPlusNode K V → List (K × V)
    entries (leaf id es next) = es
    entries (inner cs) = child_entries cs

    pub child_entries : Children K V → List (K × V)
    child_entries (last c) = entries c
    child_entries (more c k v cs) = entries c ++ child_entries cs

  -- The list begins with an entry of the key.
  pub record HeadIs (k : K) (es : List (K × V)) : Type (ℓ ⊔ κ) where
    pub value : V
    pub tail : List (K × V)
    pub begins : es ≡ (k, value) ∷ tail

  -- A separator is the first key on its right.
  abbrev mutual
    pub HasHeads : BPlusNode K V → Type (ℓ ⊔ κ)
    HasHeads (leaf id es next) = Unit
    HasHeads (inner cs) = HaveHeads cs

    pub HaveHeads : Children K V → Type (ℓ ⊔ κ)
    HaveHeads (last c) = HasHeads c
    HaveHeads (more c k v cs) = HasHeads c × HeadIs k (child_entries cs) × HaveHeads cs

  -- No node has more than `order` keys, no leaf is empty, and all leaves are `d` levels below.
  abbrev mutual
    pub Shaped : ℕ → BPlusNode K V → ℕ → Type 0
    Shaped order (leaf id es next) zero = (0 < length es) × (length es ≤ order)
    Shaped order (leaf id es next) (suc d) = ⊥
    Shaped order (inner cs) zero = ⊥
    Shaped order (inner cs) (suc d) = (length (separators cs) ≤ order) × AllShaped order cs d

    pub AllShaped : ℕ → Children K V → ℕ → Type 0
    AllShaped order (last c) d = Shaped order c d
    AllShaped order (more c k v cs) d = Shaped order c d × AllShaped order cs d

  pub num_keys-Shaped :
      (order : ℕ) (n : BPlusNode K V) (d : ℕ) → Shaped order n d → num_keys n ≤ order
  num_keys-Shaped order (leaf id es next) zero h = h.1
  num_keys-Shaped order (leaf id es next) (suc d) h = absurd h
  num_keys-Shaped order (inner cs) zero h = absurd h
  num_keys-Shaped order (inner cs) (suc d) h = h.0

  mutual
    pub entries-Shaped :
        (order : ℕ) (n : BPlusNode K V) (d : ℕ) → Shaped order n d → 0 < length (entries n)
    entries-Shaped order (leaf id es next) zero h = h.0
    entries-Shaped order (leaf id es next) (suc d) h = absurd h
    entries-Shaped order (inner cs) zero h = absurd h
    entries-Shaped order (inner cs) (suc d) h = child_entries-AllShaped order cs d h.1

    pub child_entries-AllShaped :
        (order : ℕ) (cs : Children K V) (d : ℕ)
        → AllShaped order cs d
        → 0 < length (child_entries cs)
    child_entries-AllShaped order (last c) d h = entries-Shaped order c d h
    child_entries-AllShaped order (more c k v cs) d h =
        omega (arith, length-append (entries c) (child_entries cs), entries-Shaped order c d h.0)

  mutual
    unfolding height

    pub height-Shaped :
        (order : ℕ) (n : BPlusNode K V) (d : ℕ) → Shaped order n d → height n ≡ suc d
    height-Shaped order (leaf id es next) zero h = refl
    height-Shaped order (leaf id es next) (suc d) h = absurd h
    height-Shaped order (inner cs) zero h = absurd h
    height-Shaped order (inner cs) (suc d) h = ap suc (first_height-Shaped order cs d h.1)

    first_height-Shaped :
        (order : ℕ) (cs : Children K V) (d : ℕ) → AllShaped order cs d → first_height cs ≡ suc d
    first_height-Shaped order (last c) d h = height-Shaped order c d h
    first_height-Shaped order (more c k v cs) d h = height-Shaped order c d h.0

  pub HeadIs-append : (k : K) (xs ys : List (K × V)) → HeadIs k xs → HeadIs k (xs ++ ys)
  HeadIs-append k xs ys h = record {
    value = h.value;
    tail = h.tail ++ ys;
    begins = ap (λ t. t ++ ys) h.begins;
  }

  pub HeadIs-left :
      (k : K) (xs ys : List (K × V)) → 0 < length xs → HeadIs k (xs ++ ys) → HeadIs k xs
  HeadIs-left k [] ys g h = absurd (omega arith)
  HeadIs-left k (x ∷ xs) ys g h = record {
    value = h.value;
    tail = xs;
    begins = ap (λ t. t ∷ xs) (cons_head h.begins);
  }

  -- Children put together.
  pub child_entries-join :
      (ds : Children K V) (k : K) (v : V) (cs : Children K V)
      → child_entries (join ds k v cs) ≡ child_entries ds ++ child_entries cs
  child_entries-join (last c) k v cs = refl
  child_entries-join (more d j w ds) k v cs =
      rw (
        child_entries-join ds k v cs,
        append_assoc (entries d) (child_entries ds) (child_entries cs),
      )

  pub join-HaveHeads :
      (ds : Children K V) (k : K) (v : V) (cs : Children K V)
      → HaveHeads ds
      → HeadIs k (child_entries cs)
      → HaveHeads cs
      → HaveHeads (join ds k v cs)
  join-HaveHeads (last c) k v cs hd h hc = (hd, h, hc)
  join-HaveHeads (more d j w ds) k v cs hd h hc = (
    hd.0,
    rw (child_entries-join ds k v cs) (HeadIs-append j (child_entries ds) (child_entries cs) hd.1),
    join-HaveHeads ds k v cs hd.2 h hc,
  )

  pub join-AllShaped :
      (order d : ℕ) (ds : Children K V) (k : K) (v : V) (cs : Children K V)
      → AllShaped order ds d
      → AllShaped order cs d
      → AllShaped order (join ds k v cs) d
  join-AllShaped order d (last c) k v cs hd hc = (hd, hc)
  join-AllShaped order d (more c j w ds) k v cs hd hc =
      (hd.0, join-AllShaped order d ds k v cs hd.1 hc)

  pub length-separators-join :
      (ds : Children K V) (k : K) (v : V) (cs : Children K V)
      → length (separators (join ds k v cs)) ≡ length (separators ds) + 1 + length (separators cs)
  length-separators-join (last c) k v cs = omega arith
  length-separators-join (more d j w ds) k v cs = omega (arith, length-separators-join ds k v cs)
