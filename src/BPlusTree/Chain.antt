-- ===== src/BPlusTree/Chain.antt =====
-- The list of leaves of b_plus_tree.c: the leaves' addresses differ, and each `next` is the address of
-- the leaf to the right.
use latte_c.Prelude.{
  ℕ, ◌+◌, ◌<◌, ◌≡◌, ◌≢◌, refl, sym, ◌∙◌, Option, none, some, List, [], ◌∷◌, ◌++◌, append_assoc,
  arith,
}
use latte_c.BPlusTree.{BPlusNode, leaf, inner, Children, last, more}

module _ {ℓ κ} (K : Type ℓ) (V : Type κ) where
  pub record Leaf : Type (ℓ ⊔ κ) where
    pub address : ℕ
    pub cells : List (K × V)
    pub next : Option ℕ

module _ {ℓ κ} {K : Type ℓ} {V : Type κ} where
  abbrev mutual
    pub leaves : BPlusNode K V → List (Leaf K V)
    leaves (leaf id es next) = record { address = id; cells = es; next = next } ∷ []
    leaves (inner cs) = child_leaves cs

    pub child_leaves : Children K V → List (Leaf K V)
    child_leaves (last c) = leaves c
    child_leaves (more c k v cs) = leaves c ++ child_leaves cs

  abbrev pub first_address : List (Leaf K V) → Option ℕ
  first_address [] = none
  first_address (l ∷ ls) = some l.address

  abbrev pub IsLinked : List (Leaf K V) → Type 0
  IsLinked [] = Unit
  IsLinked (l ∷ ls) = (l.next ≡ first_address ls) × IsLinked ls

  abbrev pub Elsewhere : ℕ → List (Leaf K V) → Type 0
  Elsewhere a [] = Unit
  Elsewhere a (l ∷ ls) = (l.address ≢ a) × Elsewhere a ls

  abbrev pub AreApart : List (Leaf K V) → Type 0
  AreApart [] = Unit
  AreApart (l ∷ ls) = Elsewhere l.address ls × AreApart ls

  -- Every address was given out before `fresh`.
  abbrev pub AreOlder : ℕ → List (Leaf K V) → Type 0
  AreOlder fresh [] = Unit
  AreOlder fresh (l ∷ ls) = (l.address < fresh) × AreOlder fresh ls

  -- Linked leaves with different addresses that were given out before `fresh`.
  pub record IsChain (ls : List (Leaf K V)) (fresh : ℕ) : Type (ℓ ⊔ κ) where
    pub linked : IsLinked ls
    pub apart : AreApart ls
    pub older : AreOlder fresh ls

  -- Between any other leaves, the first list may give way to the second.
  abbrev pub Keeps : List (Leaf K V) → ℕ → List (Leaf K V) → ℕ → Type (ℓ ⊔ κ)
  Keeps ls fresh ls' fresh' =
      (b c : List (Leaf K V)) → IsChain (b ++ (ls ++ c)) fresh → IsChain (b ++ (ls' ++ c)) fresh'

  pub Keeps-left :
      (ls ls' ms : List (Leaf K V)) (fresh fresh' : ℕ)
      → Keeps ls fresh ls' fresh'
      → Keeps (ls ++ ms) fresh (ls' ++ ms) fresh'
  Keeps-left ls ls' ms fresh fresh' h b c w =
      rw (append_assoc ls' ms c) (h b (ms ++ c) (rw (append_assoc ls ms c) at w))

  pub Keeps-right :
      (ls ms ms' : List (Leaf K V)) (fresh fresh' : ℕ)
      → Keeps ms fresh ms' fresh'
      → Keeps (ls ++ ms) fresh (ls ++ ms') fresh'
  Keeps-right ls ms ms' fresh fresh' h b c w =
      rw (append_assoc ls ms' c, sym (append_assoc b ls (ms' ++ c)))
        (h (b ++ ls) c (rw (append_assoc ls ms c, sym (append_assoc b ls (ms ++ c))) at w))

  pub AreOlder-later :
      (ls : List (Leaf K V)) (fresh : ℕ) → AreOlder fresh ls → AreOlder (fresh + 1) ls
  AreOlder-later [] fresh h = tt
  AreOlder-later (l ∷ ls) fresh h = (omega arith, AreOlder-later ls fresh h.1)

  pub Keeps-later : (ls : List (Leaf K V)) (fresh : ℕ) → Keeps ls fresh ls (fresh + 1)
  Keeps-later ls fresh b c w = record {
    linked = w.linked;
    apart = w.apart;
    older = AreOlder-later (b ++ (ls ++ c)) fresh w.older;
  }

  module _ (id : ℕ) (es es' : List (K × V)) (next : Option ℕ) where
    abbrev old : Leaf K V
    old = record { address = id; cells = es; next = next }

    abbrev refilled : Leaf K V
    refilled = record { address = id; cells = es'; next = next }

    refilled-first :
        (b c : List (Leaf K V))
        → first_address (b ++ (refilled ∷ c)) ≡ first_address (b ++ (old ∷ c))
    refilled-first [] c = refl
    refilled-first (l ∷ b) c = refl

    refilled-IsLinked :
        (b c : List (Leaf K V)) → IsLinked (b ++ (old ∷ c)) → IsLinked (b ++ (refilled ∷ c))
    refilled-IsLinked [] c h = h
    refilled-IsLinked (l ∷ b) c h = (h.0 ∙ sym (refilled-first b c), refilled-IsLinked b c h.1)

    refilled-Elsewhere :
        (a : ℕ) (b c : List (Leaf K V))
        → Elsewhere a (b ++ (old ∷ c))
        → Elsewhere a (b ++ (refilled ∷ c))
    refilled-Elsewhere a [] c h = h
    refilled-Elsewhere a (l ∷ b) c h = (h.0, refilled-Elsewhere a b c h.1)

    refilled-AreApart :
        (b c : List (Leaf K V)) → AreApart (b ++ (old ∷ c)) → AreApart (b ++ (refilled ∷ c))
    refilled-AreApart [] c h = h
    refilled-AreApart (l ∷ b) c h =
        (refilled-Elsewhere l.address b c h.0, refilled-AreApart b c h.1)

    refilled-AreOlder :
        (fresh : ℕ) (b c : List (Leaf K V))
        → AreOlder fresh (b ++ (old ∷ c))
        → AreOlder fresh (b ++ (refilled ∷ c))
    refilled-AreOlder fresh [] c h = h
    refilled-AreOlder fresh (l ∷ b) c h = (h.0, refilled-AreOlder fresh b c h.1)

    -- Other entries in a leaf.
    pub Keeps-refilled : (fresh : ℕ) → Keeps (old ∷ []) fresh (refilled ∷ []) fresh
    Keeps-refilled fresh b c w = record {
      linked = refilled-IsLinked b c w.linked;
      apart = refilled-AreApart b c w.apart;
      older = refilled-AreOlder fresh b c w.older;
    }
