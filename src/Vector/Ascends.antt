-- ===== src/Vector/Ascends.antt =====
-- The order that vector_sort of vector/vector.c makes, and permutations.
use latte_c.Prelude.{ℕ, ◌≤◌, ◌≢◌, sym, List, [], ◌∷◌, ◌++◌, length, sign, above, arith}
use mathlib.Core.List.{Permᴰ}
use latte_c.Cmp.{CmpFunc, IsPreorder}
use latte_c.Vector.Partition.{AllBelow, AllAbove}

module _ (c : CmpFunc ℕ) where
  -- `x` is above none of the elements.
  abbrev pub AtMost : ℕ → List ℕ → Type 0
  AtMost x [] = Unit
  AtMost x (y ∷ ys) = (sign (c x y) ≢ above) × AtMost x ys

  -- No element is above a later one.
  abbrev pub Ascends : List ℕ → Type 0
  Ascends [] = Unit
  Ascends (x ∷ xs) = AtMost x xs × Ascends xs

  pub AllBelow-Perm : (p : ℕ) {xs ys : List ℕ} → Permᴰ xs ys → AllBelow c p xs → AllBelow c p ys
  AllBelow-Perm p Permᴰ.nil h = tt
  AllBelow-Perm p (Permᴰ.cons e d) h = (rw (sym e) h.0, AllBelow-Perm p d h.1)
  AllBelow-Perm p (Permᴰ.swap e f) h = (rw (sym f) h.1.0, (rw (sym e) h.0, h.1.1))
  AllBelow-Perm p (Permᴰ.trans d d') h = AllBelow-Perm p d' (AllBelow-Perm p d h)

  pub AllAbove-Perm : (p : ℕ) {xs ys : List ℕ} → Permᴰ xs ys → AllAbove c p xs → AllAbove c p ys
  AllAbove-Perm p Permᴰ.nil h = tt
  AllAbove-Perm p (Permᴰ.cons e d) h = (rw (sym e) h.0, AllAbove-Perm p d h.1)
  AllAbove-Perm p (Permᴰ.swap e f) h = (rw (sym f) h.1.0, (rw (sym e) h.0, h.1.1))
  AllAbove-Perm p (Permᴰ.trans d d') h = AllAbove-Perm p d' (AllAbove-Perm p d h)

  pub short-Ascends : (xs : List ℕ) → length xs ≤ 1 → Ascends xs
  short-Ascends [] h = tt
  short-Ascends (x ∷ []) h = (tt, tt)
  short-Ascends (x ∷ y ∷ xs) h = absurd (omega arith)

  module _ (o : IsPreorder c) where
    pub AtMost-pivot : (p : ℕ) (xs : List ℕ) → AllAbove c p xs → AtMost p xs
    AtMost-pivot p [] h = tt
    AtMost-pivot p (x ∷ xs) h = (o.le_of_above x p h.0, AtMost-pivot p xs h.1)

    AtMost-trans : (x p : ℕ) (xs : List ℕ) → sign (c x p) ≢ above → AtMost p xs → AtMost x xs
    AtMost-trans x p [] h k = tt
    AtMost-trans x p (y ∷ xs) h k = (o.le_trans x p y h k.0, AtMost-trans x p xs h k.1)

    AtMost-append : (x : ℕ) (xs ys : List ℕ) → AtMost x xs → AtMost x ys → AtMost x (xs ++ ys)
    AtMost-append x [] ys h k = k
    AtMost-append x (y ∷ xs) ys h k = (h.0, AtMost-append x xs ys h.1 k)

    pub Ascends-append :
        (p : ℕ) (xs ys : List ℕ)
        → AllBelow c p xs
        → Ascends xs
        → AtMost p ys
        → Ascends ys
        → Ascends (xs ++ (p ∷ ys))
    Ascends-append p [] ys b s m t = (m, t)
    Ascends-append p (x ∷ xs) ys b s m t = (
      AtMost-append x xs (p ∷ ys) s.0 (b.0, AtMost-trans x p ys b.0 m),
      Ascends-append p xs ys b.1 s.1 m t,
    )
