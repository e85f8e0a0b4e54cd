-- ===== src/Vector/Partition.antt =====
-- partition of vector/vector.c: the elements that are not above the pivot, the pivot, and those above it.
use latte_c.Prelude.{
  ℕ, suc, ◌+◌, ◌-◌, ◌≡◌, ◌≢◌, refl, sym, ap, ◌∙◌, inl, inr, List, [], ◌∷◌, ◌++◌, append_assoc,
  append-nil, length, length-append, get_or, set, sign, Sign-cases, above, arith,
}
use mathlib.Core.List.Permᴰ
use mathlib.Core.List.{Permᴰ}
use latte_c.Cmp.{CmpFunc}
use latte_c.Vector.Sort.{swap, partition_from, place_pivot, partition}

get_or-middle : (xs ys : List ℕ) (y : ℕ) → get_or (xs ++ (y ∷ ys)) (length xs) 0 ≡ y
get_or-middle [] ys y = refl
get_or-middle (x ∷ xs) ys y = get_or-middle xs ys y

set-middle : (xs ys : List ℕ) (y z : ℕ) → set (xs ++ (y ∷ ys)) (length xs) z ≡ xs ++ (z ∷ ys)
set-middle [] ys y z = refl
set-middle (x ∷ xs) ys y z = ap (λ t. x ∷ t) (set-middle xs ys y z)

swap_self :
    (xs ys : List ℕ) (y : ℕ) → swap (length xs) (length xs) (xs ++ (y ∷ ys)) ≡ xs ++ (y ∷ ys)
unfolding swap
swap_self xs ys y = rw (get_or-middle xs ys y, set-middle xs ys y y, set-middle xs ys y y) refl

-- Two cells with others between them.
swap_apart :
    (xs ys zs : List ℕ) (y z : ℕ)
    → swap (length xs) (length xs + suc (length ys)) (xs ++ (y ∷ (ys ++ (z ∷ zs))))
      ≡ xs ++ (z ∷ (ys ++ (y ∷ zs)))
unfolding swap
swap_apart xs ys zs y z =
    let at : length xs + suc (length ys) ≡ length (xs ++ (y ∷ ys)) =
      omega (arith, length-append xs (y ∷ ys)) in
    let at' : length (xs ++ (y ∷ ys)) ≡ length (xs ++ (z ∷ ys)) =
      omega (arith, length-append xs (y ∷ ys), length-append xs (z ∷ ys)) in
    let near = get_or-middle xs (ys ++ (z ∷ zs)) y in
    let far = get_or-middle (xs ++ (y ∷ ys)) zs z in
    let group = append_assoc xs (y ∷ ys) (z ∷ zs) in
    let group' = append_assoc xs (z ∷ ys) (z ∷ zs) in
    let group'' = append_assoc xs (z ∷ ys) (y ∷ zs) in
    rw
      (
        at,
        near,
        sym group,
        far,
        group,
        set-middle xs (ys ++ (z ∷ zs)) y z,
        sym group',
        at',
        set-middle (xs ++ (z ∷ ys)) zs z y,
      )
      group''

-- The first cell goes behind the others.
abbrev rotate : List ℕ → List ℕ
rotate [] = []
rotate (x ∷ xs) = xs ++ (x ∷ [])

length-rotate : (xs : List ℕ) → length (rotate xs) ≡ length xs
length-rotate [] = refl
length-rotate (x ∷ xs) = omega (arith, length-append xs (x ∷ []))

rotate-Perm : (xs : List ℕ) → Permᴰ xs (rotate xs)
rotate-Perm [] = Permᴰ.refl []
rotate-Perm (x ∷ xs) =
    Permᴰ.symm (Permᴰ.trans (Permᴰ.middle x xs []) (Permᴰ.cons refl (Permᴰ.append-nil xs)))

pub length-Perm : {xs ys : List ℕ} → Permᴰ xs ys → length xs ≡ length ys
length-Perm Permᴰ.nil = refl
length-Perm (Permᴰ.cons e d) = ap suc (length-Perm d)
length-Perm (Permᴰ.swap e f) = refl
length-Perm (Permᴰ.trans d d') = length-Perm d ∙ length-Perm d'

get_or-after :
    (xs ys zs : List ℕ) (y j : ℕ)
    → j ≡ length xs + length ys
    → get_or (xs ++ (ys ++ (y ∷ zs))) j 0 ≡ y
get_or-after xs ys zs y j e =
    rw (sym (append_assoc xs ys (y ∷ zs)), e, sym (length-append xs ys))
      (get_or-middle (xs ++ ys) zs y)

low_swap :
    (xs highs tail : List ℕ) (t j : ℕ)
    → j ≡ length xs + length highs
    → swap (length xs) j (xs ++ (highs ++ (t ∷ tail))) ≡ (xs ++ (t ∷ [])) ++ (rotate highs ++ tail)
low_swap xs [] tail t j e =
    let e' : j ≡ length xs = omega arith in
    rw (e', swap_self xs tail t) (sym (append_assoc xs (t ∷ []) tail))
low_swap xs (b ∷ highs) tail t j e =
    let g = append_assoc highs (b ∷ []) tail in
    rw (e, swap_apart xs highs tail b t, append_assoc xs (t ∷ []) ((highs ++ (b ∷ [])) ++ tail), g)
      refl

module _ (c : CmpFunc ℕ) where
  -- None of the elements is above `p`.
  abbrev pub AllBelow : ℕ → List ℕ → Type 0
  AllBelow p [] = Unit
  AllBelow p (x ∷ xs) = (sign (c x p) ≢ above) × AllBelow p xs

  -- Every element is above `p`.
  abbrev pub AllAbove : ℕ → List ℕ → Type 0
  AllAbove p [] = Unit
  AllAbove p (x ∷ xs) = (sign (c x p) ≡ above) × AllAbove p xs

  AllAbove-append :
      (p x : ℕ) (xs : List ℕ) → AllAbove p xs → sign (c x p) ≡ above → AllAbove p (xs ++ (x ∷ []))
  AllAbove-append p x [] h g = (g, tt)
  AllAbove-append p x (y ∷ xs) h g = (h.0, AllAbove-append p x xs h.1 g)

  rotate-AllAbove : (p : ℕ) (xs : List ℕ) → AllAbove p xs → AllAbove p (rotate xs)
  rotate-AllAbove p [] h = h
  rotate-AllAbove p (x ∷ xs) h = AllAbove-append p x xs h.1 h.0

  -- The cells that the loop leaves behind `xs`: low ones up to the index, high ones, and the rest.
  pub record Parted (p : ℕ) (xs seg rest : List ℕ) (r : List ℕ × ℕ) : Type 0 where
    pub lows : List ℕ
    pub highs : List ℕ
    pub cells : r ≡ (xs ++ (lows ++ (highs ++ rest)), length xs + length lows)
    pub low : AllBelow p lows
    pub high : AllAbove p highs
    pub perm : Permᴰ seg (lows ++ highs)

  -- A low cell goes in front of the high ones.
  Parted-low :
      (p t : ℕ) (xs highs todo rest : List ℕ) (r : List ℕ × ℕ)
      → sign (c t p) ≢ above
      → Parted p (xs ++ (t ∷ [])) (rotate highs ++ todo) rest r
      → Parted p xs (highs ++ (t ∷ todo)) rest r
  Parted-low p t xs highs todo rest r low q =
      let e : length (xs ++ (t ∷ [])) + length q.lows ≡ length xs + length (t ∷ q.lows) =
        omega (arith, length-append xs (t ∷ [])) in
      let g = append_assoc xs (t ∷ []) (q.lows ++ (q.highs ++ rest)) in
      let perm = Permᴰ.trans (Permᴰ.append_right todo (rotate-Perm highs)) q.perm in
      record {
        lows = t ∷ q.lows;
        highs = q.highs;
        cells = q.cells ∙ (λ i. (g i, e i));
        low = (low, q.low);
        high = q.high;
        perm = Permᴰ.trans (Permᴰ.middle t highs todo) (Permᴰ.cons refl perm);
      }

  Parted-high :
      (p t : ℕ) (xs highs todo rest : List ℕ) (r : List ℕ × ℕ)
      → Parted p xs ((highs ++ (t ∷ [])) ++ todo) rest r
      → Parted p xs (highs ++ (t ∷ todo)) rest r
  Parted-high p t xs highs todo rest r q = record {
    lows = q.lows;
    highs = q.highs;
    cells = q.cells;
    low = q.low;
    high = q.high;
    perm = rw (sym (append_assoc highs (t ∷ []) todo)) q.perm;
  }

  partition_from_lem :
      (p : ℕ) (xs highs todo rest : List ℕ) (j : ℕ)
      → AllAbove p highs
      → j ≡ length xs + length highs
      → Parted p xs
          (highs ++ todo)
          rest
          (partition_from c p (length xs) j (length todo) (xs ++ (highs ++ (todo ++ rest))))
  unfolding partition_from
  partition_from_lem p xs highs [] rest j h e = record {
    lows = [];
    highs = highs;
    cells =
        ap (λ (n : ℕ). (xs ++ (highs ++ rest), n)) {x = length xs} {y = length xs + 0}
          (omega arith);
    low = tt;
    high = h;
    perm = rw (append-nil highs) (Permᴰ.refl highs);
  }
  partition_from_lem p xs highs (t ∷ todo) rest j h e =
      let at : get_or (xs ++ (highs ++ (t ∷ (todo ++ rest)))) j 0 ≡ t =
        get_or-after xs highs (todo ++ rest) t j e in
      let near : length xs + 1 ≡ length (xs ++ (t ∷ [])) =
        omega (arith, length-append xs (t ∷ [])) in
      let far : j + 1 ≡ length (xs ++ (t ∷ [])) + length (rotate highs) =
        omega (arith, length-append xs (t ∷ []), length-rotate highs) in
      let moved = low_swap xs highs (todo ++ rest) t j e in
      let low =
        partition_from_lem p (xs ++ (t ∷ [])) (rotate highs) todo rest (j + 1)
          (rotate-AllAbove p highs h) far in
      let far' : j + 1 ≡ length xs + length (highs ++ (t ∷ [])) =
        omega (arith, length-append highs (t ∷ [])) in
      elim (Sign-cases (sign (c t p))) [
        | inl s ↦
            rw (partition_from, at, s, moved, near)
              (Parted-low p t xs highs todo rest _ (λ g. cc (s, g)) low)
        | inr (inl s) ↦
            rw (partition_from, at, s, moved, near)
              (Parted-low p t xs highs todo rest _ (λ g. cc (s, g)) low)
        | inr (inr s) ↦
            rw (partition_from, at, s)
              (Parted-high p t xs highs todo rest _ (
                rw (sym (append_assoc highs (t ∷ []) (todo ++ rest))) (
                  partition_from_lem p xs (highs ++ (t ∷ [])) todo rest (j + 1)
                    (AllAbove-append p t highs h s) far')))
      ]

  -- The parts that `partition` makes of the cells `seg` and the pivot `p` behind them.
  pub record Split (p : ℕ) (pre seg post : List ℕ) (r : List ℕ × ℕ) : Type 0 where
    pub lows : List ℕ
    pub highs : List ℕ
    pub cells : r ≡ (pre ++ (lows ++ (p ∷ (highs ++ post))), length pre + length lows)
    pub low : AllBelow p lows
    pub high : AllAbove p highs
    pub perm : Permᴰ seg (lows ++ highs)

  Parted-place :
      (p : ℕ) (pre seg post : List ℕ) (high : ℕ) (r : List ℕ × ℕ)
      → high ≡ length pre + length seg
      → Parted p pre seg (p ∷ post) r
      → Split p pre seg post (place_pivot high r)
  Parted-place p pre seg post high r e q =
      let size = length-Perm q.perm in
      let whole : length seg ≡ length q.lows + length q.highs =
        omega (arith, size, length-append q.lows q.highs) in
      let end : high ≡ length (pre ++ q.lows) + length q.highs =
        omega (arith, length-append pre q.lows) in
      let moved = low_swap (pre ++ q.lows) q.highs post p high end in
      let near = append_assoc pre q.lows (q.highs ++ (p ∷ post)) in
      let at' : length pre + length q.lows ≡ length (pre ++ q.lows) =
        omega (arith, length-append pre q.lows) in
      let group = append_assoc (pre ++ q.lows) (p ∷ []) (rotate q.highs ++ post) in
      let group' = append_assoc pre q.lows (p ∷ (rotate q.highs ++ post)) in
      let placed : swap (length pre + length q.lows) high
            (pre ++ (q.lows ++ (q.highs ++ (p ∷ post))))
          ≡ pre ++ (q.lows ++ (p ∷ (rotate q.highs ++ post))) =
        (rw (sym near, at') moved) ∙ group ∙ group' in
      record {
        lows = q.lows;
        highs = rotate q.highs;
        cells = rw (q.cells) (ap (λ (l : List ℕ). (l, length pre + length q.lows)) placed);
        low = q.low;
        high = rotate-AllAbove p q.highs q.high;
        perm = Permᴰ.trans q.perm (Permᴰ.append_left q.lows (rotate-Perm q.highs));
      }

  pub partition_lem :
      (p : ℕ) (pre seg post : List ℕ) (high : ℕ)
      → high ≡ length pre + length seg
      → Split p pre seg post (partition c (pre ++ (seg ++ (p ∷ post))) (length pre) high)
  unfolding partition
  partition_lem p pre seg post high e =
      let at = get_or-after pre seg post p high e in
      let rounds : high - length pre ≡ length seg = omega arith in
      let parted = partition_from_lem p pre [] seg (p ∷ post) (length pre) tt (omega arith) in
      rw (partition, at, rounds) (Parted-place p pre seg post high _ e parted)
