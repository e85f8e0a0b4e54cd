-- ===== src/Vector/Compare.antt =====
-- private_vector_cmp of vector.c: the shorter vector is below, and two of one length compare by
-- their first difference.
use latte_c.Prelude.{
  ℕ, zero, suc, ◌+◌, ◌-◌, ◌%◌, ◌<◌, ◌≡◌, refl, ltb, ◌==◌, if◌then◌else◌, true, false, Bool-cases,
  inl, inr, List, [], ◌∷◌, length, drop, drop-all, drop-step, arith, Sign, sign, below, same, above,
  Sign-cases,
}
use latte_c.Cmp.{CmpFunc}
use latte_c.Vector.{Vector, vector_get, private_vector_cmp, cmp_from, int_of_size}
use latte_c.Vector.Contents.{IsValid, contents, length-contents, vector_get-contents}

module _ (cmp : CmpFunc ℕ) where
  -- By the first difference.
  unfoldable pub lexical : List ℕ → List ℕ → Sign
  lexical [] ys = same
  lexical (x ∷ xs) [] = same
  lexical (x ∷ xs) (y ∷ ys) = elim (sign (cmp x y)) [
    | same ↦ lexical xs ys
    | below ↦ below
    | above ↦ above
  ]

  unfoldable pub shortlex : List ℕ → List ℕ → Sign
  shortlex xs ys =
      if length xs == length ys
      then lexical xs ys
      else if ltb (length xs) (length ys)
      then below
      else above

  cmp_from_lem :
      (a b : Vector) (i left : ℕ)
      → IsValid a
      → IsValid b
      → a.count ≡ i + left
      → b.count ≡ i + left
      → sign (cmp_from cmp a b i left) ≡ lexical (drop i (contents a)) (drop i (contents b))
  unfolding cmp_from lexical
  cmp_from_lem a b i zero w u e f =
      rw (drop-all (contents a) i (rw (length-contents a w) (omega arith))) refl
  cmp_from_lem a b i (suc left) w u e f =
      let x = vector_get a i in
      let y = vector_get b i in
      rw
        (
          drop-step (contents a) i (i + 1) 0 (rw (length-contents a w) (omega arith)) refl,
          drop-step (contents b) i (i + 1) 0 (rw (length-contents b u) (omega arith)) refl,
          ← vector_get-contents a i w,
          ← vector_get-contents b i u,
        )
        (elim (Sign-cases (sign (cmp x y))) [
          | inl q ↦ rw (q, cmp_from, lexical) q
          | inr (inl q) ↦
              rw (q, cmp_from, lexical)
                (cmp_from_lem a b (i + 1) left w u (omega arith) (omega arith))
          | inr (inr q) ↦ rw (q, cmp_from, lexical) q
        ])

  sign-int_of_size :
      (m n : ℕ)
      → m < 2147483648
      → n < 2147483648
      → (m == n) ≡ false
      → sign (int_of_size ((m + (18446744073709551616 - n)) % 18446744073709551616))
        ≡ (if ltb m n then below else above)
  unfolding int_of_size
  sign-int_of_size m n h g e = ground arith

  -- On valid vectors of less than 2^31 elements private_vector_cmp is the order of the lists of
  -- their elements: by length first, then by the first difference.
  pub private_vector_cmp_lem :
      (a b : Vector)
      → IsValid a
      → IsValid b
      → a.count < 2147483648
      → b.count < 2147483648
      → sign (private_vector_cmp a b cmp) ≡ shortlex (contents a) (contents b)
  unfolding private_vector_cmp shortlex
  private_vector_cmp_lem a b w u h g = elim (Bool-cases (a.count == b.count)) [
    | inl e ↦
        rw (e, private_vector_cmp, shortlex, length-contents a w, length-contents b u)
          (rw e (cmp_from_lem a b 0 a.count w u (omega arith) (eq_of a.count b.count e)))
    | inr e ↦
        rw (e, private_vector_cmp, shortlex, length-contents a w, length-contents b u)
          (rw e (sign-int_of_size a.count b.count h g e))
  ]
    where
      eq_of : (m n : ℕ) → (m == n) ≡ true → n ≡ 0 + m
      eq_of m n e = ground arith
