-- ===== src/Cmp.antt =====
-- cmp/cmp.c and cmp/cmp.h: comparators return an `int` of which only the sign is read. The
-- comparator that a container is given is a parameter; `IsOrder` says what the containers rely on.
use latte_c.Prelude.{
  ℕ, ◌≡◌, ◌≢◌, ℤ, pos, negsuc, ltb, ltb_ℤ, if◌then◌else◌, sign, below, same, above, arith,
}

-- `typedef int cmp_func(void*, void*)`
abbrev pub CmpFunc {ℓ} : Type ℓ → Type ℓ
CmpFunc A = A → A → ℤ

unfoldable pub private_int64_cmp : CmpFunc ℤ
private_int64_cmp a b = if ltb_ℤ b a then pos 1 else if ltb_ℤ a b then negsuc 0 else pos 0

unfoldable pub private_uint64_cmp : CmpFunc ℕ
private_uint64_cmp a b = if ltb b a then pos 1 else if ltb a b then negsuc 0 else pos 0

-- A total order, as a comparator reports it.
pub record IsOrder {ℓ} {K : Type ℓ} (cmp : CmpFunc K) : Type ℓ where
  pub cmp_self : (a : K) → sign (cmp a a) ≡ same
  pub eq_of_same : (a b : K) → sign (cmp a b) ≡ same → a ≡ b
  pub above_of_below : (a b : K) → sign (cmp a b) ≡ below → sign (cmp b a) ≡ above
  pub below_of_above : (a b : K) → sign (cmp a b) ≡ above → sign (cmp b a) ≡ below
  pub below_trans :
      (a b c : K) → sign (cmp a b) ≡ below → sign (cmp b c) ≡ below → sign (cmp a c) ≡ below

-- What a sort relies on: elements may compare as the same and differ.
pub record IsPreorder {ℓ} {K : Type ℓ} (cmp : CmpFunc K) : Type ℓ where
  pub le_trans :
      (a b c : K) → sign (cmp a b) ≢ above → sign (cmp b c) ≢ above → sign (cmp a c) ≢ above
  pub le_of_above : (a b : K) → sign (cmp a b) ≡ above → sign (cmp b a) ≢ above

-- `private_uint64_cmp` is a total order of the numbers.
pub private_uint64_cmp-IsOrder : IsOrder private_uint64_cmp
unfolding private_uint64_cmp
private_uint64_cmp-IsOrder = record {
  cmp_self = λ a. ground arith;
  eq_of_same = λ a b h. ground arith;
  above_of_below = λ a b h. ground arith;
  below_of_above = λ a b h. ground arith;
  below_trans = λ a b c h k. ground arith;
}

-- `private_int64_cmp` is a total order of the integers.
pub private_int64_cmp-IsOrder : IsOrder private_int64_cmp
unfolding private_int64_cmp
private_int64_cmp-IsOrder = record {
  cmp_self = λ a. ground arith;
  eq_of_same = λ a b h. ground arith;
  above_of_below = λ a b h. ground arith;
  below_of_above = λ a b h. ground arith;
  below_trans = λ a b c h k. ground arith;
}
