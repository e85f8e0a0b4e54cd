-- ===== src/Object/Counting.antt =====
-- object/object.c: an object is released by the decrement that takes its last reference.
use latte_c.Prelude.{
  ℕ, zero, suc, ◌+◌, ◌-◌, ◌%◌, ◌<◌, ◌≡◌, refl, ap, ◌∙◌, ◌==◌, false, Option, none, some, List,
  arith,
}
use latte_c.Object.{
  LatteObject, TypeEntry, with_count, latte_object_incr_ref_count, latte_object_decr_ref_count,
  release_wrapped,
}

module _ {ℓ} {P : Type ℓ} where
  abbrev pub incr_times : ℕ → LatteObject P → LatteObject P
  incr_times zero o = o
  incr_times (suc k) o = incr_times k (latte_object_incr_ref_count o)

  incr_times_lem :
      (k : ℕ) (o : LatteObject P)
      → o.refcount + k < 4294967296
      → incr_times k o ≡ with_count (o.refcount + k) o
  unfolding latte_object_incr_ref_count
  incr_times_lem zero o h =
      ap (λ (n : ℕ). with_count n o) {x = o.refcount} {y = o.refcount + 0} (omega arith)
  incr_times_lem (suc k) o h =
      let one : (o.refcount + 1) % 4294967296 ≡ o.refcount + 1 = omega arith in
      let all : (o.refcount + 1) + k ≡ o.refcount + suc k = omega arith in
      rw one (
        incr_times_lem k (with_count (o.refcount + 1) o) (omega arith)
        ∙ ap (λ (n : ℕ). with_count n o) all)

module _ {ℓ} {S P M : Type ℓ} (zfree : LatteObject P → M → M) (m : List (TypeEntry S P M)) where
  -- So many decrements, while the object is there.
  abbrev pub decr_again :
      (LatteObject P → M → Option (LatteObject P) × M)
      → Option (LatteObject P) × M
      → Option (LatteObject P) × M
  decr_again next (none, mem) = (none, mem)
  decr_again next (some o, mem) = next o mem

  unfoldable pub decr_times : ℕ → LatteObject P → M → Option (LatteObject P) × M
  decr_times zero o mem = (some o, mem)
  decr_times (suc k) o mem =
      decr_again (λ o' mem'. decr_times k o' mem') (latte_object_decr_ref_count zfree m o mem)

  decr_times-before :
      (j c : ℕ) (o : LatteObject P) (mem : M)
      → j < c
      → decr_times j (with_count c o) mem ≡ (some (with_count (c - j) o), mem)
  unfolding decr_times latte_object_decr_ref_count
  decr_times-before zero c o mem h =
      ap (λ (n : ℕ). (some (with_count n o), mem)) {x = c} {y = c - 0} (omega arith)
  decr_times-before (suc j) c o mem h =
      let not_zero : (c == 0) ≡ false = ground arith in
      let not_one : (c == 1) ≡ false = ground arith in
      let left : c - 1 - j ≡ c - suc j = omega arith in
      rw (not_zero, latte_object_decr_ref_count, not_one)
        (decr_times-before j (c - 1) o mem (omega arith)
          ∙ ap (λ (n : ℕ). (some (with_count n o), mem)) left)

  decr_times-last :
      (c : ℕ) (o : LatteObject P) (mem : M)
      → decr_times (suc c) (with_count (suc c) o) mem
        ≡ (none, release_wrapped zfree m (with_count 0 o) mem)
  unfolding decr_times latte_object_decr_ref_count
  decr_times-last zero o mem = refl
  decr_times-last (suc c) o mem =
      let not_zero : (suc (suc c) == 0) ≡ false = ground arith in
      let not_one : (suc (suc c) == 1) ≡ false = ground arith in
      let left : suc (suc c) - 1 ≡ suc c = omega arith in
      rw (not_zero, latte_object_decr_ref_count, not_one, left) (decr_times-last c o mem)

  -- An object with a reference, after k increments that keep its count below 2^32: fewer
  -- decrements than its count and k together leave it, with the rest of the count, and the memory
  -- as it was; with exactly as many it is released, once.
  pub latte_object_decr_ref_count-last :
      (k : ℕ) (o : LatteObject P) (mem : M)
      → 0 < o.refcount
      → o.refcount + k < 4294967296
      → ((j : ℕ)
          → j < o.refcount + k
          → decr_times j (incr_times k o) mem ≡ (some (with_count (o.refcount + k - j) o), mem))
        × (decr_times (o.refcount + k) (incr_times k o) mem
            ≡ (none, release_wrapped zfree m (with_count 0 o) mem))
  latte_object_decr_ref_count-last k o mem h g =
      let c : o.refcount + k ≡ suc (o.refcount + k - 1) = omega arith in
      (
        λ j less. rw (incr_times_lem k o g) (decr_times-before j (o.refcount + k) o mem less),
        rw (incr_times_lem k o g) (by_suc (o.refcount + k) (o.refcount + k - 1) c),
      )
    where
      by_suc :
          (n c : ℕ)
          → n ≡ suc c
          → decr_times n (with_count n o) mem ≡ (none, release_wrapped zfree m (with_count 0 o) mem)
      by_suc n c e = rw e (decr_times-last c o mem)
