-- ===== src/BPlusTree/Removing/Parted.antt =====
-- The B+ trees that a removal leaves: separators part the keys, and need not be keys themselves.
use latte_c.Prelude.{ℕ, zero, suc, ◌≡◌, ◌≢◌, sym, List, ◌∷◌, inl, inr, Sign-cases, sign, below}
use latte_c.Cmp.{CmpFunc, IsOrder}
use latte_c.Entries.{
  IsAscending-Split, AllKeys, AllKeys-imp, AllKeys-append_right, Misses, remove_entry, IsAscending,
  remove-append_left, remove-append_right,
}
use latte_c.Entries.Ordered.{AllKeys-remove_entry}
use latte_c.BPlusTree.{BPlusNode, leaf, inner, Children, last, more, separators}
use latte_c.BPlusTree.Inserting.{slot}
use latte_c.BPlusTree.Shape.{entries, child_entries, HasHeads, HaveHeads, Shaped, AllShaped}
use latte_c.BPlusTree.Sides.{AllKeys-separators, slot-below}

module _ {ℓ κ} {K : Type ℓ} {V : Type κ} where
  -- All leaves are `d` levels below.
  abbrev mutual
    pub Deep : BPlusNode K V → ℕ → Type 0
    Deep (leaf id es next) zero = Unit
    Deep (leaf id es next) (suc d) = ⊥
    Deep (inner cs) zero = ⊥
    Deep (inner cs) (suc d) = AllDeep cs d

    pub AllDeep : Children K V → ℕ → Type 0
    AllDeep (last c) d = Deep c d
    AllDeep (more c k v cs) d = Deep c d × AllDeep cs d

module _ {ℓ} {K : Type ℓ} (cmp : CmpFunc K) (o : IsOrder cmp) where
  pub not_below_trans :
      (x j k : K) → sign (cmp x j) ≢ below → sign (cmp j k) ≢ below → sign (cmp x k) ≢ below
  not_below_trans x j k n m e = elim (Sign-cases (sign (cmp j k))) [
    | inl q ↦ m q
    | inr (inl q) ↦ n (rw (o.eq_of_same j k q) e)
    | inr (inr q) ↦ n (o.below_trans x k j e (o.below_of_above j k q))
  ]

  pub below_not_below :
      (x k j : K) → sign (cmp x k) ≡ below → sign (cmp j k) ≢ below → sign (cmp x j) ≡ below
  below_not_below x k j e n = elim (Sign-cases (sign (cmp j k))) [
    | inl q ↦ absurd (n q)
    | inr (inl q) ↦ rw (o.eq_of_same j k q) e
    | inr (inr q) ↦ o.below_trans x k j e (o.below_of_above j k q)
  ]

  pub not_below_of : (x k : K) → sign (cmp k x) ≡ below → sign (cmp x k) ≢ below
  not_below_of x k e q = cc (o.above_of_below k x e, q)

module _ {ℓ κ} {K : Type ℓ} {V : Type κ} where
  mutual
    pub Shaped-Deep : (order : ℕ) (n : BPlusNode K V) (d : ℕ) → Shaped order n d → Deep n d
    Shaped-Deep order (leaf id es next) zero h = tt
    Shaped-Deep order (leaf id es next) (suc d) h = absurd h
    Shaped-Deep order (inner cs) zero h = absurd h
    Shaped-Deep order (inner cs) (suc d) h = AllShaped-AllDeep order cs d h.1

    AllShaped-AllDeep :
        (order : ℕ) (cs : Children K V) (d : ℕ) → AllShaped order cs d → AllDeep cs d
    AllShaped-AllDeep order (last c) d h = Shaped-Deep order c d h
    AllShaped-AllDeep order (more c k v cs) d h =
        (Shaped-Deep order c d h.0, AllShaped-AllDeep order cs d h.1)

module _ {ℓ κ} {K : Type ℓ} {V : Type κ} (cmp : CmpFunc K) where
  abbrev pub NoneBelow : K → List (K × V) → Type 0
  NoneBelow k es = AllKeys (λ x. sign (cmp x k) ≢ below) es

  abbrev pub EachBelow : K → List (K × V) → Type 0
  EachBelow k es = AllKeys (λ x. sign (cmp x k) ≡ below) es

  -- Left of a separator the keys are below it; right of it no key and no separator is.
  abbrev mutual
    pub IsParted : BPlusNode K V → Type 0
    IsParted (leaf id es next) = Unit
    IsParted (inner cs) = AreParted cs

    pub AreParted : Children K V → Type 0
    AreParted (last c) = IsParted c
    AreParted (more c k v cs) =
        IsParted c
        × EachBelow k (entries c)
        × NoneBelow k (separators cs)
        × NoneBelow k (child_entries cs)
        × AreParted cs

  -- A node from which the key is gone.
  pub record Removed (key : K) (d : ℕ) (n n' : BPlusNode K V) : Type (ℓ ⊔ κ) where
    pub all : entries n' ≡ remove_entry cmp key (entries n)
    pub parted : IsParted n'
    pub deep : Deep n' d

  pub record ChildrenRemoved (key : K) (d : ℕ) (cs ds : Children K V) : Type (ℓ ⊔ κ) where
    pub all : child_entries ds ≡ remove_entry cmp key (child_entries cs)
    pub parted : AreParted ds
    pub deep : AllDeep ds d
    pub bounded :
        (k : K)
        → NoneBelow k (separators cs)
        → NoneBelow k (child_entries cs)
        → NoneBelow k (separators ds)

  module _ (o : IsOrder cmp) where
    -- A tree whose separators are the first keys on their right.
    mutual
      pub HasHeads-IsParted :
          (n : BPlusNode K V) → HasHeads n → IsAscending cmp (entries n) → IsParted n
      HasHeads-IsParted (leaf id es next) h a = tt
      HasHeads-IsParted (inner cs) h a = HaveHeads-AreParted cs h a

      HaveHeads-AreParted :
          (cs : Children K V) → HaveHeads cs → IsAscending cmp (child_entries cs) → AreParted cs
      HaveHeads-AreParted (last c) h a = HasHeads-IsParted c h a
      HaveHeads-AreParted (more c k v cs) h a =
          let begins = h.1.begins in
          let split = IsAscending-Split cmp (entries c) k h.1.value h.1.tail (rw begins at a) in
          let own : sign (cmp k k) ≢ below = λ q. cc (o.cmp_self k, q) in
          let over : NoneBelow k (child_entries cs) =
            rw begins
              (own, AllKeys-imp (λ x q. not_below_of cmp o x k q) h.1.tail split.right_above) in
          let right : IsAscending cmp (child_entries cs) =
            rw begins (split.right_above, split.right) in
          (
            HasHeads-IsParted c h.0 split.left,
            split.left_below,
            AllKeys-separators cmp o _ cs h.2 over,
            over,
            HaveHeads-AreParted cs h.2 right,
          )

    -- A key on the other side of a separator.
    pub Misses-below :
        (key k : K) (es : List (K × V))
        → sign (cmp key k) ≡ below
        → NoneBelow k es
        → Misses cmp key es
    Misses-below key k es e a = AllKeys-imp (λ x n q. n (rw (sym (o.eq_of_same key x q)) e)) es a

    pub Misses-above :
        (key k : K) (es : List (K × V))
        → sign (cmp key k) ≢ below
        → EachBelow k es
        → Misses cmp key es
    Misses-above key k es n a = AllKeys-imp (λ x e q. n (rw (o.eq_of_same key x q) e)) es a

    pub slot-zero :
        (key : K) (c : BPlusNode K V) (k : K) (v : V) (cs : Children K V)
        → sign (cmp key k) ≡ below
        → NoneBelow k (separators cs)
        → slot cmp key (separators (more c k v cs)) ≡ 0
    slot-zero key c k v cs e a =
        slot-below cmp o key ((k, v) ∷ separators cs)
          (e, AllKeys-imp (λ x n. below_not_below cmp o key k x e n) (separators cs) a)

    -- The key is gone behind a separator, ...
    pub more_Removed :
        (key : K) (d : ℕ) (c : BPlusNode K V) (k : K) (v : V) (cs ds : Children K V)
        → AreParted (more c k v cs)
        → AllDeep (more c k v cs) d
        → sign (cmp key k) ≢ below
        → ChildrenRemoved key d cs ds
        → ChildrenRemoved key d (more c k v cs) (more c k v ds)
    more_Removed key d c k v cs ds a s n r = record {
      all = rw (r.all) (
          sym (
            remove-append_right cmp key (entries c) (child_entries cs)
              (Misses-above key k (entries c) n a.1)));
      parted = (
        a.0,
        a.1,
        r.bounded k a.2 a.3,
        rw (r.all) (AllKeys-remove_entry cmp _ key (child_entries cs) a.3),
        r.parted,
      );
      deep = (s.0, r.deep);
      bounded = λ j b e.
          (b.0, r.bounded j b.1 (AllKeys-append_right cmp _ (entries c) (child_entries cs) e));
    }

    -- ... or in front of the first.
    pub first_Removed :
        (key : K) (d : ℕ) (c c' : BPlusNode K V) (k : K) (v : V) (cs : Children K V)
        → AreParted (more c k v cs)
        → AllDeep (more c k v cs) d
        → sign (cmp key k) ≡ below
        → Removed key d c c'
        → ChildrenRemoved key d (more c k v cs) (more c' k v cs)
    first_Removed key d c c' k v cs a s e r = record {
      all = rw (r.all) (
          sym (
            remove-append_left cmp key (entries c) (child_entries cs)
              (Misses-below key k (child_entries cs) e a.3)));
      parted =
          (r.parted, rw (r.all) (AllKeys-remove_entry cmp _ key (entries c) a.1), a.2, a.3, a.4);
      deep = (r.deep, s.1);
      bounded = λ j b e'. b;
    }
