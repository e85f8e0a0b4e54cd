-- ===== src/BPlusTree/Removing/Siblings.antt =====
-- The two neighbours that a removal from a B+ tree rebalances.
use latte_c.Prelude.{
  ℕ, zero, suc, ◌<◌, ◌≡◌, ◌≢◌, ◌⊎◌, refl, sym, ap, ◌∙◌, some, List, ◌∷◌, ◌++◌, append_assoc, length,
  arith, inl, inr, Sign-cases, sign, below,
}
use latte_c.Cmp.{CmpFunc, IsOrder}
use latte_c.Entries.{
  AllKeys-imp, AllKeys-append_left, AllKeys-append_right, remove_entry, IsAscending,
  remove-append_left,
}
use latte_c.Entries.Ordered.{AllKeys-remove_entry}
use latte_c.BPlusTree.{BPlusNode, Children, last, more, separators, child_at}
use latte_c.BPlusTree.Inserting.{slot}
use latte_c.BPlusTree.Removing.{Pair, pair_at}
use latte_c.BPlusTree.Shape.{entries, child_entries}
use latte_c.BPlusTree.Sides.{slot-cons}
use latte_c.BPlusTree.Removing.Parted.{
  AllDeep, Deep, NoneBelow, EachBelow, IsParted, AreParted, ChildrenRemoved, not_below_trans,
  below_not_below, not_below_of, Misses-below, slot-zero, more_Removed,
}
use latte_c.BPlusTree.Removing.Focus.{AllKeys-append, IsAscending-left, IsAscending-right}

slot_behind : (m i : ℕ) → (suc m ≡ suc i) ⊎ (suc m ≡ suc (suc i)) → (m ≡ i) ⊎ (m ≡ suc i)
slot_behind m i (inl e) = inl (omega arith)
slot_behind m i (inr e) = inr (omega arith)

module _ {ℓ κ} {K : Type ℓ} {V : Type κ} (cmp : CmpFunc K) where
  module _ (o : IsOrder cmp) where
    -- Where the slot of a key says that it is not below a separator, or below one.
    key_not_below :
        (key : K) (i : ℕ) (c : BPlusNode K V) (k : K) (v : V) (cs : Children K V)
        → AreParted cmp (more c k v cs)
        → (slot cmp key (separators (more c k v cs)) ≡ suc i)
          ⊎ (slot cmp key (separators (more c k v cs)) ≡ suc (suc i))
        → sign (cmp key k) ≢ below
    key_not_below key i c k v cs a w e =
        let z = slot-zero cmp o key c k v cs e a.2 in
        elim w [ inl q ↦ absurd (omega arith) | inr q ↦ absurd (omega arith) ]

    key_below_second :
        (key : K) (c : BPlusNode K V) (k : K) (v : V) (e : BPlusNode K V) (j : K) (u : V)
        (cs : Children K V)
        → AreParted cmp (more c k v (more e j u cs))
        → (slot cmp key (separators (more c k v (more e j u cs))) ≡ 0)
          ⊎ (slot cmp key (separators (more c k v (more e j u cs))) ≡ 1)
        → sign (cmp key j) ≡ below
    key_below_second key c k v e j u cs a w = elim (Sign-cases (sign (cmp key j))) [
      | inl q ↦ q
      | inr (inl q) ↦ absurd (too_far (λ r. cc (q, r)))
      | inr (inr q) ↦ absurd (too_far (λ r. cc (q, r)))
    ]
      where
        too_far : sign (cmp key j) ≢ below → ⊥
        too_far n =
            let first =
              slot-cons cmp o key k v ((j, u) ∷ separators cs)
                (not_below_trans cmp o key j k n a.2.0) in
            let second = slot-cons cmp o key j u (separators cs) n in
            elim w [
              | inl q ↦ omega (arith, first, second, q)
              | inr q ↦ omega (arith, first, second, q)
            ]

  module _ (o : IsOrder cmp) (key : K) where
    -- Two neighbours, and what may take their place: two nodes with a separator that parts their
    -- keys, or one node.
    pub record PairFocus (d i : ℕ) (cs : Children K V) (p : Pair K V) : Type (ℓ ⊔ κ) where
      pub put_left : BPlusNode K V → Children K V
      pub put_right : BPlusNode K V → Children K V
      pub at_left : child_at i cs ≡ some (p.left, put_left)
      pub at_right : child_at (suc i) cs ≡ some (p.right, put_right)
      pub deep_left : Deep p.left d
      pub deep_right : Deep p.right d
      pub ascending : IsAscending cmp (entries p.left ++ entries p.right)
      pub puts :
          (l r : BPlusNode K V) (k : K) (v : V)
          → entries l ++ entries r ≡ remove_entry cmp key (entries p.left ++ entries p.right)
          → (IsParted cmp l × IsParted cmp r)
          → (Deep l d × Deep r d)
          → EachBelow cmp k (entries l)
          → NoneBelow cmp k (entries r)
          → ((b : K) → NoneBelow cmp b (entries p.left ++ entries p.right) → sign (cmp k b) ≢ below)
          → ((b : K) → EachBelow cmp b (entries p.left ++ entries p.right) → sign (cmp k b) ≡ below)
          → ChildrenRemoved cmp key d cs (p.put l (k, v) r)
      pub merges :
          (m : BPlusNode K V)
          → entries m ≡ remove_entry cmp key (entries p.left ++ entries p.right)
          → IsParted cmp m
          → Deep m d
          → ChildrenRemoved cmp key d cs (p.merged m)

    -- The keys of the first two children.
    bound_pair :
        (b : K) (c e : BPlusNode K V) (cs : Children K V)
        → NoneBelow cmp b (entries c ++ (entries e ++ child_entries cs))
        → NoneBelow cmp b (entries c ++ entries e)
    bound_pair b c e cs x =
        AllKeys-append_left cmp _ (entries c ++ entries e) (child_entries cs)
          (rw (append_assoc (entries c) (entries e) (child_entries cs)) x)

    abbrev pub Paired : ℕ → ℕ → Children K V → Type (ℓ ⊔ κ)
    Paired d i cs = (p : Pair K V) × (pair_at i cs ≡ some p) × PairFocus d i cs p

    last_pair :
        (d : ℕ) (c : BPlusNode K V) (k : K) (v : V) (e : BPlusNode K V)
        → AllDeep (more c k v (last e)) d
        → IsAscending cmp (entries c ++ entries e)
        → Paired d 0 (more c k v (last e))
    unfolding pair_at child_at
    last_pair d c k v e s t = (
      record { left = c; right = e; put = λ l (j, u) r. more l j u (last r); merged = λ m. last m },
      refl,
      record {
        put_left = λ c'. more c' k v (last e);
        put_right = λ e'. more c k v (last e');
        at_left = refl;
        at_right = refl;
        deep_left = s.0;
        deep_right = s.1;
        ascending = t;
        puts = λ l r j u all parted deep lows highs above_all below_all. record {
          all = all;
          parted = (parted.0, lows, tt, highs, parted.1);
          deep = (deep.0, deep.1);
          bounded = λ b n m. (above_all b m, tt);
        };
        merges = λ m all parted deep. record {
          all = all;
          parted = parted;
          deep = deep;
          bounded = λ b n x. tt;
        };
      },
    )

    first_pair :
        (d : ℕ) (c : BPlusNode K V) (k : K) (v : V) (e : BPlusNode K V) (j : K) (u : V)
        (cs : Children K V)
        → AreParted cmp (more c k v (more e j u cs))
        → AllDeep (more c k v (more e j u cs)) d
        → IsAscending cmp (child_entries (more c k v (more e j u cs)))
        → sign (cmp key j) ≡ below
        → Paired d 0 (more c k v (more e j u cs))
    unfolding pair_at child_at
    first_pair d c k v e j u cs a s t key_below =
        let all_below : EachBelow cmp j (entries c ++ entries e) =
          AllKeys-append cmp _ (entries c) (entries e)
            (AllKeys-imp (λ x q. below_not_below cmp o x k j q a.2.0) (entries c) a.1) a.4.1 in
        let misses = Misses-below cmp o key j (child_entries cs) key_below a.4.3 in
        let group = append_assoc (entries c) (entries e) (child_entries cs) in
        let gone : remove_entry cmp key (entries c ++ (entries e ++ child_entries cs))
            ≡ remove_entry cmp key (entries c ++ entries e) ++ child_entries cs =
          ap (remove_entry cmp key) (sym group)
          ∙ remove-append_left cmp key (entries c ++ entries e) (child_entries cs) misses in
        (
          record {
            left = c;
            right = e;
            put = λ l (k', v') r. more l k' v' (more r j u cs);
            merged = λ m. more m j u cs;
          },
          refl,
          record {
            put_left = λ c'. more c' k v (more e j u cs);
            put_right = λ e'. more c k v (more e' j u cs);
            at_left = refl;
            at_right = refl;
            deep_left = s.0;
            deep_right = s.1.0;
            ascending =
                IsAscending-left cmp (entries c ++ entries e) (child_entries cs) (rw group t);
            puts = λ l r k' v' all parted deep lows highs above_all below_all.
                let under : sign (cmp k' j) ≡ below = below_all j all_below in
                let over = not_below_of cmp o j k' under in
                let behind =
                  λ (x : K) (b : sign (cmp x j) ≢ below). not_below_trans cmp o x j k' b over in
                let both : EachBelow cmp j (entries l ++ entries r) =
                  rw all (AllKeys-remove_entry cmp _ key (entries c ++ entries e) all_below) in
                record {
                  all =
                      sym (append_assoc (entries l) (entries r) (child_entries cs))
                      ∙ ap (λ (es : List (K × V)). es ++ child_entries cs) all
                      ∙ sym gone;
                  parted = (
                    parted.0,
                    lows,
                    (over, AllKeys-imp behind (separators cs) a.4.2),
                    AllKeys-append cmp _ (entries r) (child_entries cs) highs
                        (AllKeys-imp behind (child_entries cs) a.4.3),
                    (
                      parted.1,
                      AllKeys-append_right cmp _ (entries l) (entries r) both,
                      a.4.2,
                      a.4.3,
                      a.4.4,
                    ),
                  );
                  deep = (deep.0, (deep.1, s.1.1));
                  bounded = λ b n x. (above_all b (bound_pair b c e cs x), n.1);
                };
            merges = λ m all parted deep. record {
              all = rw (all, gone) refl;
              parted = (
                parted,
                rw all (AllKeys-remove_entry cmp _ key (entries c ++ entries e) all_below),
                a.4.2,
                a.4.3,
                a.4.4,
              );
              deep = (deep, s.1.1);
              bounded = λ b n x. n.1;
            };
          },
        )

    pub pair_at_lem :
        (d i : ℕ) (cs : Children K V)
        → AreParted cmp cs
        → AllDeep cs d
        → IsAscending cmp (child_entries cs)
        → i < length (separators cs)
        → (slot cmp key (separators cs) ≡ i) ⊎ (slot cmp key (separators cs) ≡ suc i)
        → Paired d i cs
    unfolding pair_at child_at
    pair_at_lem d i (last c) a s t h w = absurd (omega arith)
    pair_at_lem d zero (more c k v (last e)) a s t h w = last_pair d c k v e s t
    pair_at_lem d zero (more c k v (more e j u cs)) a s t h w =
        first_pair d c k v e j u cs a s t (key_below_second o key c k v e j u cs a w)
    pair_at_lem d (suc i) (more c k v cs) a s t h w =
        let n = key_not_below o key i c k v cs a w in
        let slot_cs = slot-cons cmp o key k v (separators cs) n in
        let (p, eq, f) =
          pair_at_lem d i cs a.4 s.1 (IsAscending-right cmp (entries c) (child_entries cs) t)
            (omega arith) (slot_behind (slot cmp key (separators cs)) i (rw slot_cs at w)) in
        (
          record {
            left = p.left;
            right = p.right;
            put = λ l s' r. more c k v (p.put l s' r);
            merged = λ m. more c k v (p.merged m);
          },
          rw eq refl,
          record {
            put_left = λ c'. more c k v (f.put_left c');
            put_right = λ c'. more c k v (f.put_right c');
            at_left = rw (f.at_left) refl;
            at_right = rw (f.at_right) refl;
            deep_left = f.deep_left;
            deep_right = f.deep_right;
            ascending = f.ascending;
            puts = λ l r j u all parted deep lows highs above_all below_all.
                more_Removed cmp o key d c k v cs (p.put l (j, u) r) a s n
                  (f.puts l r j u all parted deep lows highs above_all below_all);
            merges = λ m all parted deep.
                more_Removed cmp o key d c k v cs (p.merged m) a s n (f.merges m all parted deep);
          },
        )
