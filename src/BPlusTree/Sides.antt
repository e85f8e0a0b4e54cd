-- ===== src/BPlusTree/Sides.antt =====
-- The slot of a key among the separators of b_plus_tree.c, and the two sides of a separator.
use latte_c.Prelude.{
  ℕ, zero, suc, ◌≡◌, ◌≢◌, refl, ap, List, [], ◌∷◌, ◌++◌, inl, inr, Sign-cases, sign, below, same,
  above,
}
use latte_c.Cmp.{CmpFunc, IsOrder}
use latte_c.Entries.{
  AllKeys, AllKeys-imp, AllKeys-append_left, AllKeys-append_right, Misses, insert_entry,
  IsAscending, IsAscending-Split, insert_entry-cons_below, insert_entry-cons_above,
  insert_entry-append_below,
}
use latte_c.Entries.Ordered.{insert_entry-above}
use latte_c.BPlusTree.{Children, last, more, separators}
use latte_c.BPlusTree.Inserting.{slot, leaf_insert}
use latte_c.BPlusTree.Shape.{entries, child_entries, HeadIs, HaveHeads}

module _ {ℓ κ} {K : Type ℓ} {V : Type κ} (cmp : CmpFunc K) (o : IsOrder cmp) where
  -- A key that is below all of a list has the slot in front, ...
  pub slot-below :
      (key : K) (es : List (K × V))
      → AllKeys (λ x. sign (cmp key x) ≡ below) es
      → slot cmp key es ≡ 0
  unfolding slot
  slot-below key [] a = refl
  slot-below key ((k, v) ∷ es) a = rw (slot, slot-below key es a.1, a.0) refl

  -- ... and one that is not below the first has a later one.
  pub slot-cons :
      (key k : K) (v : V) (es : List (K × V))
      → sign (cmp key k) ≢ below
      → slot cmp key ((k, v) ∷ es) ≡ suc (slot cmp key es)
  unfolding slot
  slot-cons key k v es n = by_later (slot cmp key es)
    where
      by_later :
          (later : ℕ)
          → (elim later as (λ x. ℕ) [
            | suc m ↦ suc (suc m)
            | zero ↦ elim (sign (cmp key k)) [ below ↦ 0 | _ ↦ 1 ]
          ])
            ≡ suc later
      by_later (suc m) = refl
      by_later zero = elim (Sign-cases (sign (cmp key k))) [
        | inl e ↦ absurd (n e)
        | inr (inl e) ↦ rw e refl
        | inr (inr e) ↦ rw e refl
      ]

  -- What is below the first of an ascending list is below all of it.
  pub below_ascending :
      (key k : K) (v : V) (es : List (K × V))
      → IsAscending cmp ((k, v) ∷ es)
      → sign (cmp key k) ≡ below
      → AllKeys (λ x. sign (cmp key x) ≡ below) ((k, v) ∷ es)
  below_ascending key k v es a e = (e, AllKeys-imp (λ x p. o.below_trans key k x e p) es a.0)

  pub leaf_insert_lem :
      (key : K) (value : V) (es : List (K × V))
      → IsAscending cmp es
      → Misses cmp key es
      → leaf_insert cmp key value es ≡ insert_entry cmp key value es
  unfolding leaf_insert
  leaf_insert_lem key value [] a m = unfold slot insert_entry in refl
  leaf_insert_lem key value ((k, v) ∷ es) a m = elim (Sign-cases (sign (cmp key k))) [
    | inl e ↦ rw (
      slot-below key ((k, v) ∷ es) (below_ascending key k v es a e),
      insert_entry-cons_below cmp key value k v es e,
    )
    | inr (inl e) ↦ absurd (m.0 e)
    | inr (inr e) ↦
        rw (slot-cons key k v es (λ q. cc (q, e)), insert_entry-cons_above cmp key value k v es e)
          (ap (λ t. (k, v) ∷ t) (leaf_insert_lem key value es a.1 m.1))
  ]

  -- The separators are keys of the entries.
  pub AllKeys-separators {μ} :
      (P : K → Type μ) (cs : Children K V)
      → HaveHeads cs
      → AllKeys P (child_entries cs)
      → AllKeys P (separators cs)
  AllKeys-separators P (last c) h a = tt
  AllKeys-separators P (more c k v cs) h a =
      let right = AllKeys-append_right cmp P (entries c) (child_entries cs) a in
      ((rw h.1.begins at right).0, AllKeys-separators P cs h.2 right)

  -- Two sides of a separator, seen from an absent key: which side it belongs to, and what its
  -- insertion there makes of the whole.
  pub record Sides (key : K) (value : V) (xs : List (K × V)) (k : K) (ys : List (K × V))
      : Type (ℓ ⊔ κ) where
    pub left : IsAscending cmp xs
    pub right : IsAscending cmp ys
    pub left_misses : Misses cmp key xs
    pub right_misses : Misses cmp key ys
    pub not_same : sign (cmp key k) ≢ same
    pub goes_left :
        sign (cmp key k) ≡ below
        → insert_entry cmp key value (xs ++ ys) ≡ insert_entry cmp key value xs ++ ys
    pub goes_right :
        sign (cmp key k) ≡ above
        → insert_entry cmp key value (xs ++ ys) ≡ xs ++ insert_entry cmp key value ys
    pub head_stays : sign (cmp key k) ≡ above → HeadIs k (insert_entry cmp key value ys)
    pub separators_above : sign (cmp key k) ≡ below → AllKeys (λ x. sign (cmp key x) ≡ below) ys

  pub Sides-append :
      (key : K) (value : V) (xs : List (K × V)) (k : K) (ys : List (K × V))
      → HeadIs k ys
      → IsAscending cmp (xs ++ ys)
      → Misses cmp key (xs ++ ys)
      → Sides key value xs k ys
  Sides-append key value xs k ys h a m = by_head h.value h.tail ys h.begins a m
    where
      by_head :
          (v : V) (es ys : List (K × V))
          → ys ≡ (k, v) ∷ es
          → IsAscending cmp (xs ++ ys)
          → Misses cmp key (xs ++ ys)
          → Sides key value xs k ys
      by_head v es ys e a m =
          let split = IsAscending-Split cmp xs k v es (rw e at a) in
          let misses = AllKeys-append_right cmp _ xs ys m in
          record {
            left = split.left;
            right = rw e (split.right_above, split.right);
            left_misses = AllKeys-append_left cmp _ xs ys m;
            right_misses = misses;
            not_same = (rw e at misses).0;
            goes_left = λ q. rw e (insert_entry-append_below cmp key value xs k v es q);
            goes_right = λ q.
                rw (e, insert_entry-cons_above cmp key value k v es q)
                  (insert_entry-above cmp o key value xs k v es split q);
            head_stays = λ q. record {
              value = v;
              tail = insert_entry cmp key value es;
              begins = rw e (insert_entry-cons_above cmp key value k v es q);
            };
            separators_above =
                λ q. rw e (below_ascending key k v es (split.right_above, split.right) q);
          }
