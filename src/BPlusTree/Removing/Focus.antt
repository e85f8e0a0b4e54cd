-- ===== src/BPlusTree/Removing/Focus.antt =====
-- The child that b_plus_tree_find_leaf goes to.
use latte_c.Prelude.{
  ℕ, ◌≡◌, ◌≢◌, refl, ap, Option, none, some, List, [], ◌∷◌, ◌++◌, inl, inr, Sign-cases, sign, below,
  ◌>>=◌,
}
use latte_c.Cmp.{CmpFunc, IsOrder}
use latte_c.Entries.{AllKeys, AllKeys-append_left, AllKeys-append_right, Misses, IsAscending}
use latte_c.BPlusTree.{BPlusNode, Children, last, more, separators, child_at}
use latte_c.BPlusTree.Inserting.{slot}
use latte_c.BPlusTree.Shape.{entries, child_entries}
use latte_c.BPlusTree.Sides.{slot-cons}
use latte_c.BPlusTree.Removing.Parted.{
  AllDeep, Deep, IsParted, AreParted, Removed, ChildrenRemoved, Misses-below, Misses-above,
  slot-zero, more_Removed, first_Removed,
}

module _ {ℓ κ} {K : Type ℓ} {V : Type κ} where
  -- The child that is found is one.
  pub found_node :
      (x y : BPlusNode K V × (BPlusNode K V → Children K V)) → some x ≡ some y → x.0 ≡ y.0
  found_node x y e = ap (λ q. elim q [ none ↦ x.0 | some z ↦ z.0 ]) e

  pub found_behind :
      (c : BPlusNode K V) (k : K) (v : V) (x : BPlusNode K V × (BPlusNode K V → Children K V))
      (out : Option (BPlusNode K V × (BPlusNode K V → Children K V)))
      → (out >>= λ (d, put). some (d, λ e. more c k v (put e))) ≡ some x
      → (y : BPlusNode K V × (BPlusNode K V → Children K V)) × (out ≡ some y)
  found_behind c k v x none e = absurd (cc e)
  found_behind c k v x (some y) e = (y, refl)

module _ {ℓ κ} {K : Type ℓ} {V : Type κ} (cmp : CmpFunc K) where
  pub AllKeys-append {μ} :
      (P : K → Type μ) (xs ys : List (K × V)) → AllKeys P xs → AllKeys P ys → AllKeys P (xs ++ ys)
  AllKeys-append P [] ys a b = b
  AllKeys-append P (x ∷ xs) ys a b = (a.0, AllKeys-append P xs ys a.1 b)

  pub IsAscending-left : (xs ys : List (K × V)) → IsAscending cmp (xs ++ ys) → IsAscending cmp xs
  IsAscending-left [] ys a = tt
  IsAscending-left (x ∷ xs) ys a = (AllKeys-append_left cmp _ xs ys a.0, IsAscending-left xs ys a.1)

  pub IsAscending-right : (xs ys : List (K × V)) → IsAscending cmp (xs ++ ys) → IsAscending cmp ys
  IsAscending-right [] ys a = a
  IsAscending-right (x ∷ xs) ys a = IsAscending-right xs ys a.1

  module _ (o : IsOrder cmp) (key : K) where
    -- The child that a removal goes to.
    pub record Focus (d : ℕ) (cs : Children K V) (c : BPlusNode K V)
        (put : BPlusNode K V → Children K V) : Type (ℓ ⊔ κ) where
      pub parted : IsParted cmp c
      pub deep : Deep c d
      pub ascending : IsAscending cmp (entries c)
      pub misses : Misses cmp key (entries c) → Misses cmp key (child_entries cs)
      pub shows : Misses cmp key (child_entries cs) → Misses cmp key (entries c)
      pub puts :
          (c' : BPlusNode K V) → Removed cmp key d c c' → ChildrenRemoved cmp key d cs (put c')

    pub focus_lem :
        (d : ℕ) (cs : Children K V)
        → AreParted cmp cs
        → AllDeep cs d
        → IsAscending cmp (child_entries cs)
        → (c : BPlusNode K V) × (put : BPlusNode K V → Children K V) × (child_at
              (slot cmp key (separators cs))
              cs
            ≡ some (c, put))
          × Focus d cs c put
    unfolding child_at
    focus_lem d (last c) a s i = (
      c,
      (λ e. last e),
      unfold slot in refl,
      record {
        parted = a;
        deep = s;
        ascending = i;
        misses = λ m. m;
        shows = λ m. m;
        puts =
            λ c' r. record { all = r.all; parted = r.parted; deep = r.deep; bounded = λ k b e. tt };
      },
    )
    focus_lem d (more c k v cs) a s i = elim (Sign-cases (sign (cmp key k))) [
      | inl e ↦ (
        c,
        (λ c'. more c' k v cs),
        rw (slot-zero cmp o key c k v cs e a.2) refl,
        record {
          parted = a.0;
          deep = s.0;
          ascending = IsAscending-left (entries c) (child_entries cs) i;
          misses = λ m.
              AllKeys-append _ (entries c) (child_entries cs) m
                (Misses-below cmp o key k (child_entries cs) e a.3);
          shows = λ m. AllKeys-append_left cmp _ (entries c) (child_entries cs) m;
          puts = λ c' r. first_Removed cmp o key d c c' k v cs a s e r;
        },
      )
      | inr (inl e) ↦
          go_right (λ q. cc (q, e))
            (focus_lem d cs a.4 s.1 (IsAscending-right (entries c) (child_entries cs) i))
      | inr (inr e) ↦
          go_right (λ q. cc (q, e))
            (focus_lem d cs a.4 s.1 (IsAscending-right (entries c) (child_entries cs) i))
    ]
      where
        go_right :
            sign (cmp key k) ≢ below
            → ((e : BPlusNode K V) × (put : BPlusNode K V → Children K V) × (child_at
                    (slot cmp key (separators cs))
                    cs
                  ≡ some (e, put))
                × Focus d cs e put)
            → (e : BPlusNode K V) × (put : BPlusNode K V → Children K V) × (child_at
                  (slot cmp key (separators (more c k v cs)))
                  (more c k v cs)
                ≡ some (e, put))
              × Focus d (more c k v cs) e put
        go_right n (e, put, eq, f) = (
          e,
          (λ e'. more c k v (put e')),
          rw (slot-cons cmp o key k v (separators cs) n, eq) refl,
          record {
            parted = f.parted;
            deep = f.deep;
            ascending = f.ascending;
            misses = λ m.
                AllKeys-append _ (entries c) (child_entries cs)
                  (Misses-above cmp o key k (entries c) n a.1) (f.misses m);
            shows = λ m. f.shows (AllKeys-append_right cmp _ (entries c) (child_entries cs) m);
            puts = λ c' r. more_Removed cmp o key d c k v cs (put c') a s n (f.puts c' r);
          },
        )
