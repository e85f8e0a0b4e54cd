-- ===== src/BPlusTree/Focus.antt =====
-- private_b_plus_tree_find: the child that it goes to, and the children with another in its place.
use latte_c.Prelude.{
  ℕ, suc, ◌≡◌, ◌≢◌, refl, sym, ap, ◌∙◌, some, List, [], ◌∷◌, ◌++◌, length, inl, inr, Sign-cases,
  sign, below,
}
use latte_c.Cmp.{CmpFunc, IsOrder}
use latte_c.Entries.{
  insert_entry, IsAscending, IsAscending-Split, Split, insert_entry-cons_above,
  insert_entry-cons_same, insert_entry-append_below, insert_entry-append_above, lookup-append_right,
}
use latte_c.Entries.Ordered.{lookup-below, Misses-left, above_left}
use latte_c.BPlusTree.{BPlusNode, Children, last, more, separators, child_at}
use latte_c.BPlusTree.Inserting.{slot}
use latte_c.BPlusTree.Shape.{entries, child_entries, HeadIs, HasHeads, HaveHeads, Shaped, AllShaped}
use latte_c.BPlusTree.Sides.{slot-below, slot-cons, below_ascending, AllKeys-separators}
use latte_c.BPlusTree.Find.{search_entries, search_entries-cons, search_entries-cons_below}

module _ {ℓ κ} {K : Type ℓ} {V : Type κ} (cmp : CmpFunc K) (o : IsOrder cmp) where
  -- A search in two lists of entries, the second with the key `k` in front.
  search_entries-left :
      (key : K) (xs : List (K × V)) (k : K) (v : V) (ys : List (K × V))
      → Split cmp xs k ys
      → sign (cmp key k) ≡ below
      → search_entries cmp key (xs ++ (k, v) ∷ ys) ≡ search_entries cmp key xs
  search_entries-left key [] k v ys s e =
      search_entries-cons_below cmp key k v ys e ∙ unfold search_entries in refl
  search_entries-left key ((j, u) ∷ xs) k v ys s e = elim (Sign-cases (sign (cmp key j))) [
    | inl q ↦
        rw
          (
            search_entries-cons_below cmp key j u (xs ++ (k, v) ∷ ys) q,
            search_entries-cons_below cmp key j u xs q,
          )
          refl
    | inr (inl q) ↦ present (λ p. cc (p, q))
    | inr (inr q) ↦ present (λ p. cc (p, q))
  ]
    where
      present :
          sign (cmp key j) ≢ below
          → search_entries cmp key ((j, u) ∷ xs ++ (k, v) ∷ ys)
            ≡ search_entries cmp key ((j, u) ∷ xs)
      present n =
          search_entries-cons cmp key j u (xs ++ (k, v) ∷ ys) n
          ∙ ap some (lookup-below cmp o key ((j, u) ∷ xs) k v ys s e)
          ∙ sym (search_entries-cons cmp key j u xs n)

  search_entries-right :
      (key : K) (xs : List (K × V)) (k : K) (v : V) (ys : List (K × V))
      → Split cmp xs k ys
      → sign (cmp key k) ≢ below
      → search_entries cmp key (xs ++ (k, v) ∷ ys) ≡ search_entries cmp key ((k, v) ∷ ys)
  search_entries-right key [] k v ys s n = refl
  search_entries-right key ((j, u) ∷ xs) k v ys s n =
      let first = (above_left cmp o key k ((j, u) ∷ xs) s.left_below n).0 in
      search_entries-cons cmp key j u (xs ++ (k, v) ∷ ys) (λ q. cc (q, first))
      ∙ ap some (
          lookup-append_right cmp key ((j, u) ∷ xs) ((k, v) ∷ ys)
            (Misses-left cmp o key k ((j, u) ∷ xs) s.left_below n))
      ∙ sym (search_entries-cons cmp key k v ys n)

  module _ (order : ℕ) (key : K) where
    -- The node that a store leaves.
    pub record Overwritten (d : ℕ) (w : V) (n n' : BPlusNode K V) : Type (ℓ ⊔ κ) where
      pub all : entries n' ≡ insert_entry cmp key w (entries n)
      pub heads : HasHeads n'
      pub shape : Shaped order n' d

    pub record ChildrenOverwritten (d : ℕ) (w : V) (cs ds : Children K V) : Type (ℓ ⊔ κ) where
      pub all : child_entries ds ≡ insert_entry cmp key w (child_entries cs)
      pub heads : HaveHeads ds
      pub shapes : AllShaped order ds d
      pub lengths : length (separators ds) ≡ length (separators cs)

    -- The child that a search goes to.
    pub record Focus (d : ℕ) (cs : Children K V) (c : BPlusNode K V)
        (put : BPlusNode K V → Children K V) : Type (ℓ ⊔ κ) where
      pub heads : HasHeads c
      pub ascending : IsAscending cmp (entries c)
      pub shape : Shaped order c d
      pub same_search :
          search_entries cmp key (child_entries cs) ≡ search_entries cmp key (entries c)
      pub puts :
          (w : V) (c' : BPlusNode K V) → Overwritten d w c c' → ChildrenOverwritten d w cs (put c')

    abbrev pub Focused : ℕ → Children K V → Type (ℓ ⊔ κ)
    Focused d cs =
        (c : BPlusNode K V) × (put : BPlusNode K V → Children K V) × (child_at
            (slot cmp key (separators cs)) cs
          ≡ some (c, put))
        × Focus d cs c put

    head_stays :
        (k : K) (w : V) (es : List (K × V))
        → HeadIs k es
        → sign (cmp key k) ≢ below
        → HeadIs k (insert_entry cmp key w es)
    head_stays k w es h n = elim (Sign-cases (sign (cmp key k))) [
      | inl e ↦ absurd (n e)
      | inr (inl e) ↦ record {
        value = w;
        tail = h.tail;
        begins = rw h.begins (insert_entry-cons_same cmp key w k h.value h.tail e);
      }
      | inr (inr e) ↦ record {
        value = h.value;
        tail = insert_entry cmp key w h.tail;
        begins = rw h.begins (insert_entry-cons_above cmp key w k h.value h.tail e);
      }
    ]

    -- The key is looked for behind the first child, ...
    child_at-behind :
        (d : ℕ) (c : BPlusNode K V) (k : K) (v : V) (cs : Children K V)
        (h : HaveHeads (more c k v cs))
        → IsAscending cmp (child_entries (more c k v cs))
        → AllShaped order (more c k v cs) d
        → Split cmp (entries c) k h.1.tail
        → IsAscending cmp (child_entries cs)
        → sign (cmp key k) ≢ below
        → Focused d cs
        → Focused d (more c k v cs)
    unfolding child_at
    child_at-behind d c k v cs h a s split right n (e, put, eq, f) = (
      e,
      (λ e'. more c k v (put e')),
      rw (slot-cons cmp o key k v (separators cs) n, eq) refl,
      record {
        heads = f.heads;
        ascending = f.ascending;
        shape = f.shape;
        same_search =
            rw h.1.begins (search_entries-right key (entries c) k h.1.value h.1.tail split n)
            ∙ rw h.1.begins at f.same_search;
        puts = λ w c' x.
            let done = f.puts w c' x in
            record {
              all =
                  rw
                    (
                      done.all,
                      insert_entry-append_above cmp key w (entries c) (child_entries cs)
                          (above_left cmp o key k (entries c) split.left_below n),
                    )
                    refl;
              heads = (h.0, rw done.all (head_stays k w (child_entries cs) h.1 n), done.heads);
              shapes = (s.0, done.shapes);
              lengths = ap suc done.lengths;
            };
      },
    )

    -- ... or in the first.
    child_at-first :
        (d : ℕ) (c : BPlusNode K V) (k : K) (v : V) (cs : Children K V)
        (h : HaveHeads (more c k v cs))
        → AllShaped order (more c k v cs) d
        → Split cmp (entries c) k h.1.tail
        → sign (cmp key k) ≡ below
        → Focused d (more c k v cs)
    unfolding child_at
    child_at-first d c k v cs h s split e =
        let later =
          below_ascending cmp o key k h.1.value h.1.tail (split.right_above, split.right) e in
        (
          c,
          (λ d'. more d' k v cs),
          rw
              (slot-below cmp o key ((k, v) ∷ separators cs)
                (e, AllKeys-separators cmp o _ cs h.2 (rw h.1.begins later)))
              refl,
          record {
            heads = h.0;
            ascending = split.left;
            shape = s.0;
            same_search =
                rw h.1.begins (search_entries-left key (entries c) k h.1.value h.1.tail split e);
            puts = λ w c' x. record {
              all =
                  rw
                    (
                      x.all,
                      h.1.begins,
                      insert_entry-append_below cmp key w (entries c) k h.1.value h.1.tail e,
                    )
                    refl;
              heads = (x.heads, h.1, h.2);
              shapes = (x.shape, s.1);
              lengths = refl;
            };
          },
        )

    pub child_at_lem :
        (d : ℕ) (cs : Children K V)
        → HaveHeads cs
        → IsAscending cmp (child_entries cs)
        → AllShaped order cs d
        → Focused d cs
    unfolding child_at
    child_at_lem d (last c) h a s = (
      c,
      (λ e. last e),
      unfold slot in refl,
      record {
        heads = h;
        ascending = a;
        shape = s;
        same_search = refl;
        puts = λ w c' x. record { all = x.all; heads = x.heads; shapes = x.shape; lengths = refl };
      },
    )
    child_at_lem d (more c k v cs) h a s =
        let a' = rw h.1.begins at a in
        let split = IsAscending-Split cmp (entries c) k h.1.value h.1.tail a' in
        let right : IsAscending cmp (child_entries cs) =
          rw h.1.begins (split.right_above, split.right) in
        elim (Sign-cases (sign (cmp key k))) [
          | inl e ↦ child_at-first d c k v cs h s split e
          | inr (inl e) ↦
              child_at-behind d c k v cs h a s split right (λ q. cc (q, e))
                (child_at_lem d cs h.2 right s.1)
          | inr (inr e) ↦
              child_at-behind d c k v cs h a s split right (λ q. cc (q, e))
                (child_at_lem d cs h.2 right s.1)
        ]
