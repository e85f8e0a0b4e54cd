-- ===== src/BPlusTree/Insert.antt =====
-- b_plus_tree_node_insert: an absent key is put in its place, and the node stays well formed.
use latte_c.Prelude.{
  ℕ, zero, suc, ◌+◌, ◌%◌, ◌≤◌, ◌<◌, ◌≡◌, refl, Option, none, some, List, ◌∷◌, length, arith, ◌==◌,
  ==_iff, Bool-cases, false, inl, inr, Sign-cases, sign,
}
use latte_c.Cmp.{CmpFunc, IsOrder}
use latte_c.Entries.{lookup_entry, is_new, Misses, insert_entry, IsAscending}
use latte_c.Entries.Ordered.{length-insert_entry}
use latte_c.BPlusTree.{
  BPlusNode, leaf, inner, Children, last, more, separators, num_keys, splice, join,
}
use latte_c.BPlusTree.Inserting.{
  slot, leaf_insert, insert_child, insert_split, b_plus_tree_node_insert,
}
use latte_c.BPlusTree.Shape.{
  entries, child_entries, HasHeads, HaveHeads, Shaped, AllShaped, child_entries-join,
  join-HaveHeads, join-AllShaped, length-separators-join, num_keys-Shaped,
}
use latte_c.BPlusTree.Sides.{
  slot-below, slot-cons, leaf_insert_lem, AllKeys-separators, Sides-append,
}
use latte_c.BPlusTree.Split.{NodeSplit, b_plus_tree_node_split_lem}

module _ {ℓ κ} {K : Type ℓ} {V : Type κ} (cmp : CmpFunc K) (o : IsOrder cmp) where
  module _ (order : ℕ) (even : order % 2 ≡ 0) (big : 1 < order) (key : K) (value : V) where
    -- What an insertion leaves of a node, and of the children of a node.
    pub record Inserted (d : ℕ) (es : List (K × V)) (n : BPlusNode K V) : Type (ℓ ⊔ κ) where
      pub all : entries n ≡ insert_entry cmp key value es
      pub heads : HasHeads n
      pub shape : Shaped order n d

    record ChildrenInserted (d room : ℕ) (es : List (K × V)) (cs : Children K V)
        : Type (ℓ ⊔ κ) where
      all : child_entries cs ≡ insert_entry cmp key value es
      heads : HaveHeads cs
      shapes : AllShaped order cs d
      lengths : length (separators cs) ≤ room

    -- A node that the call may be made on.
    pub record Ready (d : ℕ) (n : BPlusNode K V) : Type (ℓ ⊔ κ) where
      pub heads : HasHeads n
      pub ascending : IsAscending cmp (entries n)
      pub misses : Misses cmp key (entries n)
      pub shape : Shaped order n d

    abbrev Inserts : ℕ → (BPlusNode K V → ℕ → Option (BPlusNode K V × ℕ)) → Type (ℓ ⊔ κ)
    Inserts d insert =
        (n : BPlusNode K V) (fresh : ℕ)
        → Ready d n
        → num_keys n < order
        → (n' : BPlusNode K V) × (fresh' : ℕ) × (insert n fresh ≡ some (n', fresh'))
          × Inserted d (entries n) n'

    abbrev InsertsChild : ℕ → BPlusNode K V → Option (Children K V × ℕ) → Type (ℓ ⊔ κ)
    InsertsChild d c out =
        (ds : Children K V) × (fresh' : ℕ) × (out ≡ some (ds, fresh'))
        × ChildrenInserted d 1 (entries c) ds

    insert_split_lem :
        (d : ℕ) (insert : BPlusNode K V → ℕ → Option (BPlusNode K V × ℕ))
        → Inserts d insert
        → (fresh : ℕ) (c l : BPlusNode K V) (k : K) (v : V) (r : BPlusNode K V)
        → NodeSplit order d c l k r
        → IsAscending cmp (entries c)
        → Misses cmp key (entries c)
        → InsertsChild d c (insert_split cmp order key value insert fresh (l, k, v, r))
    insert_split_lem d insert works fresh c l k v r s a m =
        let sides =
          Sides-append cmp o key value (entries l) k (entries r) s.head (rw s.all at a)
            (rw s.all at m) in
        elim (Sign-cases (sign (cmp key k))) [
          | inl e ↦
              let ready : Ready d l = record {
                heads = s.left_heads;
                ascending = sides.left;
                misses = sides.left_misses;
                shape = s.left_shape;
              } in
              let (l', fresh', eq, done) = works l (fresh + 1) ready s.left_room in
              (
                more l' k v (last r),
                fresh',
                rw (e, insert_split, eq) refl,
                record {
                  all = rw (done.all, s.all, sides.goes_left e) refl;
                  heads = (done.heads, s.head, s.right_heads);
                  shapes = (done.shape, s.right_shape);
                  lengths = omega arith;
                },
              )
          | inr (inl e) ↦ absurd (sides.not_same e)
          | inr (inr e) ↦
              let ready : Ready d r = record {
                heads = s.right_heads;
                ascending = sides.right;
                misses = sides.right_misses;
                shape = s.right_shape;
              } in
              let (r', fresh', eq, done) = works r (fresh + 1) ready s.right_room in
              (
                more l k v (last r'),
                fresh',
                rw (e, insert_split, eq) refl,
                record {
                  all = rw (done.all, s.all, sides.goes_right e) refl;
                  heads = (s.left_heads, rw done.all (sides.head_stays e), done.heads);
                  shapes = (s.left_shape, done.shape);
                  lengths = omega arith;
                },
              )
        ]

    insert_child_lem :
        (d : ℕ) (insert : BPlusNode K V → ℕ → Option (BPlusNode K V × ℕ))
        → Inserts d insert
        → (fresh : ℕ) (c : BPlusNode K V) → Ready d c
        → InsertsChild d c (insert_child cmp order key value insert fresh c)
    insert_child_lem d insert works fresh c w = elim (Bool-cases (num_keys c == order)) [
      | inl e ↦
          let (l, k, v, r, eq, s) =
            b_plus_tree_node_split_lem order fresh c d even big ((==_iff (num_keys c) order).0 e)
              w.heads w.shape in
          let (ds, fresh', eq', done) =
            insert_split_lem d insert works fresh c l k v r s w.ascending w.misses in
          (ds, fresh', rw (e, insert_child, eq) eq', done)
      | inr e ↦
          let (c', fresh', eq, done) =
            works c fresh w (not_full (num_keys c) e (num_keys-Shaped order c d w.shape)) in
          (
            last c',
            fresh',
            rw (e, insert_child, eq) refl,
            record {
              all = done.all;
              heads = done.heads;
              shapes = done.shape;
              lengths = omega arith;
            },
          )
    ]
      where
        not_full : (n : ℕ) → (n == order) ≡ false → n ≤ order → n < order
        not_full n e h = ground arith

    splice_lem :
        (d : ℕ) (step : BPlusNode K V → Option (Children K V × ℕ))
        → ((c : BPlusNode K V) → Ready d c → InsertsChild d c (step c))
        → (cs : Children K V) → HaveHeads cs
        → IsAscending cmp (child_entries cs)
        → Misses cmp key (child_entries cs)
        → AllShaped order cs d
        → (ds : Children K V) × (fresh' : ℕ) × (splice (slot cmp key (separators cs)) cs step
            ≡ some (ds, fresh'))
          × ChildrenInserted d (length (separators cs) + 1) (child_entries cs) ds
    unfolding splice
    splice_lem d step works (last c) h a m s =
        let (ds, fresh', eq, done) =
          works c (record { heads = h; ascending = a; misses = m; shape = s }) in
        (
          ds,
          fresh',
          unfold slot in eq,
          record {
            all = done.all;
            heads = done.heads;
            shapes = done.shapes;
            lengths = omega (arith, done.lengths);
          },
        )
    splice_lem d step works (more c k v cs) h a m s =
        let sides = Sides-append cmp o key value (entries c) k (child_entries cs) h.1 a m in
        elim (Sign-cases (sign (cmp key k))) [
          | inl e ↦
              let (ds, fresh', eq, done) = works c (record {
                heads = h.0;
                ascending = sides.left;
                misses = sides.left_misses;
                shape = s.0;
              }) in
              (
                join ds k v cs,
                fresh',
                rw
                    (
                      slot-below cmp o key ((k, v) ∷ separators cs)
                          (e, AllKeys-separators cmp o _ cs h.2 (sides.separators_above e)),
                      eq,
                    )
                    refl,
                record {
                  all = rw (child_entries-join ds k v cs, done.all, sides.goes_left e) refl;
                  heads = join-HaveHeads ds k v cs done.heads h.1 h.2;
                  shapes = join-AllShaped order d ds k v cs done.shapes s.1;
                  lengths = omega (arith, length-separators-join ds k v cs, done.lengths);
                },
              )
          | inr (inl e) ↦ absurd (sides.not_same e)
          | inr (inr e) ↦
              let (ds, fresh', eq, done) =
                splice_lem d step works cs h.2 sides.right sides.right_misses s.1 in
              (
                more c k v ds,
                fresh',
                rw (slot-cons cmp o key k v (separators cs) (λ q. cc (q, e)), eq) refl,
                record {
                  all = rw (done.all, sides.goes_right e) refl;
                  heads = (h.0, rw done.all (sides.head_stays e), done.heads);
                  shapes = (s.0, done.shapes);
                  lengths = omega (arith, done.lengths);
                },
              )
        ]

    -- With more fuel than the node has levels below it the call returns.
    pub b_plus_tree_node_insert_lem :
        (f : ℕ) (n : BPlusNode K V) (d fresh : ℕ)
        → d < f
        → Ready d n
        → num_keys n < order
        → (n' : BPlusNode K V) × (fresh' : ℕ) × (b_plus_tree_node_insert cmp order key value f n
              fresh
            ≡ some (n', fresh'))
          × Inserted d (entries n) n'
    unfolding b_plus_tree_node_insert
    b_plus_tree_node_insert_lem zero n d fresh g w room = absurd (omega arith)
    b_plus_tree_node_insert_lem (suc f) (leaf id es next) zero fresh g w room = (
      leaf id (leaf_insert cmp key value es) next,
      fresh,
      refl,
      record {
        all = leaf_insert_lem cmp o key value es w.ascending w.misses;
        heads = tt;
        shape = rw (leaf_insert_lem cmp o key value es w.ascending w.misses) (
            omega (
              arith,
              length-insert_entry cmp o key value es w.ascending,
              is_new_le (lookup_entry cmp key es),
            ));
      },
    )
      where
        is_new_le : (u : Option V) → is_new u ≤ 1
        is_new_le none = omega arith
        is_new_le (some u) = omega arith
    b_plus_tree_node_insert_lem (suc f) (leaf id es next) (suc d) fresh g w room = absurd w.shape
    b_plus_tree_node_insert_lem (suc f) (inner cs) zero fresh g w room = absurd w.shape
    b_plus_tree_node_insert_lem (suc f) (inner cs) (suc d) fresh g w room =
        let insert : BPlusNode K V → ℕ → Option (BPlusNode K V × ℕ) =
          λ c fresh'. b_plus_tree_node_insert cmp order key value f c fresh' in
        let (ds, fresh', eq, done) =
          splice_lem d (insert_child cmp order key value insert fresh)
            (insert_child_lem d insert
              (λ c n r full. b_plus_tree_node_insert_lem f c d n (omega arith) r full) fresh)
            cs w.heads w.ascending w.misses w.shape.1 in
        (
          inner ds,
          fresh',
          rw eq refl,
          record {
            all = done.all;
            heads = done.heads;
            shape = (omega (arith, done.lengths), done.shapes);
          },
        )
