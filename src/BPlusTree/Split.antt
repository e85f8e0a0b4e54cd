-- ===== src/BPlusTree/Split.antt =====
-- b_plus_tree_node_split: two nodes for a full one.
use latte_c.Prelude.{
  ℕ, zero, suc, ◌+◌, ◌/◌, ◌%◌, ◌<◌, ◌≡◌, refl, sym, ap, Option, some, List, ◌++◌, append_assoc,
  length, arith, take, drop, length-take, length-drop, take-append_drop, take-all, get_elem?-drop,
  lt→ltb,
}
use latte_c.BPlusTree.{
  BPlusNode, leaf, inner, Children, last, more, separators, num_keys, split_children,
  b_plus_tree_node_split, b_plus_tree_node_new,
}
use latte_c.BPlusTree.Shape.{
  entries, child_entries, HeadIs, HasHeads, HaveHeads, Shaped, AllShaped, HeadIs-left,
  child_entries-AllShaped,
}

module _ {ℓ κ} {K : Type ℓ} {V : Type κ} where
  record ChildrenSplit (order d n : ℕ) (cs l : Children K V) (k : K) (r : Children K V)
      : Type (ℓ ⊔ κ) where
    all : child_entries cs ≡ child_entries l ++ child_entries r
    head : HeadIs k (child_entries r)
    left_heads : HaveHeads l
    right_heads : HaveHeads r
    shapes : AllShaped order l d × AllShaped order r d
    left_length : length (separators l) ≡ n
    both_lengths : length (separators cs) ≡ n + 1 + length (separators r)

  split_children_lem :
      (order d n : ℕ) (cs : Children K V)
      → HaveHeads cs
      → AllShaped order cs d
      → n < length (separators cs)
      → (l : Children K V) × (k : K) × (v : V) × (r : Children K V) × (split_children n cs
          ≡ some (l, k, v, r))
        × ChildrenSplit order d n cs l k r
  unfolding split_children
  split_children_lem order d n (last c) h s g = absurd (omega arith)
  split_children_lem order d zero (more c k v cs) h s g = (
    last c,
    k,
    v,
    cs,
    refl,
    record {
      all = refl;
      head = h.1;
      left_heads = h.0;
      right_heads = h.2;
      shapes = s;
      left_length = refl;
      both_lengths = omega arith;
    },
  )
  split_children_lem order d (suc n) (more c k v cs) h q g =
      let (l, j, w, r, e, s) = split_children_lem order d n cs h.2 q.1 (omega arith) in
      (
        more c k v l,
        j,
        w,
        r,
        rw e refl,
        record {
          all = rw (s.all, append_assoc (entries c) (child_entries l) (child_entries r));
          head = s.head;
          left_heads = (
            h.0,
            HeadIs-left k (child_entries l) (child_entries r)
                (child_entries-AllShaped order l d s.shapes.0) (rw (← s.all) h.1),
            s.left_heads,
          );
          right_heads = s.right_heads;
          shapes = ((q.0, s.shapes.0), s.shapes.1);
          left_length = ap suc s.left_length;
          both_lengths = omega (arith, s.both_lengths);
        },
      )

  -- What becomes of a node with `order` keys, for an even order: two nodes of fewer keys, with the
  -- node's entries, and a separator that is the first key of the second.
  pub record NodeSplit (order d : ℕ) (n l : BPlusNode K V) (k : K) (r : BPlusNode K V)
      : Type (ℓ ⊔ κ) where
    pub all : entries n ≡ entries l ++ entries r
    pub head : HeadIs k (entries r)
    pub left_heads : HasHeads l
    pub right_heads : HasHeads r
    pub left_shape : Shaped order l d
    pub right_shape : Shaped order r d
    pub left_room : num_keys l < order
    pub right_room : num_keys r < order

  split_leaf_lem :
      (order fresh id : ℕ) (es : List (K × V)) (next : Option ℕ)
      → order % 2 ≡ 0
      → 1 < order
      → length es ≡ order
      → (l : BPlusNode K V) × (k : K) × (v : V) × (r : BPlusNode K V) × (b_plus_tree_node_split
            order fresh
            (leaf id es next)
          ≡ some (l, k, v, r))
        × NodeSplit order 0 (leaf id es next) l k r
  unfolding b_plus_tree_node_split b_plus_tree_node_new
  split_leaf_lem order fresh id es next even big full =
      let h = order / 2 in
      let same_half : (order + 1) / 2 ≡ h = omega arith in
      let (e, at, front) = get_elem?-drop h es (omega arith) in
      let rest : take h (drop h es) ≡ drop h es =
        take-all h (drop h es) (omega (arith, length-drop h es)) in
      let lengths : length (take h es) ≡ h = length-take h es (omega arith) in
      (
        leaf id (take h es) (some fresh),
        e.0,
        e.1,
        leaf fresh (drop h es) next,
        rw (at, lt→ltb 1 order big, same_half, rest) refl,
        record {
          all = sym (take-append_drop h es);
          head = record { value = e.1; tail = drop (suc h) es; begins = front };
          left_heads = tt;
          right_heads = tt;
          left_shape = omega arith;
          right_shape = omega (arith, length-drop h es);
          left_room = omega arith;
          right_room = omega (arith, length-drop h es);
        },
      )

  pub b_plus_tree_node_split_lem :
      (order fresh : ℕ) (n : BPlusNode K V) (d : ℕ)
      → order % 2 ≡ 0
      → 1 < order
      → num_keys n ≡ order
      → HasHeads n
      → Shaped order n d
      → (l : BPlusNode K V) × (k : K) × (v : V) × (r : BPlusNode K V) × (b_plus_tree_node_split
            order fresh n
          ≡ some (l, k, v, r))
        × NodeSplit order d n l k r
  unfolding b_plus_tree_node_split b_plus_tree_node_new
  b_plus_tree_node_split_lem order fresh (leaf id es next) zero even big full h s =
      split_leaf_lem order fresh id es next even big full
  b_plus_tree_node_split_lem order fresh (leaf id es next) (suc d) even big full h s = absurd s
  b_plus_tree_node_split_lem order fresh (inner cs) zero even big full h s = absurd s
  b_plus_tree_node_split_lem order fresh (inner cs) (suc d) even big full h s =
      let (l, k, v, r, e, split) = split_children_lem order d (order / 2) cs h s.1 (omega arith) in
      (
        inner l,
        k,
        v,
        inner r,
        rw (lt→ltb 1 order big, e) refl,
        record {
          all = split.all;
          head = split.head;
          left_heads = split.left_heads;
          right_heads = split.right_heads;
          left_shape = (omega (arith, split.left_length), split.shapes.0);
          right_shape = (omega (arith, split.both_lengths), split.shapes.1);
          left_room = omega (arith, split.left_length);
          right_room = omega (arith, split.both_lengths);
        },
      )
