-- ===== src/Maple/Insert.antt =====
-- `insert_node` of maple_tree.c: the entries and the heap order after it.
use latte_c.Prelude.{
  ℕ, ◌≡◌, refl, ◌≤◌, append_assoc, sign, Option, none, some, List, ◌∷◌, ◌++◌, Sign-cases, inl, inr,
  Bool-cases, ltb, ltb→lt, arith, false, below, above,
}
use latte_c.Cmp.{CmpFunc, IsOrder}
use latte_c.Entries.{
  insert_entry, lookup_entry, is_new, IsAscending, IsAscending-Split, Split,
  insert_entry-append_below,
}
use latte_c.Entries.Ordered.{
  insert_entry-above, insert_entry-same, lookup-below, lookup-above, lookup-same,
}
use latte_c.Maple.{
  MapleNode, null, node, settle_left, settle_right, rotate_left, rotate_right, insert_node, entries,
  size_inc,
}

-- `size` grows for a new key only.
abbrev pub size_after_put {ℓ} : {A : Type ℓ} → Option A → ℕ → ℕ
size_after_put none size = size_inc size
size_after_put (some v) size = size

module _ {ℓ κ} {K : Type ℓ} {V : Type κ} where
  -- The root's priority is at most `b`.
  abbrev pub Under : ℕ → MapleNode K V → Type 0
  Under b null = Unit
  Under b (node l k v r p) = p ≤ b

  abbrev pub ChildrenUnder : ℕ → MapleNode K V → Type 0
  ChildrenUnder b null = Unit
  ChildrenUnder b (node l k v r p) = Under b l × Under b r

  abbrev pub IsHeap : MapleNode K V → Type 0
  IsHeap null = Unit
  IsHeap (node l k v r p) = Under p l × Under p r × IsHeap l × IsHeap r

  pub Under-le : (b c : ℕ) (n : MapleNode K V) → b ≤ c → Under b n → Under c n
  Under-le b c null h u = tt
  Under-le b c (node l k v r p) h u = omega arith

  abbrev pub IsNode : MapleNode K V → Type 0
  IsNode null = ⊥
  IsNode (node l k v r p) = Unit

  -- What an insertion leaves in the place of a subtree with such entries: children bounded by
  -- whatever bounded the subtree, for the node above to rotate if it must.
  pub record Settled (n : MapleNode K V) (es : List (K × V)) : Type (ℓ ⊔ κ) where
    pub heap : IsHeap n
    pub exists_node : IsNode n
    pub all : entries n ≡ es

  settle_left_lem :
      (l : MapleNode K V) (k : K) (v : V) (r : MapleNode K V) (p : ℕ)
      → IsNode l
      → IsHeap l
      → ChildrenUnder p l
      → Under p r
      → IsHeap r
      → (n : MapleNode K V) × (settle_left l k v r p ≡ some n)
        × Settled n (entries l ++ (k, v) ∷ entries r)
        × ((b : ℕ) → p ≤ b → ChildrenUnder b n)
  unfolding settle_left rotate_right
  settle_left_lem null k v r p w h c u hr = absurd w
  settle_left_lem (node a xk xv t2 xp) k v r p w h c u hr = elim (Bool-cases (ltb p xp)) [
    | inl e ↦
        let lt = ltb→lt p xp e in
        (
          node a xk xv (node t2 k v r p) xp,
          rw (e, settle_left),
          record {
            heap = (h.0, omega arith, h.2, (c.1, u, h.3, hr));
            exists_node = tt;
            all = sym_append (entries a) (xk, xv) (entries t2) ((k, v) ∷ entries r);
          },
          λ b g. (Under-le p b a g c.0, g),
        )
    | inr e ↦ (
      node (node a xk xv t2 xp) k v r p,
      rw (e, settle_left),
      record { heap = (not_lt e, u, h, hr); exists_node = tt; all = refl },
      λ b g. (below_bound b g (not_lt e), Under-le p b r g u),
    )
  ]
    where
      sym_append :
          (xs : List (K × V)) (e : K × V) (ys zs : List (K × V))
          → xs ++ e ∷ (ys ++ zs) ≡ (xs ++ e ∷ ys) ++ zs
      sym_append xs e ys zs = rw (append_assoc xs (e ∷ ys) zs)

      not_lt : ltb p xp ≡ false → xp ≤ p
      not_lt e = ground arith

      below_bound : (b : ℕ) → p ≤ b → xp ≤ p → xp ≤ b
      below_bound b g h = omega arith

  settle_right_lem :
      (l : MapleNode K V) (k : K) (v : V) (r : MapleNode K V) (p : ℕ)
      → IsNode r
      → IsHeap r
      → ChildrenUnder p r
      → Under p l
      → IsHeap l
      → (n : MapleNode K V) × (settle_right l k v r p ≡ some n)
        × Settled n (entries l ++ (k, v) ∷ entries r)
        × ((b : ℕ) → p ≤ b → ChildrenUnder b n)
  unfolding settle_right rotate_left
  settle_right_lem l k v null p w h c u hl = absurd w
  settle_right_lem l k v (node t2 yk yv b yp) p w h c u hl = elim (Bool-cases (ltb p yp)) [
    | inl e ↦
        let lt = ltb→lt p yp e in
        (
          node (node l k v t2 p) yk yv b yp,
          rw (e, settle_right),
          record {
            heap = (omega arith, h.1, (u, c.0, hl, h.2), h.3);
            exists_node = tt;
            all = append_assoc (entries l) ((k, v) ∷ entries t2) ((yk, yv) ∷ entries b);
          },
          λ d g. (g, Under-le p d b g c.1),
        )
    | inr e ↦ (
      node l k v (node t2 yk yv b yp) p,
      rw (e, settle_right),
      record { heap = (u, not_lt e, hl, h); exists_node = tt; all = refl },
      λ d g. (Under-le p d l g u, below_bound d g (not_lt e)),
    )
  ]
    where
      not_lt : ltb p yp ≡ false → yp ≤ p
      not_lt e = ground arith

      below_bound : (d : ℕ) → p ≤ d → yp ≤ p → yp ≤ d
      below_bound d g h = omega arith

module _ {ℓ κ} {K : Type ℓ} {V : Type κ} (cmp : CmpFunc K) (o : IsOrder cmp) where
  -- What an insertion into a tree of entries gives.
  abbrev pub Inserted : ℕ → K → V → MapleNode K V → ℕ → Type (ℓ ⊔ κ)
  Inserted priority key value t size =
      (n : MapleNode K V) × (insert_node cmp priority key value t size
        ≡ some (
          n,
          size_after_put (lookup_entry cmp key (entries t)) size,
          is_new (lookup_entry cmp key (entries t)),
        ))
      × Settled n (insert_entry cmp key value (entries t))
      × ((b : ℕ) → Under b t → ChildrenUnder b n)

  insert_left :
      (priority : ℕ) (key : K) (value : V) (l : MapleNode K V) (k : K) (v : V) (r : MapleNode K V)
      (p : ℕ) (size : ℕ)
      → IsHeap (node l k v r p)
      → Split cmp (entries l) k (entries r)
      → sign (cmp key k) ≡ below
      → Inserted priority key value l size
      → Inserted priority key value (node l k v r p) size
  unfolding insert_node
  insert_left priority key value l k v r p size h split e (l', eq, settled, under) =
      let (n, eq', settled', under') =
        settle_left_lem l' k v r p settled.exists_node settled.heap (under p h.0) h.1 h.3 in
      (
        n,
        rw (e, insert_node, eq, eq', lookup-below cmp o key (entries l) k v (entries r) split e),
        record {
          heap = settled'.heap;
          exists_node = settled'.exists_node;
          all = rw (
            settled'.all,
            settled.all,
            insert_entry-append_below cmp key value (entries l) k v (entries r) e,
          );
        },
        under',
      )

  insert_right :
      (priority : ℕ) (key : K) (value : V) (l : MapleNode K V) (k : K) (v : V) (r : MapleNode K V)
      (p : ℕ) (size : ℕ)
      → IsHeap (node l k v r p)
      → Split cmp (entries l) k (entries r)
      → sign (cmp key k) ≡ above
      → Inserted priority key value r size
      → Inserted priority key value (node l k v r p) size
  unfolding insert_node
  insert_right priority key value l k v r p size h split e (r', eq, settled, under) =
      let (n, eq', settled', under') =
        settle_right_lem l k v r' p settled.exists_node settled.heap (under p h.1) h.0 h.2 in
      (
        n,
        rw (e, insert_node, eq, eq', lookup-above cmp o key (entries l) k v (entries r) split e),
        record {
          heap = settled'.heap;
          exists_node = settled'.exists_node;
          all = rw (
            settled'.all,
            settled.all,
            insert_entry-above cmp o key value (entries l) k v (entries r) split e,
          );
        },
        under',
      )

  pub insert_node_lem :
      (priority : ℕ) (key : K) (value : V) (t : MapleNode K V) (size : ℕ)
      → IsHeap t
      → IsAscending cmp (entries t)
      → Inserted priority key value t size
  unfolding insert_node
  insert_node_lem priority key value null size h s =
      unfold insert_entry lookup_entry in
      (
        node null key value null priority,
        refl,
        record { heap = (tt, tt, tt, tt); exists_node = tt; all = refl },
        λ b u. (tt, tt),
      )
  insert_node_lem priority key value (node l k v r p) size h s =
      let split = IsAscending-Split cmp (entries l) k v (entries r) s in
      elim (Sign-cases (sign (cmp key k))) [
        | inl e ↦
            insert_left priority key value l k v r p size h split e
              (insert_node_lem priority key value l size h.2 split.left)
        | inr (inl e) ↦ (
          node l k value r p,
          rw (e, insert_node, lookup-same cmp o key (entries l) k v (entries r) split e),
          record {
            heap = h;
            exists_node = tt;
            all = rw (insert_entry-same cmp o key value (entries l) k v (entries r) split e);
          },
          λ b u. (Under-le p b l u h.0, Under-le p b r u h.1),
        )
        | inr (inr e) ↦
            insert_right priority key value l k v r p size h split e
              (insert_node_lem priority key value r size h.3 split.right)
      ]
