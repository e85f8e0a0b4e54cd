-- ===== src/Maple/Remove.antt =====
-- `remove_node` of maple_tree.c: it ends, and the entries and the heap order after it.
use latte_c.Prelude.{
  ◌>>=◌, ℕ, zero, suc, ◌≡◌, refl, sym, ◌<◌, append_assoc, append-nil, sign, below, same, above,
  Option, none, some, [], ◌∷◌, ◌++◌, Sign-cases, inl, inr, Bool-cases, ltb, arith,
}
use latte_c.Cmp.{CmpFunc, IsOrder}
use latte_c.Entries.{
  AllKeys-append_right, lookup_entry, remove_entry, is_old, IsAscending, IsAscending-Split,
}
use latte_c.Entries.Ordered.{
  remove-below, remove-above, remove-same, lookup-below, lookup-above, lookup-same,
}
use latte_c.Maple.{
  MapleNode, null, node, rotate_left, rotate_right, remove_found, remove_node, node_count, entries,
  size_dec, Outcome, store_left, store_right,
}
use latte_c.Maple.Insert.{Under, ChildrenUnder, IsHeap, Under-le}

-- `size` shrinks for a key that is there.
abbrev pub size_after_remove {ℓ} : {A : Type ℓ} → Option A → ℕ → ℕ
size_after_remove none size = size
size_after_remove (some v) size = size_dec size

module _ {ℓ κ} {K : Type ℓ} {V : Type κ} (cmp : CmpFunc K) where
  -- The root has the key.
  abbrev RootIs : K → MapleNode K V → Type 0
  RootIs key null = ⊥
  RootIs key (node l k v r p) = sign (cmp key k) ≡ same

  -- What a removal from `t` leaves: the bounds that it keeps are those of the children too where
  -- the root itself goes.
  pub record Removed (key : K) (t n : MapleNode K V) : Type (ℓ ⊔ κ) where
    pub heap : IsHeap n
    pub under : (b : ℕ) → Under b t → Under b n
    pub under_children : (b : ℕ) → RootIs key t → ChildrenUnder b t → Under b n
    pub all : entries n ≡ remove_entry cmp key (entries t)

  -- The call on `t` returns `n`, with the flag and the size that the entries say.
  abbrev pub Returns : K → MapleNode K V → ℕ → Outcome K V → Type (ℓ ⊔ κ)
  Returns key t size out =
      (n : MapleNode K V) × (out
        ≡ some (
          n,
          size_after_remove (lookup_entry cmp key (entries t)) size,
          is_old (lookup_entry cmp key (entries t)),
        ))
      × Removed key t n

  module _ (o : IsOrder cmp) where
    -- The node above a call on its left or its right child.
    Returns-store_left :
        (key : K) (l : MapleNode K V) (k : K) (v : V) (r : MapleNode K V) (p size : ℕ)
        (out : Outcome K V)
        → IsHeap (node l k v r p)
        → IsAscending cmp (entries (node l k v r p))
        → sign (cmp key k) ≡ below
        → Returns key l size out
        → Returns key (node l k v r p) size (out >>= store_left k v r p)
    Returns-store_left key l k v r p size out h s e (l', eq, rem) =
        let split = IsAscending-Split cmp (entries l) k v (entries r) s in
        (
          node l' k v r p,
          rw (eq, lookup-below cmp o key (entries l) k v (entries r) split e),
          record {
            heap = (rem.under p h.0, h.1, rem.heap, h.3);
            under = λ b u. u;
            under_children = λ b q u. absurd (cc (e, q));
            all = rw (rem.all, remove-below cmp o key (entries l) k v (entries r) split e);
          },
        )

    Returns-store_right :
        (key : K) (l : MapleNode K V) (k : K) (v : V) (r : MapleNode K V) (p size : ℕ)
        (out : Outcome K V)
        → IsHeap (node l k v r p)
        → IsAscending cmp (entries (node l k v r p))
        → sign (cmp key k) ≡ above
        → Returns key r size out
        → Returns key (node l k v r p) size (out >>= store_right l k v p)
    Returns-store_right key l k v r p size out h s e (r', eq, rem) =
        let split = IsAscending-Split cmp (entries l) k v (entries r) s in
        (
          node l k v r' p,
          rw (eq, lookup-above cmp o key (entries l) k v (entries r) split e),
          record {
            heap = (h.0, rem.under p h.1, h.2, rem.heap);
            under = λ b u. u;
            under_children = λ b q u. absurd (cc (e, q));
            all = rw (rem.all, remove-above cmp o key (entries l) k v (entries r) split e);
          },
        )

    -- The node with the key, its left child the higher one: it goes down to the right.
    Returns-rotate_right :
        (key : K) (a : MapleNode K V) (xk : K) (xv : V) (t2 : MapleNode K V) (xp : ℕ) (k : K)
        (v : V) (r : MapleNode K V) (p size : ℕ) (out : Outcome K V)
        → IsHeap (node (node a xk xv t2 xp) k v r p)
        → IsAscending cmp (entries (node (node a xk xv t2 xp) k v r p))
        → sign (cmp key k) ≡ same
        → Under xp r
        → (IsHeap (node t2 k v r p)
            → IsAscending cmp (entries (node t2 k v r p))
            → Returns key (node t2 k v r p) size out)
        → Returns key (node (node a xk xv t2 xp) k v r p) size (out >>= store_right a xk xv xp)
    Returns-rotate_right key a xk xv t2 xp k v r p size out h s e u call =
        let shape : (entries a ++ (xk, xv) ∷ entries t2) ++ (k, v) ∷ entries r
            ≡ entries a ++ (xk, xv) ∷ (entries t2 ++ (k, v) ∷ entries r) =
          append_assoc (entries a) ((xk, xv) ∷ entries t2) ((k, v) ∷ entries r) in
        let s' : IsAscending cmp (entries a ++ (xk, xv) ∷ (entries t2 ++ (k, v) ∷ entries r)) =
          rw (← shape) s in
        let split = IsAscending-Split cmp (entries a) xk xv (entries t2 ++ (k, v) ∷ entries r) s' in
        let (y, eq, rem) = call (Under-le xp p t2 h.0 h.2.1, h.1, h.2.3, h.3) split.right in
        let high : sign (cmp key xk) ≡ above = rw (o.eq_of_same key k e) (
          o.above_of_below xk k
            (AllKeys-append_right cmp (λ x. sign (cmp xk x) ≡ below) (entries t2)
              ((k, v) ∷ entries r) split.right_above).0) in
        (
          node a xk xv y xp,
          rw (
            eq,
            shape,
            lookup-above cmp o key (entries a) xk xv (entries t2 ++ (k, v) ∷ entries r) split high,
          ),
          record {
            heap = (h.2.0, rem.under_children xp e (h.2.1, u), h.2.2, rem.heap);
            under = λ b g. Under-le p b (node a xk xv t2 xp) g h.0;
            under_children = λ b q g. g.0;
            all = rw (
              rem.all,
              shape,
              remove-above cmp o key (entries a) xk xv (entries t2 ++ (k, v) ∷ entries r) split
                  high,
            );
          },
        )

    -- Its right child the higher one: it goes down to the left.
    Returns-rotate_left :
        (key : K) (l : MapleNode K V) (k : K) (v : V) (t2 : MapleNode K V) (yk : K) (yv : V)
        (b : MapleNode K V) (yp p size : ℕ) (out : Outcome K V)
        → IsHeap (node l k v (node t2 yk yv b yp) p)
        → IsAscending cmp (entries (node l k v (node t2 yk yv b yp) p))
        → sign (cmp key k) ≡ same
        → Under yp l
        → (IsHeap (node l k v t2 p)
            → IsAscending cmp (entries (node l k v t2 p))
            → Returns key (node l k v t2 p) size out)
        → Returns key (node l k v (node t2 yk yv b yp) p) size (out >>= store_left yk yv b yp)
    Returns-rotate_left key l k v t2 yk yv b yp p size out h s e u call =
        let shape : entries l ++ (k, v) ∷ (entries t2 ++ (yk, yv) ∷ entries b)
            ≡ (entries l ++ (k, v) ∷ entries t2) ++ (yk, yv) ∷ entries b =
          sym (append_assoc (entries l) ((k, v) ∷ entries t2) ((yk, yv) ∷ entries b)) in
        let s' : IsAscending cmp ((entries l ++ (k, v) ∷ entries t2) ++ (yk, yv) ∷ entries b) =
          rw (← shape) s in
        let split = IsAscending-Split cmp (entries l ++ (k, v) ∷ entries t2) yk yv (entries b) s' in
        let (x, eq, rem) = call (h.0, Under-le yp p t2 h.1 h.3.0, h.2, h.3.2) split.left in
        let low : sign (cmp key yk) ≡ below =
          rw (o.eq_of_same key k e)
            (AllKeys-append_right cmp (λ x. sign (cmp x yk) ≡ below) (entries l)
              ((k, v) ∷ entries t2) split.left_below).0 in
        (
          node x yk yv b yp,
          rw (
            eq,
            shape,
            lookup-below cmp o key (entries l ++ (k, v) ∷ entries t2) yk yv (entries b) split low,
          ),
          record {
            heap = (rem.under_children yp e (u, h.3.0), h.3.1, rem.heap, h.3.3);
            under = λ d g. Under-le p d (node t2 yk yv b yp) g h.1;
            under_children = λ d q g. g.1;
            all = rw (
              rem.all,
              shape,
              remove-below cmp o key (entries l ++ (k, v) ∷ entries t2) yk yv (entries b) split low,
            );
          },
        )

    remove_found_lem :
        (f : ℕ) (key : K) (size : ℕ)
        → ((t : MapleNode K V)
            → node_count t < f
            → IsHeap t
            → IsAscending cmp (entries t)
            → Returns key t size (remove_node cmp f key t size))
        → (l : MapleNode K V) (k : K) (v : V) (r : MapleNode K V) (p : ℕ)
        → node_count (node l k v r p) < suc f
        → IsHeap (node l k v r p)
        → IsAscending cmp (entries (node l k v r p))
        → sign (cmp key k) ≡ same
        → Returns key
            (node l k v r p)
            size
            (remove_found (λ n. remove_node cmp f key n size) l k v r p size)
    unfolding remove_found node_count rotate_left rotate_right
    remove_found_lem f key size call null k v r p g h s e =
        let split = IsAscending-Split cmp [] k v (entries r) s in
        (
          r,
          rw (lookup-same cmp o key [] k v (entries r) split e),
          record {
            heap = h.3;
            under = λ b u. Under-le p b r u h.1;
            under_children = λ b q u. u.1;
            all = rw (remove-same cmp o key [] k v (entries r) split e);
          },
        )
    remove_found_lem f key size call (node a xk xv t2 xp) k v null p g h s e =
        let l = node a xk xv t2 xp in
        let split = IsAscending-Split cmp (entries l) k v [] s in
        (
          l,
          rw (lookup-same cmp o key (entries l) k v [] split e),
          record {
            heap = h.2;
            under = λ b u. Under-le p b l u h.0;
            under_children = λ b q u. u.0;
            all =
                rw (remove-same cmp o key (entries l) k v [] split e)
                  (sym (append-nil (entries l)));
          },
        )
    remove_found_lem f key size call (node a xk xv t2 xp) k v (node c yk yv d yp) p g h s e =
        elim (Bool-cases (ltb yp xp)) [
          | inl q ↦
              rw (q, remove_found)
                (Returns-rotate_right key a xk xv t2 xp k v (node c yk yv d yp) p size
                  (remove_node cmp f key (node t2 k v (node c yk yv d yp) p) size) h s e
                  (ground arith) (call (node t2 k v (node c yk yv d yp) p) (omega arith)))
          | inr q ↦
              rw (q, remove_found)
                (Returns-rotate_left key (node a xk xv t2 xp) k v c yk yv d yp p size
                  (remove_node cmp f key (node (node a xk xv t2 xp) k v c p) size) h s e
                  (ground arith) (call (node (node a xk xv t2 xp) k v c p) (omega arith)))
        ]

    -- With more fuel than the subtree has nodes the call returns.
    pub remove_node_lem :
        (f : ℕ) (key : K) (t : MapleNode K V) (size : ℕ)
        → node_count t < f
        → IsHeap t
        → IsAscending cmp (entries t)
        → Returns key t size (remove_node cmp f key t size)
    unfolding remove_node remove_found node_count rotate_left rotate_right
    remove_node_lem zero key t size g h s = absurd (omega arith)
    remove_node_lem (suc f) key null size g h s =
        unfold lookup_entry remove_entry in
        (
          null,
          refl,
          record { heap = tt; under = λ b u. tt; under_children = λ b q u. tt; all = refl },
        )
    remove_node_lem (suc f) key (node l k v r p) size g h s = elim (Sign-cases (sign (cmp key k))) [
      | inl e ↦
          rw (e, remove_node)
            (Returns-store_left key l k v r p size (remove_node cmp f key l size) h s e (
              remove_node_lem f key l size (omega arith) h.2
                (IsAscending-Split cmp (entries l) k v (entries r) s).left))
      | inr (inl e) ↦
          rw (e, remove_node)
            (remove_found_lem f key size (λ t. remove_node_lem f key t size) l k v r p g h s e)
      | inr (inr e) ↦
          rw (e, remove_node)
            (Returns-store_right key l k v r p size (remove_node cmp f key r size) h s e (
              remove_node_lem f key r size (omega arith) h.3
                (IsAscending-Split cmp (entries l) k v (entries r) s).right))
    ]
