-- ===== src/Entries/Ordered.antt =====
-- Entries in ascending order under the three operations, and one node of a search tree: what an
-- operation does left of its entry, right of it and at it.
use latte_c.Prelude.{
  ◌+◌, arith, length, ◌≡◌, ◌≢◌, refl, sign, below, same, above, some, List, [], ◌∷◌, ◌++◌,
  Sign-cases, inl, inr,
}
use latte_c.Cmp.{CmpFunc, IsOrder}
use latte_c.Entries.{
  is_new, is_old, AllKeys, AllKeys-imp, insert_entry, lookup_entry, remove_entry, IsAscending,
  Split, insert_entry-cons_above, insert_entry-cons_same, lookup-cons, lookup-cons_same,
  remove-cons, remove-cons_same, Misses, insert_entry-append_above, lookup-append_right,
  lookup-append_left, lookup-miss, remove-append_right, remove-append_left,
}

module _ {ℓ κ} {K : Type ℓ} {V : Type κ} (cmp : CmpFunc K) where
  -- Insertion keeps the order, and grows a list by one where the key is new.
  AllKeys-insert_entry {μ} :
      (P : K → Type μ) (key : K) (value : V) (es : List (K × V))
      → P key
      → AllKeys P es
      → AllKeys P (insert_entry cmp key value es)
  unfolding insert_entry
  AllKeys-insert_entry P key value [] p a = (p, tt)
  AllKeys-insert_entry P key value ((k, v) ∷ es) p a = elim (Sign-cases (sign (cmp key k))) [
    | inl e ↦ rw (e, insert_entry) (p, (a.0, a.1))
    | inr (inl e) ↦ rw (e, insert_entry) (a.0, a.1)
    | inr (inr e) ↦ rw (e, insert_entry) (a.0, AllKeys-insert_entry P key value es p a.1)
  ]

  pub AllKeys-remove_entry {μ} :
      (P : K → Type μ) (key : K) (es : List (K × V))
      → AllKeys P es
      → AllKeys P (remove_entry cmp key es)
  unfolding remove_entry
  AllKeys-remove_entry P key [] a = tt
  AllKeys-remove_entry P key ((k, v) ∷ es) a = elim (Sign-cases (sign (cmp key k))) [
    | inl e ↦ rw (e, remove_entry) (a.0, AllKeys-remove_entry P key es a.1)
    | inr (inl e) ↦ rw (e, remove_entry) a.1
    | inr (inr e) ↦ rw (e, remove_entry) (a.0, AllKeys-remove_entry P key es a.1)
  ]

  pub remove_entry-IsAscending :
      (key : K) (es : List (K × V)) → IsAscending cmp es → IsAscending cmp (remove_entry cmp key es)
  unfolding remove_entry
  remove_entry-IsAscending key [] a = tt
  remove_entry-IsAscending key ((k, v) ∷ es) a = elim (Sign-cases (sign (cmp key k))) [
    | inl e ↦
        rw (e, remove_entry)
          (AllKeys-remove_entry _ key es a.0, remove_entry-IsAscending key es a.1)
    | inr (inl e) ↦ rw (e, remove_entry) a.1
    | inr (inr e) ↦
        rw (e, remove_entry)
          (AllKeys-remove_entry _ key es a.0, remove_entry-IsAscending key es a.1)
  ]

  module _ (o : IsOrder cmp) where
    pub insert_entry-IsAscending :
        (key : K) (value : V) (es : List (K × V))
        → IsAscending cmp es
        → IsAscending cmp (insert_entry cmp key value es)
    unfolding insert_entry
    insert_entry-IsAscending key value [] a = (tt, tt)
    insert_entry-IsAscending key value ((k, v) ∷ es) a = elim (Sign-cases (sign (cmp key k))) [
      | inl e ↦
          rw (e, insert_entry)
            ((e, AllKeys-imp (λ x p. o.below_trans key k x e p) es a.0), (a.0, a.1))
      | inr (inl e) ↦ rw (e, insert_entry) a
      | inr (inr e) ↦
          rw (e, insert_entry)
            (
              AllKeys-insert_entry (λ x. sign (cmp k x) ≡ below) key value es
                  (o.below_of_above key k e) a.0,
              insert_entry-IsAscending key value es a.1,
            )
    ]

    -- The two sides of an entry whose key is not below, not above, or equal.
    pub above_left :
        (key k : K) (xs : List (K × V))
        → AllKeys (λ x. sign (cmp x k) ≡ below) xs
        → sign (cmp key k) ≢ below
        → AllKeys (λ x. sign (cmp key x) ≡ above) xs
    above_left key k xs a n = elim (Sign-cases (sign (cmp key k))) [
      | inl e ↦ absurd (n e)
      | inr (inl e) ↦ AllKeys-imp (λ x p. rw (o.eq_of_same key k e) (o.above_of_below x k p)) xs a
      | inr (inr e) ↦
          AllKeys-imp
            (λ x p. o.above_of_below x key (o.below_trans x k key p (o.below_of_above key k e))) xs
            a
    ]

    pub Misses-left :
        (key k : K) (xs : List (K × V))
        → AllKeys (λ x. sign (cmp x k) ≡ below) xs
        → sign (cmp key k) ≢ below
        → Misses cmp key xs
    Misses-left key k xs a n = AllKeys-imp (λ x p q. cc (p, q)) xs (above_left key k xs a n)

    pub Misses-right :
        (key k : K) (ys : List (K × V))
        → AllKeys (λ x. sign (cmp k x) ≡ below) ys
        → sign (cmp key k) ≡ below
        → Misses cmp key ys
    Misses-right key k ys a e = AllKeys-imp (λ x p q. cc (q, o.below_trans key k x e p)) ys a

    -- One node of a search tree: what the three operations do left of it, right of it and at it.
    pub lookup-below :
        (key : K) (xs : List (K × V)) (k : K) (v : V) (ys : List (K × V))
        → Split cmp xs k ys
        → sign (cmp key k) ≡ below
        → lookup_entry cmp key (xs ++ (k, v) ∷ ys) ≡ lookup_entry cmp key xs
    lookup-below key xs k v ys s e =
        lookup-append_left cmp key xs ((k, v) ∷ ys) (
          lookup-miss cmp key ((k, v) ∷ ys) (λ q. cc (q, e), Misses-right key k ys s.right_above e))

    pub lookup-above :
        (key : K) (xs : List (K × V)) (k : K) (v : V) (ys : List (K × V))
        → Split cmp xs k ys
        → sign (cmp key k) ≡ above
        → lookup_entry cmp key (xs ++ (k, v) ∷ ys) ≡ lookup_entry cmp key ys
    lookup-above key xs k v ys s e = rw (
      lookup-append_right cmp key xs ((k, v) ∷ ys)
          (Misses-left key k xs s.left_below (λ q. cc (q, e))),
      lookup-cons cmp key k v ys (λ q. cc (q, e)),
    )

    pub lookup-same :
        (key : K) (xs : List (K × V)) (k : K) (v : V) (ys : List (K × V))
        → Split cmp xs k ys
        → sign (cmp key k) ≡ same
        → lookup_entry cmp key (xs ++ (k, v) ∷ ys) ≡ some v
    lookup-same key xs k v ys s e = rw (
      lookup-append_right cmp key xs ((k, v) ∷ ys)
          (Misses-left key k xs s.left_below (λ q. cc (q, e))),
      lookup-cons_same cmp key k v ys e,
    )

    pub insert_entry-above :
        (key : K) (value : V) (xs : List (K × V)) (k : K) (v : V) (ys : List (K × V))
        → Split cmp xs k ys
        → sign (cmp key k) ≡ above
        → insert_entry cmp key value (xs ++ (k, v) ∷ ys)
          ≡ xs ++ (k, v) ∷ insert_entry cmp key value ys
    insert_entry-above key value xs k v ys s e = rw (
      insert_entry-append_above cmp key value xs ((k, v) ∷ ys)
          (above_left key k xs s.left_below (λ q. cc (q, e))),
      insert_entry-cons_above cmp key value k v ys e,
    )

    pub insert_entry-same :
        (key : K) (value : V) (xs : List (K × V)) (k : K) (v : V) (ys : List (K × V))
        → Split cmp xs k ys
        → sign (cmp key k) ≡ same
        → insert_entry cmp key value (xs ++ (k, v) ∷ ys) ≡ xs ++ (k, value) ∷ ys
    insert_entry-same key value xs k v ys s e = rw (
      insert_entry-append_above cmp key value xs ((k, v) ∷ ys)
          (above_left key k xs s.left_below (λ q. cc (q, e))),
      insert_entry-cons_same cmp key value k v ys e,
    )

    pub remove-below :
        (key : K) (xs : List (K × V)) (k : K) (v : V) (ys : List (K × V))
        → Split cmp xs k ys
        → sign (cmp key k) ≡ below
        → remove_entry cmp key (xs ++ (k, v) ∷ ys) ≡ remove_entry cmp key xs ++ (k, v) ∷ ys
    remove-below key xs k v ys s e =
        remove-append_left cmp key xs ((k, v) ∷ ys)
          (λ q. cc (q, e), Misses-right key k ys s.right_above e)

    pub remove-above :
        (key : K) (xs : List (K × V)) (k : K) (v : V) (ys : List (K × V))
        → Split cmp xs k ys
        → sign (cmp key k) ≡ above
        → remove_entry cmp key (xs ++ (k, v) ∷ ys) ≡ xs ++ (k, v) ∷ remove_entry cmp key ys
    remove-above key xs k v ys s e = rw (
      remove-append_right cmp key xs ((k, v) ∷ ys)
          (Misses-left key k xs s.left_below (λ q. cc (q, e))),
      remove-cons cmp key k v ys (λ q. cc (q, e)),
    )

    pub remove-same :
        (key : K) (xs : List (K × V)) (k : K) (v : V) (ys : List (K × V))
        → Split cmp xs k ys
        → sign (cmp key k) ≡ same
        → remove_entry cmp key (xs ++ (k, v) ∷ ys) ≡ xs ++ ys
    remove-same key xs k v ys s e = rw (
      remove-append_right cmp key xs ((k, v) ∷ ys)
          (Misses-left key k xs s.left_below (λ q. cc (q, e))),
      remove-cons_same cmp key k v ys e,
    )

    pub length-insert_entry :
        (key : K) (value : V) (es : List (K × V))
        → IsAscending cmp es
        → length (insert_entry cmp key value es) ≡ length es + is_new (lookup_entry cmp key es)
    unfolding insert_entry lookup_entry
    length-insert_entry key value [] a = refl
    length-insert_entry key value ((k, v) ∷ es) a = elim (Sign-cases (sign (cmp key k))) [
      | inl e ↦
          rw (e, insert_entry, lookup_entry, lookup-miss cmp key es (Misses-right key k es a.0 e))
            (omega arith)
      | inr (inl e) ↦ rw (e, insert_entry, lookup_entry) (omega arith)
      | inr (inr e) ↦
          rw (e, insert_entry, lookup_entry) (omega (arith, length-insert_entry key value es a.1))
    ]

  pub length-remove_entry :
      (key : K) (es : List (K × V))
      → length (remove_entry cmp key es) + is_old (lookup_entry cmp key es) ≡ length es
  unfolding remove_entry lookup_entry
  length-remove_entry key [] = refl
  length-remove_entry key ((k, v) ∷ es) = elim (Sign-cases (sign (cmp key k))) [
    | inl e ↦ rw (e, remove_entry, lookup_entry) (omega (arith, length-remove_entry key es))
    | inr (inl e) ↦ rw (e, remove_entry, lookup_entry) (omega arith)
    | inr (inr e) ↦ rw (e, remove_entry, lookup_entry) (omega (arith, length-remove_entry key es))
  ]
