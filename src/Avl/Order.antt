-- ===== src/Avl/Order.antt =====
-- The search order of the nodes of avl_tree.c, and their entries from left to right.
use latte_c.Prelude.{
  ◌≡◌, refl, Sign, sign, below, same, above, List, [], ◌∷◌, ◌++◌, append_assoc, Sign-cases, inl,
  inr,
}
use latte_c.Cmp.{CmpFunc, IsOrder}
use latte_c.Entries.{
  insert_entry, insert_entry-cons_above, insert_entry-cons_same, insert_entry-append_below,
}
use latte_c.Avl.{AvlNode, null, node}
use latte_c.Avl.Plain.{plain_insert}

module _ {ℓ κ} {K : Type ℓ} {V : Type κ} where
  -- What the iterator is meant to list.
  abbrev pub entries : AvlNode K V → List (K × V)
  entries null = []
  entries (node l k v r h) = entries l ++ (k, v) ∷ entries r

  abbrev pub AllKeys {μ} : (K → Type μ) → AvlNode K V → Type μ
  AllKeys P null = Unit
  AllKeys P (node l k v r h) = AllKeys P l × P k × AllKeys P r

  pub AllKeys-imp {μ ν} :
      {P : K → Type μ} {Q : K → Type ν}
      → ((k : K) → P k → Q k)
      → (t : AvlNode K V) → AllKeys P t
      → AllKeys Q t
  AllKeys-imp f null a = tt
  AllKeys-imp f (node l k v r h) a = (AllKeys-imp f l a.0, f k a.1, AllKeys-imp f r a.2)

module _ {ℓ κ} {K : Type ℓ} {V : Type κ} (cmp : CmpFunc K) where
  -- Every key of the tree compares with `k` as `s` says, key first.
  abbrev pub Keys : Sign → K → AvlNode K V → Type 0
  Keys s k t = AllKeys (λ x. sign (cmp x k) ≡ s) t

  abbrev pub IsOrdered : AvlNode K V → Type 0
  IsOrdered null = Unit
  IsOrdered (node l k v r h) = Keys below k l × Keys above k r × IsOrdered l × IsOrdered r

  -- A key above all of a tree's is inserted behind its entries.
  insert_entry-append :
      (key : K) (value : V) (t : AvlNode K V) (ys : List (K × V))
      → AllKeys (λ x. sign (cmp key x) ≡ above) t
      → insert_entry cmp key value (entries t ++ ys) ≡ entries t ++ insert_entry cmp key value ys
  insert_entry-append key value null ys b = refl
  insert_entry-append key value (node l k v r h) ys b = rw (
    append_assoc (entries l) ((k, v) ∷ entries r) ys,
    insert_entry-append key value l ((k, v) ∷ (entries r ++ ys)) b.0,
    insert_entry-cons_above cmp key value k v (entries r ++ ys) b.1,
    insert_entry-append key value r ys b.2,
    append_assoc (entries l) ((k, v) ∷ entries r) (insert_entry cmp key value ys),
  )

  module _ (o : IsOrder cmp) where
    -- What lies below a node's key lies below a key that is not below the node's.
    pub above_all :
        (t : AvlNode K V) (k key : K)
        → Keys below k t
        → sign (cmp key k) ≡ above
        → AllKeys (λ x. sign (cmp key x) ≡ above) t
    above_all t k key b e =
        AllKeys-imp
          (λ x p. o.above_of_below x key (o.below_trans x k key p (o.below_of_above key k e))) t b

    pub above_all_same :
        (t : AvlNode K V) (k key : K)
        → Keys below k t
        → sign (cmp key k) ≡ same
        → AllKeys (λ x. sign (cmp key x) ≡ above) t
    above_all_same t k key b e =
        AllKeys-imp (λ x p. rw (o.eq_of_same key k e) (o.above_of_below x k p)) t b

    -- The keys of a tree after an insertion are its own and the new one.
    AllKeys-plain_insert {μ} :
        (P : K → Type μ) (t : AvlNode K V) (key : K) (value : V)
        → P key
        → AllKeys P t
        → AllKeys P (plain_insert cmp t key value)
    unfolding plain_insert
    AllKeys-plain_insert P null key value p a = (tt, p, tt)
    AllKeys-plain_insert P (node l k v r h) key value p a = elim (Sign-cases (sign (cmp key k))) [
      | inl e ↦ rw (e, plain_insert) (AllKeys-plain_insert P l key value p a.0, a.1, a.2)
      | inr (inl e) ↦ rw (e, plain_insert) a
      | inr (inr e) ↦ rw (e, plain_insert) (a.0, a.1, AllKeys-plain_insert P r key value p a.2)
    ]

    pub plain_insert-IsOrdered :
        (t : AvlNode K V) (key : K) (value : V)
        → IsOrdered t
        → IsOrdered (plain_insert cmp t key value)
    unfolding plain_insert
    plain_insert-IsOrdered null key value s = (tt, tt, tt, tt)
    plain_insert-IsOrdered (node l k v r h) key value s = elim (Sign-cases (sign (cmp key k))) [
      | inl e ↦
          rw (e, plain_insert)
            (
              AllKeys-plain_insert _ l key value e s.0,
              s.1,
              plain_insert-IsOrdered l key value s.2,
              s.3,
            )
      | inr (inl e) ↦ rw (e, plain_insert) s
      | inr (inr e) ↦
          rw (e, plain_insert)
            (
              s.0,
              AllKeys-plain_insert _ r key value e s.1,
              s.2,
              plain_insert-IsOrdered r key value s.3,
            )
    ]

    pub entries-plain_insert :
        (t : AvlNode K V) (key : K) (value : V)
        → IsOrdered t
        → entries (plain_insert cmp t key value) ≡ insert_entry cmp key value (entries t)
    unfolding plain_insert
    entries-plain_insert null key value s = unfold insert_entry in refl
    entries-plain_insert (node l k v r h) key value s = elim (Sign-cases (sign (cmp key k))) [
      | inl e ↦ rw (
        e,
        plain_insert,
        entries-plain_insert l key value s.2,
        insert_entry-append_below cmp key value (entries l) k v (entries r) e,
      )
      | inr (inl e) ↦ rw (
        e,
        plain_insert,
        insert_entry-append key value l ((k, v) ∷ entries r) (above_all_same l k key s.0 e),
        insert_entry-cons_same cmp key value k v (entries r) e,
      )
      | inr (inr e) ↦ rw (
        e,
        plain_insert,
        entries-plain_insert r key value s.3,
        insert_entry-append key value l ((k, v) ∷ entries r) (above_all l k key s.0 e),
        insert_entry-cons_above cmp key value k v (entries r) e,
      )
    ]
