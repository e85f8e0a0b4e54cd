-- ===== src/Avl/Put.antt =====
-- `avl_tree_put` against a list of entries in ascending order.
use latte_c.Prelude.{
  ◌≡◌, ◌≢◌, refl, ◌∙◌, append_assoc, append-nil, sign, below, same, above, none, some, List, [],
  ◌∷◌, ◌++◌, Sign-cases, inl, inr,
}
use latte_c.Cmp.{CmpFunc, IsOrder}
use latte_c.Entries.{
  insert_entry, lookup_entry, is_new, lookup-cons, lookup-cons_same, lookup-append_left,
}
use latte_c.Avl.{AvlNode, null, node, avl_tree_put}
use latte_c.Avl.Flat.{IsFlat}
use latte_c.Avl.Plain.{plain_insert, absent, plain_insert-IsFlat, avl_node_insert-eq-plain}
use latte_c.Avl.Order.{
  entries, AllKeys, AllKeys-imp, Keys, IsOrdered, above_all, above_all_same, plain_insert-IsOrdered,
  entries-plain_insert,
}

module _ {ℓ κ} {K : Type ℓ} {V : Type κ} (cmp : CmpFunc K) where
  -- Entries that all miss the key are passed over.
  lookup-entries_miss :
      (key : K) (t : AvlNode K V) (ys : List (K × V))
      → AllKeys (λ x. sign (cmp key x) ≢ same) t
      → lookup_entry cmp key (entries t ++ ys) ≡ lookup_entry cmp key ys
  lookup-entries_miss key null ys a = refl
  lookup-entries_miss key (node l k v r h) ys a = rw (
    append_assoc (entries l) ((k, v) ∷ entries r) ys,
    lookup-entries_miss key l ((k, v) ∷ (entries r ++ ys)) a.0,
    lookup-cons cmp key k v (entries r ++ ys) a.1,
    lookup-entries_miss key r ys a.2,
  )

  module _ (o : IsOrder cmp) where
    below_all :
        (t : AvlNode K V) (k key : K)
        → Keys cmp above k t
        → sign (cmp key k) ≡ below
        → AllKeys (λ x. sign (cmp key x) ≢ same) t
    below_all t k key b e =
        AllKeys-imp (λ x p q. cc (q, o.below_trans key k x e (o.below_of_above x k p))) t b

    -- Insertion's way down ends at NULL exactly where no entry has the key.
    absent-eq-is_new :
        (t : AvlNode K V) (key : K)
        → IsOrdered cmp t
        → absent cmp t key ≡ is_new (lookup_entry cmp key (entries t))
    unfolding absent
    absent-eq-is_new null key s = unfold lookup_entry in refl
    absent-eq-is_new (node l k v r h) key s = elim (Sign-cases (sign (cmp key k))) [
      | inl e ↦
          rw
            (
              e,
              absent,
              lookup-append_left cmp key (entries l) ((k, v) ∷ entries r) (
                  lookup-cons cmp key k v (entries r) (λ q. cc (q, e))
                  ∙ lookup_none r (below_all r k key s.1 e)),
            )
            (absent-eq-is_new l key s.2)
      | inr (inl e) ↦ rw (
        e,
        absent,
        lookup-entries_miss key l ((k, v) ∷ entries r)
            (AllKeys-imp (λ x p q. cc (p, q)) l (above_all_same cmp o l k key s.0 e)),
        lookup-cons_same cmp key k v (entries r) e,
      )
      | inr (inr e) ↦
          rw
            (
              e,
              absent,
              lookup-entries_miss key l ((k, v) ∷ entries r)
                  (AllKeys-imp (λ x p q. cc (p, q)) l (above_all cmp o l k key s.0 e)),
              lookup-cons cmp key k v (entries r) (λ q. cc (q, e)),
            )
            (absent-eq-is_new r key s.3)
    ]
      where
        lookup_none :
            (t : AvlNode K V)
            → AllKeys (λ x. sign (cmp key x) ≢ same) t
            → lookup_entry cmp key (entries t) ≡ none
        lookup_none t a =
            rw (← append-nil (entries t))
              (lookup-entries_miss key t [] a ∙ unfold lookup_entry in refl)

    -- With a comparator that is a total order: on an ordered tree with stored heights of at most
    -- 1, avl_tree_put reads no field through NULL; it returns 1 for a key that no entry has and 0
    -- for one that is there; the entries of the new tree are those of the old with the pair
    -- inserted in its place (an equal key takes the value); and the new tree is ordered, with
    -- such heights.
    pub avl_tree_put_refines :
        (t : AvlNode K V) (key : K) (value : V)
        → IsFlat t
        → IsOrdered cmp t
        → (t' : AvlNode K V) × (avl_tree_put cmp t key value
            ≡ some (t', is_new (lookup_entry cmp key (entries t))))
          × (entries t' ≡ insert_entry cmp key value (entries t))
          × IsOrdered cmp t'
          × IsFlat t'
    unfolding avl_tree_put
    avl_tree_put_refines t key value f s = (
      plain_insert cmp t key value,
      rw (← absent-eq-is_new t key s) (avl_node_insert-eq-plain cmp t key value f),
      entries-plain_insert cmp o t key value s,
      plain_insert-IsOrdered cmp o t key value s,
      plain_insert-IsFlat cmp t key value f,
    )
