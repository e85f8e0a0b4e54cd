-- ===== src/Set/AvlSet.antt =====
-- A set over an AVL tree: what its additions and its test for an element show.
mod Examples
use latte_c.Prelude.{
  ℕ, ◌≡◌, refl, ap, Option, none, some, sign, same, below, above, Sign-cases, inl, inr, ◌∙◌,
}
use latte_c.Cmp.{CmpFunc, IsOrder}
use latte_c.Entries.{insert_entry, lookup_entry, is_new}
use latte_c.Avl.{AvlNode, null, node, avl_tree_get}
use latte_c.Avl.Flat.{IsFlat}
use latte_c.Avl.Order.{entries, IsOrdered}
use latte_c.Avl.Put.{avl_tree_put_refines}
use latte_c.Avl.Search.{avl_tree_get-root_only, root_if_same}
use latte_c.Set.{
  SetNode, SetObject, set_add, set_contains, avl_set_add, avl_set_contains, avl_set_func,
}

module _ {ℓ} {K : Type ℓ} (cmp : CmpFunc K) where
  abbrev pub over : SetNode K → SetObject K (SetNode K)
  over t = record { type = avl_set_func cmp; contents = t }

  -- 1 where the tree's root has the key.
  abbrev pub is_root : SetNode K → K → ℕ
  is_root null key = 0
  is_root (node l k v r h) key = elim (sign (cmp k key)) [ same ↦ 1 | _ ↦ 0 ]

  module _ (o : IsOrder cmp) where
    set_contains-over :
        (t : SetNode K) (key : K) → IsOrdered cmp t → set_contains (over t) key ≡ is_root t key
    unfolding set_contains avl_set_contains
    set_contains-over t key s =
        ap (λ n. elim n [ null ↦ 0 | node l k v r h ↦ 1 ]) (avl_tree_get-root_only cmp o t key s)
        ∙ by_root t key
      where
        by_root :
            (t : SetNode K) (key : K)
            → (elim (root_if_same cmp t key) as (λ n. ℕ) [ null ↦ 0 | node l k v r h ↦ 1 ])
              ≡ is_root t key
        by_root null key = refl
        by_root (node l k v r h) key = elim (Sign-cases (sign (cmp k key))) [
          | inl e ↦ rw (e, is_root) refl
          | inr (inl e) ↦ rw (e, is_root) refl
          | inr (inr e) ↦ rw (e, is_root) refl
        ]

    -- With a comparator that is a total order: on a set over an ordered AVL tree with stored
    -- heights of at most 1, set_add reads nothing through NULL and returns 1 for a new element
    -- and 0 for one that is there; the tree then holds the old elements and the new one in their
    -- order; but set_contains returns 1 for the element at the root of that tree and 0 for every
    -- other, those that the set holds included.
    pub set_add-set_contains :
        (t : SetNode K) (key : K)
        → IsFlat t
        → IsOrdered cmp t
        → (t' : SetNode K) × (set_add (over t) key
            ≡ some (over t', is_new (lookup_entry cmp key (entries t))))
          × (entries t' ≡ insert_entry cmp key tt (entries t))
          × ((x : K) → set_contains (over t') x ≡ is_root t' x)
    unfolding set_add avl_set_add
    set_add-set_contains t key f s =
        let (t', e, all, ordered, flat) = avl_tree_put_refines cmp o t key tt f s in
        (t', rw e refl, all, λ x. set_contains-over t' x ordered)
