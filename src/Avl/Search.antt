-- ===== src/Avl/Search.antt =====
-- `avl_node_search` compares with the node's key first, and so mirrors the order of insertion.
use latte_c.Prelude.{◌≡◌, refl, sign, below, same, above, Sign-cases, inl, inr}
use latte_c.Cmp.{CmpFunc, IsOrder}
use latte_c.Avl.{AvlNode, null, node, avl_node_search, avl_tree_get}
use latte_c.Avl.Order.{AllKeys-imp, Keys, IsOrdered}

module _ {ℓ κ} {K : Type ℓ} {V : Type κ} (cmp : CmpFunc K) where
  search_below :
      (t : AvlNode K V) (key : K) → Keys cmp below key t → avl_node_search cmp t key ≡ null
  unfolding avl_node_search
  search_below null key a = refl
  search_below (node l k v r h) key a = rw (a.1, avl_node_search) (search_below l key a.0)

  search_above :
      (t : AvlNode K V) (key : K) → Keys cmp above key t → avl_node_search cmp t key ≡ null
  unfolding avl_node_search
  search_above null key a = refl
  search_above (node l k v r h) key a = rw (a.1, avl_node_search) (search_above r key a.2)

  -- The result of `avl_tree_get` in a tree with a root: the root or NULL.
  abbrev pub root_if_same : AvlNode K V → K → AvlNode K V
  root_if_same null key = null
  root_if_same (node l k v r h) key = elim (sign (cmp k key)) [
    | same ↦ node l k v r h
    | below ↦ null
    | above ↦ null
  ]

  module _ (o : IsOrder cmp) where
    -- With a comparator that is a total order: in an ordered tree avl_tree_get finds the root's
    -- key and no other: it returns the root where the key is the root's, and NULL for every other
    -- key, those that the tree holds below its root included.
    pub avl_tree_get-root_only :
        (t : AvlNode K V) (key : K) → IsOrdered cmp t → avl_tree_get cmp t key ≡ root_if_same t key
    unfolding avl_tree_get
    avl_tree_get-root_only null key s = refl
    avl_tree_get-root_only (node l k v r h) key s = elim (Sign-cases (sign (cmp k key))) [
      | inl e ↦
          rw (e, avl_node_search, root_if_same)
            (search_below l key (AllKeys-imp (λ x p. o.below_trans x k key p e) l s.0))
      | inr (inl e) ↦ rw (e, avl_node_search, root_if_same)
      | inr (inr e) ↦
          rw (e, avl_node_search, root_if_same)
            (search_above r key (
              AllKeys-imp
                (λ x p.
                  o.above_of_below key x
                    (o.below_trans key k x (o.below_of_above k key e) (o.below_of_above x k p)))
                r s.1))
    ]
