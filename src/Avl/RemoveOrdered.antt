-- ===== src/Avl/RemoveOrdered.antt =====
-- `avl_tree_remove` on trees in the order that insertion keeps.
use latte_c.Prelude.{
  ℕ, ◌≡◌, refl, ◌≢◌, sign, below, same, above, some, ◌∙◌, ◌∷◌, ◌++◌, Sign-cases, inl, inr,
}
use latte_c.Cmp.{CmpFunc, IsOrder}
use latte_c.Avl.{
  AvlNode, null, node, updated, delete_child_node, delete_one_child, delete_found,
  find_min_value_node, avl_tree_remove,
}
use latte_c.Avl.Flat.{IsFlat, delete_fixup-eq-updated}
use latte_c.Avl.Order.{entries, AllKeys, AllKeys-imp, Keys, IsOrdered, above_all}
use latte_c.Avl.Remove.{
  Keeps, Keeps-in_left, Keeps-in_right, Keeps-above, Keeps-below, delete_found_both, key_of,
}

module _ {ℓ κ} {K : Type ℓ} {V : Type κ} (cmp : CmpFunc K) where
  module _ (o : IsOrder cmp) where
    below_right :
        (t : AvlNode K V) (k key : K)
        → Keys cmp above k t
        → sign (cmp key k) ≡ below
        → AllKeys (λ x. sign (cmp key x) ≡ below) t
    below_right t k key b e =
        AllKeys-imp (λ x p. o.below_trans key k x e (o.below_of_above x k p)) t b

    -- With a comparator that is a total order: in an ordered tree with stored heights of at most
    -- 1, a key other than the root's is never removed, whether the tree holds it or not:
    -- avl_tree_remove returns 0, the entries stay, and the new tree has such heights.
    pub avl_tree_remove_other :
        (l : AvlNode K V) (k : K) (v : V) (r : AvlNode K V) (h : ℕ) (key : K)
        → IsFlat (node l k v r h)
        → IsOrdered cmp (node l k v r h)
        → sign (cmp key k) ≢ same
        → Keeps cmp (node l k v r h) key
    avl_tree_remove_other l k v r h key f s n = elim (Sign-cases (sign (cmp key k))) [
      | inl e ↦
          Keeps-in_right cmp l k v r h key e f.0
            (Keeps-below cmp r key f.1 (below_right r k key s.1 e))
      | inr (inl e) ↦ absurd (n e)
      | inr (inr e) ↦
          Keeps-in_left cmp l k v r h key e f.1
            (Keeps-above cmp l key f.0 (above_all cmp o l k key s.0 e))
    ]

    -- The root is removed, and its only child takes its place.
    remove_root :
        (l : AvlNode K V) (k : K) (v : V) (r : AvlNode K V) (h : ℕ)
        → avl_tree_remove cmp (node l k v r h) k
          ≡ delete_found l v r (find_min_value_node r) (λ least. delete_child_node cmp r least)
    unfolding avl_tree_remove delete_child_node
    remove_root l k v r h = rw (o.cmp_self k, delete_child_node)

    -- With a comparator that is a total order: in a tree whose root has no left child, and whose
    -- right subtree has stored heights of at most 1, the removal of the root's key returns 1 and
    -- leaves the right child's entries, but with the removed root's value under the child's own
    -- key.
    avl_tree_remove_root_one_child :
        (k : K) (v : V) (rl : AvlNode K V) (rk : K) (rv : V) (rr : AvlNode K V) (rh h : ℕ)
        → IsFlat (node rl rk rv rr rh)
        → (t' : AvlNode K V) × (avl_tree_remove cmp (node null k v (node rl rk rv rr rh) h) k
            ≡ some (t', 1))
          × (entries t' ≡ entries rl ++ (rk, v) ∷ entries rr)
    avl_tree_remove_root_one_child k v rl rk rv rr rh h f =
        (updated rl rk v rr, remove_root null k v (node rl rk rv rr rh) h ∙ found, refl)
      where
        found :
            delete_found null v
              (node rl rk rv rr rh)
              (find_min_value_node (node rl rk rv rr rh))
              (λ least. delete_child_node cmp (node rl rk rv rr rh) least)
            ≡ some (updated rl rk v rr, 1)
        found =
            unfold delete_found delete_one_child in
            rw (delete_fixup-eq-updated rl rk v rr f.0 f.1 rh)

    -- The least node of a tree, as the fields that are read of it.
    record Least (t : AvlNode K V) (P : K → Type 0) : Type (ℓ ⊔ κ) where
      left : AvlNode K V
      least : K
      value : V
      right : AvlNode K V
      height : ℕ
      found : find_min_value_node t ≡ node left least value right height
      holds : P least

    find_least :
        (l : AvlNode K V) (k : K) (v : V) (r : AvlNode K V) (h : ℕ) (P : K → Type 0)
        → AllKeys P (node l k v r h)
        → Least (node l k v r h) P
    unfolding find_min_value_node
    find_least null k v r h P a = record {
      left = null;
      least = k;
      value = v;
      right = r;
      height = h;
      found = refl;
      holds = a.1;
    }
    find_least (node ll lk lv lr lh) k v r h P a =
        let m = find_least ll lk lv lr lh P a.0 in
        record {
          left = m.left;
          least = m.least;
          value = m.value;
          right = m.right;
          height = m.height;
          found = m.found;
          holds = m.holds;
        }

    -- With a comparator that is a total order: in an ordered tree with stored heights of at most
    -- 1 whose root has a left child, and a right child with a left child, the removal of the
    -- root's key returns 0, the root's key is gone, the least key of the right subtree stands in
    -- its place with the root's value, and all of the right subtree's entries stay: that key is
    -- in the tree twice.
    pub avl_tree_remove_root_duplicates :
        (ll : AvlNode K V) (lk : K) (lv : V) (lr : AvlNode K V) (lh : ℕ) (k : K) (v : V)
        (al : AvlNode K V) (ak : K) (av : V) (ar : AvlNode K V) (ah : ℕ) (rk : K) (rv : V)
        (rr : AvlNode K V) (rh h : ℕ)
        → let l = node ll lk lv lr lh in
          let r = node (node al ak av ar ah) rk rv rr rh in
          IsFlat (node l k v r h)
          → IsOrdered cmp (node l k v r h)
          → (least : K) × (t' : AvlNode K V) × (key_of (find_min_value_node r) ≡ some least)
            × (avl_tree_remove cmp (node l k v r h) k ≡ some (t', 0))
            × (entries t' ≡ entries l ++ (least, v) ∷ entries r)
    unfolding avl_tree_remove
    avl_tree_remove_root_duplicates ll lk lv lr lh k v al ak av ar ah rk rv rr rh h f s =
        let r = node (node al ak av ar ah) rk rv rr rh in
        let m = find_least al ak av ar ah (λ x. sign (cmp x rk) ≡ below) s.3.0 in
        let temp_is : find_min_value_node r ≡ node m.left m.least m.value m.right m.height =
          unfold find_min_value_node in m.found in
        let (r', q, es, g) =
          avl_tree_remove_other (node al ak av ar ah) rk rv rr rh m.least f.1 s.3
            (λ z. cc (z, m.holds)) in
        (
          m.least,
          updated (node ll lk lv lr lh) m.least v r',
          rw temp_is,
          remove_root (node ll lk lv lr lh) k v r h
              ∙ delete_found_both cmp ll lk lv lr lh v (node al ak av ar ah) rk rv rr rh _ _ temp_is
                  q f.0 g,
          rw es,
        )
