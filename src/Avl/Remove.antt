-- ===== src/Avl/Remove.antt =====
-- `avl_tree_remove`, whose way down mirrors the order of insertion.
use latte_c.Prelude.{ℕ, ◌≡◌, refl, sign, below, above, Option, none, some, Sign-cases, inl, inr}
use latte_c.Cmp.{CmpFunc}
use latte_c.Avl.{
  AvlNode, null, node, updated, delete_child_node, delete_one_child, delete_found,
  find_min_value_node, avl_tree_remove,
}
use latte_c.Avl.Flat.{IsFlat, updated-IsFlat, delete_fixup-eq-updated}
use latte_c.Avl.Order.{entries, AllKeys}

module _ {ℓ κ} {K : Type ℓ} {V : Type κ} where
  abbrev IsNode : AvlNode K V → Type 0
  IsNode null = ⊥
  IsNode (node l k v r h) = Unit

  find_min-IsNode : (t : AvlNode K V) → IsNode t → IsNode (find_min_value_node t)
  unfolding find_min_value_node
  find_min-IsNode null h = h
  find_min-IsNode (node null k v r h) n = tt
  find_min-IsNode (node (node ll lk lv lr lh) k v r h) n = find_min-IsNode (node ll lk lv lr lh) tt

  abbrev pub key_of : AvlNode K V → Option K
  key_of null = none
  key_of (node l k v r h) = some k

module _ {ℓ κ} {K : Type ℓ} {V : Type κ} (cmp : CmpFunc K) where
  -- A removal that ends: it reads no field through NULL and keeps the heights.
  abbrev Ends : AvlNode K V → K → Type (ℓ ⊔ κ)
  Ends t key =
      (t' : AvlNode K V) × (d : ℕ) × (delete_child_node cmp t key ≡ some (t', d)) × IsFlat t'

  delete_one_child_ends :
      (v : V) (t : AvlNode K V)
      → IsFlat t
      → (t' : AvlNode K V) × (d : ℕ) × (delete_one_child v t ≡ some (t', d)) × IsFlat t'
  unfolding delete_one_child
  delete_one_child_ends v null f = (null, 1, refl, tt)
  delete_one_child_ends v (node tl tk tv tr th) f = (
    updated tl tk v tr,
    1,
    rw (delete_fixup-eq-updated tl tk v tr f.0 f.1 th),
    updated-IsFlat tl tk v tr f.0 f.1,
  )

  delete_found_ends :
      (l : AvlNode K V) (v : V) (r temp : AvlNode K V) (remove : K → Option (AvlNode K V × ℕ))
      → IsFlat l
      → IsFlat r
      → (IsNode r → IsNode temp)
      → ((k : K) → (t' : AvlNode K V) × (d : ℕ) × (remove k ≡ some (t', d)) × IsFlat t')
      → (t' : AvlNode K V) × (d : ℕ) × (delete_found l v r temp remove ≡ some (t', d)) × IsFlat t'
  unfolding delete_found
  delete_found_ends null v r temp remove fl fr m ih = delete_one_child_ends v r fr
  delete_found_ends (node ll lk lv lr lh) v null temp remove fl fr m ih =
      delete_one_child_ends v (node ll lk lv lr lh) fl
  delete_found_ends (node ll lk lv lr lh) v (node rl rk rv rr rh) null remove fl fr m ih =
      absurd (m tt)
  delete_found_ends (node ll lk lv lr lh) v (node rl rk rv rr rh) (node ml least mv mr mh) remove fl
        fr m ih =
      let (r', d, e, f) = ih least in
      (
        updated (node ll lk lv lr lh) least v r',
        d,
        rw (e, delete_fixup-eq-updated (node ll lk lv lr lh) least v r' fl f 0),
        updated-IsFlat (node ll lk lv lr lh) least v r' fl f,
      )

  delete_child_node-Ends : (t : AvlNode K V) (key : K) → IsFlat t → Ends t key
  unfolding delete_child_node
  delete_child_node-Ends null key f = (null, 0, refl, tt)
  delete_child_node-Ends (node l k v r h) key f = elim (Sign-cases (sign (cmp key k))) [
    | inl e ↦
        let (r', d, q, g) = delete_child_node-Ends r key f.1 in
        (
          updated l k v r',
          d,
          rw (e, delete_child_node, q, delete_fixup-eq-updated l k v r' f.0 g h),
          updated-IsFlat l k v r' f.0 g,
        )
    | inr (inl e) ↦
        rw (e, delete_child_node)
          (delete_found_ends l v r (find_min_value_node r) (λ x. delete_child_node cmp r x) f.0 f.1
            (find_min-IsNode r) (λ x. delete_child_node-Ends r x f.1))
    | inr (inr e) ↦
        let (l', d, q, g) = delete_child_node-Ends l key f.0 in
        (
          updated l' k v r,
          d,
          rw (e, delete_child_node, q, delete_fixup-eq-updated l' k v r g f.1 h),
          updated-IsFlat l' k v r g f.1,
        )
  ]

  -- On a tree with stored heights of at most 1 avl_tree_remove always ends: it reads no field
  -- through NULL, and the new tree has such heights again.
  pub avl_tree_remove_total :
      (t : AvlNode K V) (key : K)
      → IsFlat t
      → (t' : AvlNode K V) × (d : ℕ) × (avl_tree_remove cmp t key ≡ some (t', d)) × IsFlat t'
  unfolding avl_tree_remove
  avl_tree_remove_total t key f = delete_child_node-Ends t key f

  -- A removal that finds nothing: it returns 0 and leaves the entries.
  abbrev pub Keeps : AvlNode K V → K → Type (ℓ ⊔ κ)
  Keeps t key =
      (t' : AvlNode K V) × (avl_tree_remove cmp t key ≡ some (t', 0))
      × (entries t' ≡ entries t)
      × IsFlat t'

  pub Keeps-in_left :
      (l : AvlNode K V) (k : K) (v : V) (r : AvlNode K V) (h : ℕ) (key : K)
      → sign (cmp key k) ≡ above
      → IsFlat r
      → Keeps l key
      → Keeps (node l k v r h) key
  unfolding avl_tree_remove delete_child_node
  Keeps-in_left l k v r h key e f (l', q, es, g) = (
    updated l' k v r,
    rw (e, delete_child_node, q, delete_fixup-eq-updated l' k v r g f h),
    rw es,
    updated-IsFlat l' k v r g f,
  )

  pub Keeps-in_right :
      (l : AvlNode K V) (k : K) (v : V) (r : AvlNode K V) (h : ℕ) (key : K)
      → sign (cmp key k) ≡ below
      → IsFlat l
      → Keeps r key
      → Keeps (node l k v r h) key
  unfolding avl_tree_remove delete_child_node
  Keeps-in_right l k v r h key e f (r', q, es, g) = (
    updated l k v r',
    rw (e, delete_child_node, q, delete_fixup-eq-updated l k v r' f g h),
    rw es,
    updated-IsFlat l k v r' f g,
  )

  Keeps-null : (key : K) → Keeps null key
  unfolding avl_tree_remove delete_child_node
  Keeps-null key = (null, refl, refl, tt)

  pub Keeps-above :
      (t : AvlNode K V) (key : K)
      → IsFlat t
      → AllKeys (λ x. sign (cmp key x) ≡ above) t
      → Keeps t key
  Keeps-above null key f a = Keeps-null key
  Keeps-above (node l k v r h) key f a =
      Keeps-in_left l k v r h key a.1 f.1 (Keeps-above l key f.0 a.0)

  pub Keeps-below :
      (t : AvlNode K V) (key : K)
      → IsFlat t
      → AllKeys (λ x. sign (cmp key x) ≡ below) t
      → Keeps t key
  Keeps-below null key f a = Keeps-null key
  Keeps-below (node l k v r h) key f a =
      Keeps-in_right l k v r h key a.1 f.0 (Keeps-below r key f.1 a.2)

  pub delete_found_both :
      (ll : AvlNode K V) (lk : K) (lv : V) (lr : AvlNode K V) (lh : ℕ) (v : V) (rl : AvlNode K V)
      (rk : K) (rv : V) (rr : AvlNode K V) (rh : ℕ) (temp : AvlNode K V)
      (remove : K → Option (AvlNode K V × ℕ)) {ml : AvlNode K V} {least : K} {mv : V}
      {mr : AvlNode K V} {mh : ℕ} {r' : AvlNode K V} {d : ℕ}
      → temp ≡ node ml least mv mr mh
      → remove least ≡ some (r', d)
      → IsFlat (node ll lk lv lr lh)
      → IsFlat r'
      → delete_found (node ll lk lv lr lh) v (node rl rk rv rr rh) temp remove
        ≡ some (updated (node ll lk lv lr lh) least v r', d)
  unfolding delete_found
  delete_found_both ll lk lv lr lh v rl rk rv rr rh temp remove {least = least} {r' = r'} e q fl
        fr =
      rw (e, delete_found, q, delete_fixup-eq-updated (node ll lk lv lr lh) least v r' fl fr 0)
