-- ===== src/BPlusTree/Pointers.antt =====
-- private_b_plus_tree_find: what it finds, and the node that a store through its pointer leaves.
use latte_c.Prelude.{
  ◌>>=◌, ℕ, zero, suc, ◌≤◌, ◌<◌, ◌≡◌, ◌∙◌, Option, none, some, List, length, arith,
}
use latte_c.Cmp.{CmpFunc, IsOrder}
use latte_c.Entries.{insert_entry, IsAscending}
use latte_c.Entries.Ordered.{length-insert_entry}
use latte_c.BPlusTree.{BPlusNode, leaf, inner, Children, separators}
use latte_c.BPlusTree.Inserting.{slot}
use latte_c.BPlusTree.Finding.{Pointer, find_in_entries, in_leaf, through, private_b_plus_tree_find}
use latte_c.BPlusTree.Shape.{entries, HasHeads, Shaped}
use latte_c.BPlusTree.Find.{
  search_entries, shown, ListPoints, lookup-search_entries, find_in_entries_lem,
}
use latte_c.BPlusTree.Focus.{Overwritten, Focus, child_at_lem}

module _ {ℓ κ} {K : Type ℓ} {V : Type κ} (cmp : CmpFunc K) (o : IsOrder cmp) where
  module _ (order : ℕ) (key : K) where
    abbrev pub NodeStores : ℕ → BPlusNode K V → Option (Option (Pointer K V)) → Type (ℓ ⊔ κ)
    NodeStores d n none = Unit
    NodeStores d n (some none) = Unit
    NodeStores d n (some (some (v, store))) = (w : V) → Overwritten cmp o order key d w n (store w)

    abbrev pub Points : ℕ → BPlusNode K V → Option (Option (Pointer K V)) → Type (ℓ ⊔ κ)
    Points d n out = (search_entries cmp key (entries n) ≡ shown cmp out) × NodeStores d n out

    Points-in_leaf :
        (id : ℕ) (es : List (K × V)) (next : Option ℕ)
        → IsAscending cmp es
        → Shaped order (leaf id es next) 0
        → (out : Option (Option (V × (V → List (K × V))))) → ListPoints cmp key es out
        → Points 0 (leaf id es next) (out >>= in_leaf id next)
    Points-in_leaf id es next a s none p = p
    Points-in_leaf id es next a s (some none) p = p
    Points-in_leaf id es next a s (some (some (v, store))) p =
        (p.0, λ w. record { all = p.1 w; heads = tt; shape = rw (p.1 w) (same_length w) })
      where
        same_length :
            (w : V)
            → (0 < length (insert_entry cmp key w es))
              × (length (insert_entry cmp key w es) ≤ order)
        same_length w =
            rw (length-insert_entry cmp o key w es a, lookup-search_entries cmp key es v p.0)
              (omega arith)

    Points-through :
        (d : ℕ) (cs : Children K V) (c : BPlusNode K V) (put : BPlusNode K V → Children K V)
        → Focus cmp o order key d cs c put
        → length (separators cs) ≤ order
        → (out : Option (Option (Pointer K V))) → Points d c out
        → Points (suc d) (inner cs) (out >>= through put)
    Points-through d cs c put f room none p = (f.same_search ∙ p.0, tt)
    Points-through d cs c put f room (some none) p = (f.same_search ∙ p.0, tt)
    Points-through d cs c put f room (some (some (v, store))) p = (
      f.same_search ∙ p.0,
      λ w.
          let done = f.puts w (store w) (p.1 w) in
          record {
            all = done.all;
            heads = done.heads;
            shape = (omega (arith, done.lengths), done.shapes);
          },
    )

    -- With more fuel than the node has levels below it the search ends as one in the list of the
    -- entries does, and a store through the pointer is an insertion at the key.
    pub private_b_plus_tree_find_lem :
        (f : ℕ) (n : BPlusNode K V) (d : ℕ)
        → d < f
        → HasHeads n
        → IsAscending cmp (entries n)
        → Shaped order n d
        → Points d n (private_b_plus_tree_find cmp f n key)
    unfolding private_b_plus_tree_find
    private_b_plus_tree_find_lem zero n d g h a s = absurd (omega arith)
    private_b_plus_tree_find_lem (suc f) (leaf id es next) zero g h a s =
        Points-in_leaf id es next a s (find_in_entries cmp key es (slot cmp key es))
          (find_in_entries_lem cmp o key es a)
    private_b_plus_tree_find_lem (suc f) (leaf id es next) (suc d) g h a s = absurd s
    private_b_plus_tree_find_lem (suc f) (inner cs) zero g h a s = absurd s
    private_b_plus_tree_find_lem (suc f) (inner cs) (suc d) g h a s =
        let (c, put, eq, focus) = child_at_lem cmp o order key d cs h a s.1 in
        rw eq (
          Points-through d cs c put focus s.0 (private_b_plus_tree_find cmp f c key) (
            private_b_plus_tree_find_lem f c d (omega arith) focus.heads focus.ascending
              focus.shape))
