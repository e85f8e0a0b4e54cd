-- ===== src/BPlusTree/Below.antt =====
-- private_b_plus_tree_find for a key below all of the tree's: the leaf that it comes to.
use latte_c.Prelude.{ℕ, ◌≡◌, refl, sym, ap, ◌∙◌, Option, none, some, List, ◌∷◌, sign, below}
use latte_c.Cmp.{CmpFunc, IsOrder}
use latte_c.Entries.{AllKeys, AllKeys-append_left}
use latte_c.BPlusTree.{
  BPlusNode, leaf, inner, Children, last, more, BPlusTree, separators, child_at,
}
use latte_c.BPlusTree.Inserting.{slot}
use latte_c.BPlusTree.Finding.{Pointer, find_root, b_plus_tree_find, b_plus_tree_insert_or_update}
use latte_c.BPlusTree.Shape.{entries, child_entries, HasHeads, HaveHeads}
use latte_c.BPlusTree.Sides.{slot-below, below_ascending, AllKeys-separators}
use latte_c.BPlusTree.Find.{search_entries, search_entries-cons_below, shown}
use latte_c.BPlusTree.Refine.{IsEmptyOrRoot, IsValid, find_root_lem}

module _ {ℓ κ} {K : Type ℓ} {V : Type κ} (cmp : CmpFunc K) (key : K) where
  -- The descent of a search from a node comes to a leaf with these entries.
  pub data Reaches : BPlusNode K V → List (K × V) → Type (ℓ ⊔ κ) where
    at_leaf : (id : ℕ) (es : List (K × V)) (next : Option ℕ) → Reaches (leaf id es next) es
    in_child :
        (cs : Children K V) (c : BPlusNode K V) (put : BPlusNode K V → Children K V)
        (es : List (K × V))
        → child_at (slot cmp key (separators cs)) cs ≡ some (c, put)
        → Reaches c es
        → Reaches (inner cs) es

  module _ (o : IsOrder cmp) where
    -- A leaf in which the loop over the keys stops at the index -1.
    mutual
      unfolding child_at

      Reaches-first :
          (n : BPlusNode K V)
          → HasHeads n
          → AllKeys (λ x. sign (cmp key x) ≡ below) (entries n)
          → (es : List (K × V)) × Reaches n es × (slot cmp key es ≡ 0)
      Reaches-first (leaf id es next) h a = (es, at_leaf id es next, slot-below cmp o key es a)
      Reaches-first (inner cs) h a =
          let (c, put, e, (es, r, z)) = first_child cs h a in
          (
            es,
            in_child cs c put es
                (rw (slot-below cmp o key (separators cs) (AllKeys-separators cmp o _ cs h a)) e) r,
            z,
          )

      first_child :
          (cs : Children K V)
          → HaveHeads cs
          → AllKeys (λ x. sign (cmp key x) ≡ below) (child_entries cs)
          → (c : BPlusNode K V) × (put : BPlusNode K V → Children K V) × (child_at 0 cs
              ≡ some (c, put))
            × ((es : List (K × V)) × Reaches c es × (slot cmp key es ≡ 0))
      first_child (last c) h a = (c, (λ d. last d), refl, Reaches-first c h a)
      first_child (more c k v cs) h a =
          let left = AllKeys-append_left cmp _ (entries c) (child_entries cs) a in
          (c, (λ d. more d k v cs), refl, Reaches-first c h.0 left)

    -- With a comparator that is a total order, on a non-empty valid B+ tree, for a key below the
    -- first: the search comes to a leaf in which its loop over the keys stops at the index -1,
    -- the cell in front of the array, which it then reads; so b_plus_tree_find and
    -- b_plus_tree_insert_or_update give no result.
    pub b_plus_tree_below_first :
        (tree : BPlusTree K V) (root : BPlusNode K V) (k : K) (v u : V) (rest : List (K × V))
        → IsValid cmp tree
        → tree.root ≡ some root
        → entries root ≡ (k, v) ∷ rest
        → sign (cmp key k) ≡ below
        → ((es : List (K × V)) × Reaches root es × (slot cmp key es ≡ 0))
          × (b_plus_tree_find cmp tree key ≡ none)
          × (b_plus_tree_insert_or_update cmp tree key u ≡ none)
    unfolding b_plus_tree_find b_plus_tree_insert_or_update
    b_plus_tree_below_first tree root k v u rest w e f b =
        let q : IsEmptyOrRoot cmp tree.order (some root) = rw e at w.well_formed in
        let all = below_ascending cmp o key k v rest (rw f at q.ascending) b in
        let bad : find_root cmp (some root) key ≡ none = invalid (find_root cmp (some root) key) (
          sym (find_root_lem cmp o tree.order (some root) key q)
          ∙ ap (search_entries cmp key) f
          ∙ search_entries-cons_below cmp key k v rest b) in
        (Reaches-first root q.heads (rw f all), rw (e, bad) refl, rw (e, bad) refl)
      where
        invalid : (out : Option (Option (Pointer K V))) → shown cmp out ≡ none → out ≡ none
        invalid none e = refl
        invalid (some none) e = absurd (cc e)
        invalid (some (some (v, store))) e = absurd (cc e)
