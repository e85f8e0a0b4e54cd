-- ===== src/BPlusTree/Update.antt =====
-- b_plus_tree_update and b_plus_tree_insert_or_update against a list of entries in ascending order.
use latte_c.Prelude.{
  ℕ, ◌<◌, ◌%◌, ◌≡◌, ◌≢◌, refl, sym, ap, ◌∙◌, Option, none, some, List, [], ◌∷◌, length, arith, inl,
  inr, Sign-cases, sign, same,
}
use latte_c.Cmp.{CmpFunc, IsOrder}
use latte_c.Entries.{
  Misses, AllKeys-imp, insert_entry, lookup_entry, IsAscending, lookup-cons, lookup-cons_same,
  lookup-miss,
}
use latte_c.Entries.Ordered.{insert_entry-IsAscending}
use latte_c.BPlusTree.{BPlusNode, BPlusTree, height}
use latte_c.BPlusTree.Finding.{Pointer, find_root, b_plus_tree_update, b_plus_tree_insert_or_update}
use latte_c.BPlusTree.Shape.{entries, height-Shaped, entries-Shaped}
use latte_c.BPlusTree.Sides.{below_ascending}
use latte_c.BPlusTree.Find.{search_entries, search_entries-cons, shown}
use latte_c.BPlusTree.Pointers.{Points, private_b_plus_tree_find_lem}
use latte_c.BPlusTree.Refine.{
  root_entries, IsRoot, IsEmptyOrRoot, IsValid, NotBelow, b_plus_tree_insert_refines, find_root_lem,
}

module _ {ℓ κ} {K : Type ℓ} {V : Type κ} (cmp : CmpFunc K) (o : IsOrder cmp) where
  lookup_none-Misses :
      (key : K) (es : List (K × V)) → lookup_entry cmp key es ≡ none → Misses cmp key es
  lookup_none-Misses key [] e = tt
  lookup_none-Misses key ((k, v) ∷ es) e =
      let other : sign (cmp key k) ≢ same = λ q. cc (e, lookup-cons_same cmp key k v es q) in
      (other, lookup_none-Misses key es (sym (lookup-cons cmp key k v es other) ∙ e))

  search_entries-lookup :
      (key : K) (es : List (K × V)) (v : V)
      → IsAscending cmp es
      → lookup_entry cmp key es ≡ some v
      → search_entries cmp key es ≡ some (some v)
  unfolding lookup_entry
  search_entries-lookup key [] v a e = absurd (cc e)
  search_entries-lookup key ((k, u) ∷ es) v a e = elim (Sign-cases (sign (cmp key k))) [
    | inl q ↦ absurd (
        cc (
          e,
          lookup-miss cmp key ((k, u) ∷ es) (
              AllKeys-imp (λ x p r. cc (p, r)) ((k, u) ∷ es)
                (below_ascending cmp o key k u es a q)),
        ))
    | inr (inl q) ↦ search_entries-cons cmp key k u es (λ p. cc (p, q)) ∙ ap some e
    | inr (inr q) ↦ search_entries-cons cmp key k u es (λ p. cc (p, q)) ∙ ap some e
  ]

  search_entries-NotBelow :
      (key : K) (es : List (K × V))
      → 0 < length es
      → NotBelow cmp key es
      → search_entries cmp key es ≡ some (lookup_entry cmp key es)
  search_entries-NotBelow key [] h n = absurd (omega arith)
  search_entries-NotBelow key ((k, v) ∷ es) h n = search_entries-cons cmp key k v es n

  overwrite_root_lem :
      (order fresh : ℕ) (key : K) (root : BPlusNode K V) (w : IsRoot cmp order root) (u v : V)
      (out : Option (Option (Pointer K V)))
      → Points cmp o order key w.depth root out
      → search_entries cmp key (entries root) ≡ some (some v)
      → (p : Pointer K V) × (out ≡ some (some p))
        × (entries (p.1 u) ≡ insert_entry cmp key u (entries root))
        × IsRoot cmp order (p.1 u)
  overwrite_root_lem order fresh key root w u v none p e = absurd (cc (p.0, e))
  overwrite_root_lem order fresh key root w u v (some none) p e = absurd (cc (p.0, e))
  overwrite_root_lem order fresh key root w u v (some (some (x, store))) p e =
      let done = p.1 u in
      (
        (x, store),
        refl,
        done.all,
        record {
          depth = w.depth;
          heads = done.heads;
          ascending = rw done.all (insert_entry-IsAscending cmp o key u (entries root) w.ascending);
          shape = done.shape;
        },
      )

  -- What a store through the pointer to a key that is there leaves.
  found_lem :
      (order : ℕ) (key : K) (root : BPlusNode K V) (w : IsRoot cmp order root) (u v : V)
      → lookup_entry cmp key (entries root) ≡ some v
      → (p : Pointer K V) × (find_root cmp (some root) key ≡ some (some p))
        × (entries (p.1 u) ≡ insert_entry cmp key u (entries root))
        × IsRoot cmp order (p.1 u)
  found_lem order key root w u v e =
      overwrite_root_lem order 0 key root w u v (find_root cmp (some root) key)
        (private_b_plus_tree_find_lem cmp o order key (height root) root w.depth
          (rw (height-Shaped order root w.depth w.shape) (omega arith)) w.heads w.ascending w.shape)
        (search_entries-lookup key (entries root) v w.ascending e)

  -- With a comparator that is a total order, on a valid B+ tree (of an even order of at least 2;
  -- the keys ascend, each separator is the first key on its right, no leaf is empty, no node has
  -- more keys than the order, and all leaves are equally deep), b_plus_tree_update of a key that
  -- the tree holds gives the key's entry the value, leaves the others, and leaves a valid tree.
  pub b_plus_tree_update_refines :
      (tree : BPlusTree K V) (key : K) (u v : V)
      → IsValid cmp tree
      → lookup_entry cmp key (root_entries tree.root) ≡ some v
      → (tree' : BPlusTree K V) × (b_plus_tree_update cmp tree key u ≡ some tree')
        × (root_entries tree'.root ≡ insert_entry cmp key u (root_entries tree.root))
        × IsValid cmp tree'
  unfolding b_plus_tree_update
  b_plus_tree_update_refines tree key u v w e = by_root tree.root w.well_formed e
    where
      by_root :
          (root : Option (BPlusNode K V))
          → IsEmptyOrRoot cmp tree.order root
          → lookup_entry cmp key (root_entries root) ≡ some v
          → (tree' : BPlusTree K V) × (b_plus_tree_update cmp
                (record { root = root; order = tree.order; fresh = tree.fresh })
                key
                u
              ≡ some tree')
            × (root_entries tree'.root ≡ insert_entry cmp key u (root_entries root))
            × IsValid cmp tree'
      by_root none q e = absurd (cc (e, lookup-miss cmp key [] tt))
      by_root (some root) q e =
          let (p, eq, all, valid) = found_lem tree.order key root q u v e in
          (
            record { root = some (p.1 u); order = tree.order; fresh = tree.fresh },
            rw eq refl,
            all,
            record { even = w.even; big = w.big; well_formed = valid },
          )

  -- On a tree with a root, by whether the key is there.
  update_or_insert_lem :
      (root : BPlusNode K V) (order fresh : ℕ) (key : K) (u : V)
      → order % 2 ≡ 0
      → 1 < order
      → IsRoot cmp order root
      → NotBelow cmp key (entries root)
      → (out : Option V) → lookup_entry cmp key (entries root) ≡ out
      → (tree' : BPlusTree K V) × (b_plus_tree_insert_or_update cmp
            (record { root = some root; order = order; fresh = fresh })
            key
            u
          ≡ some tree')
        × (root_entries tree'.root ≡ insert_entry cmp key u (entries root))
        × IsValid cmp tree'
  unfolding b_plus_tree_insert_or_update
  update_or_insert_lem root order fresh key u even big w n (some v) e =
      let (p, eq, all, valid) = found_lem order key root w u v e in
      (
        record { root = some (p.1 u); order = order; fresh = fresh },
        rw eq refl,
        all,
        record { even = even; big = big; well_formed = valid },
      )
  update_or_insert_lem root order fresh key u even big w n none e =
      let missing : search_entries cmp key (entries root) ≡ some none =
        search_entries-NotBelow key (entries root) (entries-Shaped order root w.depth w.shape) n
        ∙ ap some e in
      let (tree', eq, all, valid) =
        b_plus_tree_insert_refines cmp o (record { root = some root; order = order; fresh = fresh })
          key u (record { even = even; big = big; well_formed = w })
          (lookup_none-Misses key (entries root) e) in
      (
        tree',
        rw
            (null_pointer (find_root cmp (some root) key)
              (sym (find_root_lem cmp o order (some root) key w) ∙ missing))
            eq,
        all,
        valid,
      )
    where
      null_pointer :
          (out : Option (Option (Pointer K V))) → shown cmp out ≡ some none → out ≡ some none
      null_pointer none e = absurd (cc e)
      null_pointer (some none) e = refl
      null_pointer (some (some (v, store))) e = absurd (cc e)

  -- With a comparator that is a total order, on a valid B+ tree (of an even order of at least 2;
  -- the keys ascend, each separator is the first key on its right, no leaf is empty, no node has
  -- more keys than the order, and all leaves are equally deep), for a key that is not below the
  -- first: b_plus_tree_insert_or_update ends, reads and writes inside the arrays (the printed
  -- traces apart), inserts the pair in its place or gives the key's entry the value, and leaves a
  -- valid tree.
  pub b_plus_tree_insert_or_update_refines :
      (tree : BPlusTree K V) (key : K) (u : V)
      → IsValid cmp tree
      → NotBelow cmp key (root_entries tree.root)
      → (tree' : BPlusTree K V) × (b_plus_tree_insert_or_update cmp tree key u ≡ some tree')
        × (root_entries tree'.root ≡ insert_entry cmp key u (root_entries tree.root))
        × IsValid cmp tree'
  b_plus_tree_insert_or_update_refines tree key u w n =
      by_root tree.root tree.order tree.fresh w.even w.big w.well_formed n
    where
      by_root :
          (root : Option (BPlusNode K V)) (order fresh : ℕ)
          → order % 2 ≡ 0
          → 1 < order
          → IsEmptyOrRoot cmp order root
          → NotBelow cmp key (root_entries root)
          → (tree' : BPlusTree K V) × (b_plus_tree_insert_or_update cmp
                (record { root = root; order = order; fresh = fresh })
                key
                u
              ≡ some tree')
            × (root_entries tree'.root ≡ insert_entry cmp key u (root_entries root))
            × IsValid cmp tree'
      by_root none order fresh even big q n =
          unfold b_plus_tree_insert_or_update in
          b_plus_tree_insert_refines cmp o (record { root = none; order = order; fresh = fresh })
            key u (record { even = even; big = big; well_formed = tt }) tt
      by_root (some root) order fresh even big q n =
          update_or_insert_lem root order fresh key u even big q n
            (lookup_entry cmp key (entries root)) refl
