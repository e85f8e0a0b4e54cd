-- ===== src/BPlusTree/Refine.antt =====
-- b_plus_tree.c against a list of entries in ascending order: the API's functions on a valid tree.
use latte_c.Prelude.{
  ◌>>=◌, ℕ, suc, ◌+◌, ◌%◌, ◌≤◌, ◌<◌, ◌≡◌, ◌≢◌, refl, sym, ◌∙◌, Option, none, some, List, [], ◌∷◌,
  ◌==◌, ==_iff, arith, inl, inr, sign, below, Bool-cases, false, lt→ltb,
}
use latte_c.Cmp.{CmpFunc, IsOrder}
use latte_c.Entries.{Misses, insert_entry, IsAscending}
use latte_c.Entries.Ordered.{insert_entry-IsAscending}
use latte_c.BPlusTree.{
  BPlusNode, leaf, inner, last, more, BPlusTree, num_keys, height, b_plus_tree_node_new,
  b_plus_tree_new,
}
use latte_c.BPlusTree.Inserting.{
  slot, leaf_insert, b_plus_tree_node_insert, b_plus_tree_insert, insert_root,
}
use latte_c.BPlusTree.Finding.{Pointer, find_root, pointed, b_plus_tree_find}
use latte_c.BPlusTree.Shape.{entries, HasHeads, Shaped, height-Shaped, num_keys-Shaped}
use latte_c.BPlusTree.Split.{b_plus_tree_node_split_lem}
use latte_c.BPlusTree.Insert.{Ready, b_plus_tree_node_insert_lem}
use latte_c.BPlusTree.Find.{search_entries, shown}
use latte_c.BPlusTree.Pointers.{private_b_plus_tree_find_lem}

module _ {ℓ κ} {K : Type ℓ} {V : Type κ} where
  abbrev pub root_entries : Option (BPlusNode K V) → List (K × V)
  root_entries none = []
  root_entries (some root) = entries root

module _ {ℓ κ} {K : Type ℓ} {V : Type κ} (cmp : CmpFunc K) where
  -- The keys ascend, each separator is the first key on its right, no leaf is empty, no node has more
  -- than `order` keys, and all leaves are equally deep.
  pub record IsRoot (order : ℕ) (root : BPlusNode K V) : Type (ℓ ⊔ κ) where
    pub depth : ℕ
    pub heads : HasHeads root
    pub ascending : IsAscending cmp (entries root)
    pub shape : Shaped order root depth

  abbrev pub IsEmptyOrRoot : ℕ → Option (BPlusNode K V) → Type (ℓ ⊔ κ)
  IsEmptyOrRoot order none = Unit
  IsEmptyOrRoot order (some root) = IsRoot order root

  pub record IsValid (tree : BPlusTree K V) : Type (ℓ ⊔ κ) where
    pub even : tree.order % 2 ≡ 0
    pub big : 1 < tree.order
    pub well_formed : IsEmptyOrRoot tree.order tree.root

  -- A key that is not below the first of the entries.
  abbrev pub NotBelow : K → List (K × V) → Type 0
  NotBelow key [] = Unit
  NotBelow key ((k, v) ∷ es) = sign (cmp key k) ≢ below

  pub b_plus_tree_new-IsValid :
      (order fresh : ℕ)
      → order % 2 ≡ 0
      → 1 < order
      → IsValid (b_plus_tree_new order fresh)
        × (root_entries (b_plus_tree_new {K = K} {V = V} order fresh).root ≡ [])
  unfolding b_plus_tree_new
  b_plus_tree_new-IsValid order fresh even big =
      (record { even = even; big = big; well_formed = tt }, refl)

  module _ (o : IsOrder cmp) where
    -- A call on the root, of which there is room for one more key.
    insert_root_lem :
        (order : ℕ) (even : order % 2 ≡ 0) (big : 1 < order) (key : K) (value : V)
        (root : BPlusNode K V) (d fresh : ℕ)
        → Ready cmp o order even big key value d root
        → num_keys root < order
        → (tree : BPlusTree K V) × (insert_root cmp key value order fresh root ≡ some tree)
          × (root_entries tree.root ≡ insert_entry cmp key value (entries root))
          × IsValid tree
    insert_root_lem order even big key value root d fresh w room =
        let levels : d < height root = rw (height-Shaped order root d w.shape) (omega arith) in
        let (n, fresh', e, done) =
          b_plus_tree_node_insert_lem cmp o order even big key value (height root) root d fresh
            levels w room in
        (
          record { root = some n; order = order; fresh = fresh' },
          rw e refl,
          done.all,
          record {
            even = even;
            big = big;
            well_formed = record {
              depth = d;
              heads = done.heads;
              ascending =
                  rw done.all (insert_entry-IsAscending cmp o key value (entries root) w.ascending);
              shape = done.shape;
            };
          },
        )

    insert_empty_lem :
        (order fresh : ℕ)
        → order % 2 ≡ 0
        → 1 < order
        → (key : K) (value : V)
        → (tree : BPlusTree K V) × (b_plus_tree_insert cmp
              (record { root = none; order = order; fresh = fresh })
              key
              value
            ≡ some tree)
          × (root_entries tree.root ≡ insert_entry cmp key value [])
          × IsValid tree
    unfolding b_plus_tree_insert b_plus_tree_node_new b_plus_tree_node_insert leaf_insert slot
        height
    insert_empty_lem order fresh even big key value = (
      record {
        root = some (leaf fresh ((key, value) ∷ []) none);
        order = order;
        fresh = fresh + 1;
      },
      rw (lt→ltb 1 order big) refl,
      unfold insert_entry in refl,
      record {
        even = even;
        big = big;
        well_formed = record { depth = 0; heads = tt; ascending = (tt, tt); shape = omega arith };
      },
    )

    -- With a comparator that is a total order, on a valid B+ tree (of an even order of at least
    -- 2; the keys ascend, each separator is the first key on its right, no leaf is empty, no node
    -- has more keys than the order, and all leaves are equally deep): the insertion of a key that
    -- the tree does not hold ends, reads and writes inside the arrays (the printed traces apart),
    -- puts the pair in its place among the entries, and leaves a valid tree.
    pub b_plus_tree_insert_refines :
        (tree : BPlusTree K V) (key : K) (value : V)
        → IsValid tree
        → Misses cmp key (root_entries tree.root)
        → (tree' : BPlusTree K V) × (b_plus_tree_insert cmp tree key value ≡ some tree')
          × (root_entries tree'.root ≡ insert_entry cmp key value (root_entries tree.root))
          × IsValid tree'
    unfolding b_plus_tree_insert
    b_plus_tree_insert_refines tree key value w m =
        by_root tree.root tree.order tree.fresh w.even w.big w.well_formed m
      where
        not_full : (n order : ℕ) → (n == order) ≡ false → n ≤ order → n < order
        not_full n order e h = ground arith

        by_root :
            (root : Option (BPlusNode K V)) (order fresh : ℕ)
            → order % 2 ≡ 0
            → 1 < order
            → IsEmptyOrRoot order root
            → Misses cmp key (root_entries root)
            → (tree' : BPlusTree K V) × (b_plus_tree_insert cmp
                  (record { root = root; order = order; fresh = fresh })
                  key
                  value
                ≡ some tree')
              × (root_entries tree'.root ≡ insert_entry cmp key value (root_entries root))
              × IsValid tree'
        by_root none order fresh even big w m = insert_empty_lem order fresh even big key value
        by_root (some root) order fresh even big w m = elim (Bool-cases (num_keys root == order)) [
          | inl e ↦
              let (l, k, v, r, eq, s) =
                b_plus_tree_node_split_lem order fresh root w.depth even big
                  ((==_iff (num_keys root) order).0 e) w.heads w.shape in
              let ready : Ready cmp o order even big key value (suc w.depth)
                  (inner (more l k v (last r))) =
                record {
                  heads = (s.left_heads, s.head, s.right_heads);
                  ascending = rw s.all at w.ascending;
                  misses = rw s.all at m;
                  shape = (omega arith, (s.left_shape, s.right_shape));
                } in
              let (tree', eq', all, valid) =
                insert_root_lem order even big key value (inner (more l k v (last r))) (suc w.depth)
                  (fresh + 1) ready big in
              (tree', rw (e, b_plus_tree_insert, eq) eq', rw s.all all, valid)
          | inr e ↦
              let ready : Ready cmp o order even big key value w.depth root = record {
                heads = w.heads;
                ascending = w.ascending;
                misses = m;
                shape = w.shape;
              } in
              let (tree', eq', all, valid) =
                insert_root_lem order even big key value root w.depth fresh ready
                  (not_full (num_keys root) order e (num_keys-Shaped order root w.depth w.shape)) in
              (tree', rw (e, b_plus_tree_insert) eq', all, valid)
        ]

    -- The search from the root is one in the list of the entries; an empty tree is read through.
    pub find_root_lem :
        (order : ℕ) (root : Option (BPlusNode K V)) (key : K)
        → IsEmptyOrRoot order root
        → search_entries cmp key (root_entries root) ≡ shown cmp (find_root cmp root key)
    find_root_lem order none key w = unfold search_entries in refl
    find_root_lem order (some root) key w =
        (private_b_plus_tree_find_lem cmp o order key (height root) root w.depth
          (rw (height-Shaped order root w.depth w.shape) (omega arith)) w.heads w.ascending
          w.shape).0

    -- With a comparator that is a total order, in a valid B+ tree (of an even order of at least
    -- 2; the keys ascend, each separator is the first key on its right, no leaf is empty, no node
    -- has more keys than the order, and all leaves are equally deep) b_plus_tree_find gives the
    -- value of the key, or NULL; but for a key below all of the tree's, and in an empty tree, it
    -- reads outside an array or through NULL.
    pub b_plus_tree_find_lem :
        (tree : BPlusTree K V) (key : K)
        → IsValid tree
        → b_plus_tree_find cmp tree key ≡ search_entries cmp key (root_entries tree.root)
    unfolding b_plus_tree_find
    b_plus_tree_find_lem tree key w =
        by_out (find_root cmp tree.root key)
        ∙ sym (find_root_lem tree.order tree.root key w.well_formed)
      where
        by_out :
            (out : Option (Option (Pointer K V))) → (out >>= λ p. some (pointed p)) ≡ shown cmp out
        by_out none = refl
        by_out (some none) = refl
        by_out (some (some (v, store))) = refl
