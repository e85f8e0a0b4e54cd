-- ===== src/BPlusTree/Removing/Refine.antt =====
-- b_plus_tree_remove against a list of entries in ascending order.
use latte_c.Prelude.{
  ℕ, zero, suc, ◌/◌, ◌<◌, ◌==◌, ◌≡◌, ◌⊎◌, refl, sym, ap, Option, none, some, List, [], ◌∷◌, length,
  arith, ◌>>=◌, Bool, true, false, Bool-cases, ltb, ltb→lt, if◌then◌else◌, inl, inr,
}
use mathlib.Core.Path.{subst}
use latte_c.Cmp.{CmpFunc, IsOrder}
use latte_c.Entries.{Misses, remove_entry, remove-miss, IsAscending}
use latte_c.Entries.Ordered.{remove_entry-IsAscending}
use latte_c.BPlusTree.{
  BPlusNode, leaf, inner, Children, last, more, BPlusTree, height, first_height,
}
use latte_c.BPlusTree.Removing.{
  TreeNodeInfo, put_back, kept, after_leaf, with_children, with_root, remove_at, remove_root,
  b_plus_tree_find_leaf, b_plus_tree_remove,
}
use latte_c.BPlusTree.Shape.{entries}
use latte_c.BPlusTree.Refine.{root_entries, IsRoot}
use latte_c.BPlusTree.Removing.Parted.{
  AllDeep, Deep, IsParted, ChildrenRemoved, HasHeads-IsParted, Shaped-Deep,
}
use latte_c.BPlusTree.Removing.Cells.{Shrunk, b_plus_tree_leaf_node_remove_lem}
use latte_c.BPlusTree.Removing.Adjust.{kept_lem, balance_lem}
use latte_c.BPlusTree.Removing.Descend.{LastOther-snoc, Removable, Reached, find_leaf_lem}

module _ {ℓ κ} {K : Type ℓ} {V : Type κ} where
  mutual
    unfolding height

    height-Deep : (n : BPlusNode K V) (d : ℕ) → Deep n d → height n ≡ suc d
    height-Deep (leaf id es next) zero h = refl
    height-Deep (leaf id es next) (suc d) h = absurd h
    height-Deep (inner cs) zero h = absurd h
    height-Deep (inner cs) (suc d) h = ap suc (first_height-Deep cs d h)

    first_height-Deep : (cs : Children K V) (d : ℕ) → AllDeep cs d → first_height cs ≡ suc d
    first_height-Deep (last c) d h = height-Deep c d h
    first_height-Deep (more c k v cs) d h = height-Deep c d h.0

module _ {ℓ κ} {K : Type ℓ} {V : Type κ} (cmp : CmpFunc K) where
  -- The keys ascend, separators part them, and all leaves are equally deep.
  pub record IsPartedRoot (root : BPlusNode K V) : Type (ℓ ⊔ κ) where
    pub depth : ℕ
    pub parted : IsParted cmp root
    pub ascending : IsAscending cmp (entries root)
    pub deep : Deep root depth

  abbrev pub IsEmptyOrParted : Option (BPlusNode K V) → Type (ℓ ⊔ κ)
  IsEmptyOrParted none = Unit
  IsEmptyOrParted (some root) = IsPartedRoot root

  -- What b_plus_tree_remove returns and leaves of a tree.
  pub record Removal (key : K) (tree : BPlusTree K V) (out : Option (Bool × BPlusTree K V))
      : Type (ℓ ⊔ κ) where
    pub found : Bool
    pub result : BPlusTree K V
    pub returned : out ≡ some (found, result)
    pub all : root_entries result.root ≡ remove_entry cmp key (root_entries tree.root)
    pub parted : IsEmptyOrParted result.root
    pub reported :
        ((found ≡ true) × (Misses cmp key (root_entries tree.root) → ⊥))
        ⊎ ((found ≡ false) × Misses cmp key (root_entries tree.root) × (result ≡ tree))

  module _ (o : IsOrder cmp) where
    -- Insertions leave such trees.
    pub IsRoot-IsPartedRoot :
        (order : ℕ) (root : BPlusNode K V) → IsRoot cmp order root → IsPartedRoot root
    IsRoot-IsPartedRoot order root w = record {
      depth = w.depth;
      parted = HasHeads-IsParted cmp o root w.heads w.ascending;
      ascending = w.ascending;
      deep = Shaped-Deep order root w.depth w.shape;
    }

  module _ (o : IsOrder cmp) (key : K) where
    -- A leaf has lost the key: the new root.
    record Rooted (root : BPlusNode K V) (out : Option (Option (BPlusNode K V)))
        : Type (ℓ ⊔ κ) where
      root' : Option (BPlusNode K V)
      returned : out ≡ some root'
      all : root_entries root' ≡ remove_entry cmp key (entries root)
      parted : IsEmptyOrParted root'

    root_leaf_lem :
        (order id : ℕ) (es cells : List (K × V)) (next : Option ℕ)
        → IsAscending cmp es
        → Shrunk cmp key es cells
        → Rooted (leaf id es next) (after_leaf order [] (id, cells, next))
    root_leaf_lem order id es cells next a h =
        by_kept (kept cells) (kept_lem cmp o key order (last (leaf id es next)) id es cells next h)
      where
        by_kept :
            (xs : List (K × V))
            → xs ≡ remove_entry cmp key es
            → Rooted
                (leaf id es next)
                (some (if length xs == 0 then none else some (leaf id xs next)))
        by_kept [] e = record { root' = none; returned = refl; all = e; parted = tt }
        by_kept (x ∷ xs) e = record {
          root' = some (leaf id (x ∷ xs) next);
          returned = (let n : (length (x ∷ xs) == 0) ≡ false = ground arith in rw n refl);
          all = e;
          parted = record {
            depth = 0;
            parted = tt;
            ascending =
                subst (λ t. IsAscending cmp t) (sym e) (remove_entry-IsAscending cmp key es a);
            deep = tt;
          };
        }

    -- What a change to the children of the leaf's parent makes of the root.
    rebuilt_lem :
        (order d : ℕ) (root : BPlusNode K V) (i : ℕ) (cs : Children K V)
        (st : List (TreeNodeInfo K V)) (id : ℕ) (es : List (K × V)) (next : Option ℕ)
        → IsAscending cmp (entries root)
        → Reached cmp key o d root [] i cs st id es next
        → (ds : Children K V) → ChildrenRemoved cmp key 0 cs ds
        → Rooted root (with_children order st ds)
    unfolding put_back
    rebuilt_lem order d root i cs st id es next a x ds r =
        let (n, e, done) = x.rebuilds ds r in
        record {
          root' = some n;
          returned = rw e refl;
          all = done.all;
          parted = record {
            depth = d;
            parted = done.parted;
            ascending = rw (done.all) (remove_entry-IsAscending cmp key (entries root) a);
            deep = done.deep;
          };
        }

    after_leaf_lem :
        (order d : ℕ) (root : BPlusNode K V) (i : ℕ) (cs : Children K V)
        (st : List (TreeNodeInfo K V)) (id : ℕ) (es cells : List (K × V)) (next : Option ℕ)
        → IsAscending cmp (entries root)
        → Reached cmp key o d root [] i cs st id es next
        → Shrunk cmp key es cells
        → Rooted root (after_leaf order ((i, cs) ∷ st) (id, cells, next))
    unfolding put_back
    after_leaf_lem order d root i cs st id es cells next a x h =
        let gone = kept_lem cmp o key order cs id es cells next h in
        elim (Bool-cases (ltb (length (kept cells)) (order / 2))) [
          | inl few ↦
              let other = LastOther-snoc cmp key h.rest h.last (rw h.old at x.other) in
              let (ds, e, r) =
                balance_lem cmp o key order cs id es cells next h st x.parted x.deep x.ascending
                  (ltb→lt (length (kept cells)) (order / 2) few) x.pair other x.put i x.is_slot
                  x.at in
              rw (few, e) (rebuilt_lem order d root i cs st id es next a x ds r)
          | inr many ↦
              let r =
                x.focus.puts (leaf id (kept cells) next)
                  (record { all = gone; parted = tt; deep = tt }) in
              rw (many, x.at)
                (rebuilt_lem order d root i cs st id es next a x (x.put (leaf id (kept cells) next))
                  r)
        ]

    -- From the leaf that was found.
    remove_at_lem :
        (tree : BPlusTree K V) (root : BPlusNode K V) (stack : List (TreeNodeInfo K V)) (id : ℕ)
        (es : List (K × V)) (next : Option ℕ)
        → tree.root ≡ some root
        → IsPartedRoot root
        → (Misses cmp key es → Misses cmp key (entries root))
        → (Misses cmp key (entries root) → Misses cmp key es)
        → ((cells : List (K × V))
            → Shrunk cmp key es cells
            → Rooted root (after_leaf tree.order stack (id, cells, next)))
        → Removal key tree (remove_at cmp tree key (stack, (id, es, next)))
    remove_at_lem tree root stack id es next e w misses shows after =
        let entries_are : root_entries tree.root ≡ entries root =
          ap (λ (r : Option (BPlusNode K V)). root_entries r) e in
        elim (b_plus_tree_leaf_node_remove_lem cmp key es) [
          | inl (q, m) ↦
              let none_there : Misses cmp key (root_entries tree.root) =
                rw entries_are (misses m) in
              record {
                found = false;
                result = tree;
                returned = rw (remove_at, q) refl;
                all = sym (remove-miss cmp key (root_entries tree.root) none_there);
                parted = subst (λ r. IsEmptyOrParted r) (sym e) w;
                reported = inr (refl, none_there, refl);
              }
          | inr (cells, q, h) ↦
              let r = after cells h in
              record {
                found = true;
                result = with_root tree r.root';
                returned = rw (remove_at, q, r.returned) refl;
                all = rw entries_are (r.all);
                parted = r.parted;
                reported = inl (refl, (λ m. h.present (shows (rw entries_are at m))));
              }
        ]

    find_root_leaf :
        (tree : BPlusTree K V) (root : BPlusNode K V) (d : ℕ)
        → tree.root ≡ some root
        → IsParted cmp root
        → Deep root d
        → IsAscending cmp (entries root)
        → Removable cmp key root
        → Removal key tree
            (b_plus_tree_find_leaf cmp (height root) [] root key >>= remove_at cmp tree key)
    unfolding b_plus_tree_find_leaf height
    find_root_leaf tree (leaf id es next) zero e p s a r =
        remove_at_lem tree (leaf id es next) [] id es next e
          (record { depth = 0; parted = p; ascending = a; deep = s }) (λ m. m) (λ m. m)
          (λ cells h. root_leaf_lem tree.order id es cells next a h)
    find_root_leaf tree (leaf id es next) (suc d) e p s a r = absurd s
    find_root_leaf tree (inner cs) zero e p s a r = absurd s
    find_root_leaf tree (inner cs) (suc d) e p s a r =
        let levels : d < first_height cs = rw (first_height-Deep cs d s) (omega arith) in
        let (i, ps, st, id, es, next, found, x) =
          find_leaf_lem cmp key o d (first_height cs) cs [] levels p s a r in
        rw found (
          remove_at_lem tree (inner cs) ((i, ps) ∷ st) id es next e
            (record { depth = suc d; parted = p; ascending = a; deep = s }) x.misses x.shows
            (λ cells h.
              after_leaf_lem tree.order (suc d) (inner cs) i ps st id es cells next a x h))

    -- With a comparator that is a total order, on a B+ tree whose keys ascend, whose separators
    -- part the keys and whose leaves are equally deep, where every inner node has a separator,
    -- and for a key that is not the last one of a leaf: b_plus_tree_remove ends, reads nothing
    -- through NULL, merges no more keys than a leaf has room for, and leaves such a tree (an
    -- inner node of it may be without separators), or none; its entries are the old ones without
    -- the key's. It returns true where the tree holds the key; where it does not, it returns
    -- false and changes nothing.
    pub b_plus_tree_remove_refines :
        (tree : BPlusTree K V) (root : BPlusNode K V)
        → tree.root ≡ some root
        → IsPartedRoot root
        → Removable cmp key root
        → Removal key tree (b_plus_tree_remove cmp tree key)
    unfolding b_plus_tree_remove
    b_plus_tree_remove_refines tree root e w r =
        subst (λ out. Removal key tree out)
          (sym (ap (λ (t : Option (BPlusNode K V)). remove_root cmp tree t key) e))
          (find_root_leaf tree root w.depth e w.parted w.deep w.ascending r)
