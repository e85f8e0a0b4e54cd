-- ===== src/Maple/Refine.antt =====
-- maple_tree.c against a list of entries in ascending order: the API's functions on a valid tree.
use latte_c.Prelude.{
  ℕ, ◌+◌, ◌%◌, ◌≡◌, refl, sign, Option, none, some, [], Sign-cases, inl, inr, length, arith,
}
use latte_c.Cmp.{CmpFunc, IsOrder}
use latte_c.Entries.{
  insert_entry, lookup_entry, remove_entry, is_new, is_old, IsAscending, IsAscending-Split,
}
use latte_c.Entries.Ordered.{
  insert_entry-IsAscending, remove_entry-IsAscending, lookup-below, lookup-above, lookup-same,
  length-insert_entry, length-remove_entry,
}
use latte_c.Maple.{
  MapleNode, null, node, MapleTree, maple_tree_put, maple_tree_get, maple_tree_remove,
  maple_tree_new, maple_tree_clear, maple_tree_size, get_from, entries, node_count, size_inc,
  size_dec,
}
use latte_c.Maple.Insert.{IsHeap, insert_node_lem, size_after_put}
use latte_c.Maple.Remove.{remove_node_lem, size_after_remove}

size_after_put_lem {ℓ} :
    {A : Type ℓ}
    → (v : Option A) (size n : ℕ) → size ≡ n % 18446744073709551616
    → size_after_put v size ≡ (n + is_new v) % 18446744073709551616
unfolding size_inc
size_after_put_lem none size n e = omega arith
size_after_put_lem (some v) size n e = omega arith

size_after_remove_lem {ℓ} :
    {A : Type ℓ}
    → (v : Option A) (size n m : ℕ) → size ≡ n % 18446744073709551616
    → m + is_old v ≡ n
    → size_after_remove v size ≡ m % 18446744073709551616
unfolding size_dec
size_after_remove_lem none size n m e q = omega arith
size_after_remove_lem (some v) size n m e q = omega arith

module _ {ℓ κ} {K : Type ℓ} {V : Type κ} (cmp : CmpFunc K) where
  -- The keys ascend from left to right, no node's priority is above its parent's, and `size` is the
  -- number of entries, as a `size_t` counts it.
  pub record IsTreap (tree : MapleTree K V) : Type 0 where
    pub ordered : IsAscending cmp (entries tree.root)
    pub heap : IsHeap tree.root
    pub counted : tree.size ≡ length (entries tree.root) % 18446744073709551616

  module _ (o : IsOrder cmp) where
    -- With a comparator that is a total order: on a treap (the keys ascend, no node's priority is
    -- above its parent's, and `size` is the number of entries as a size_t counts it)
    -- maple_tree_put returns, whatever priority rand() gives: 1 for a key that no entry has and 0
    -- for one that is there. The new tree is a treap, and its entries are those of the old with
    -- the pair inserted in its place (an equal key keeps its key and takes the value).
    pub maple_tree_put_refines :
        (priority : ℕ) (tree : MapleTree K V) (key : K) (value : V)
        → IsTreap tree
        → (tree' : MapleTree K V) × (maple_tree_put cmp priority tree key value
            ≡ some (tree', is_new (lookup_entry cmp key (entries tree.root))))
          × (entries tree'.root ≡ insert_entry cmp key value (entries tree.root))
          × IsTreap tree'
    unfolding maple_tree_put
    maple_tree_put_refines priority tree key value w =
        let es = entries tree.root in
        let (n, eq, settled, under) =
          insert_node_lem cmp o priority key value tree.root tree.size w.heap w.ordered in
        (
          record { root = n; size = size_after_put (lookup_entry cmp key es) tree.size },
          rw eq,
          settled.all,
          record {
            ordered = rw settled.all (insert_entry-IsAscending cmp o key value es w.ordered);
            heap = settled.heap;
            counted =
                rw (settled.all, length-insert_entry cmp o key value es w.ordered)
                  (size_after_put_lem (lookup_entry cmp key es) tree.size (length es) w.counted);
          },
        )

    -- With a comparator that is a total order: on a treap maple_tree_remove returns: 1 for a key
    -- that an entry has, 0 for any other. The new tree is a treap, and its entries are those of
    -- the old without the key's.
    pub maple_tree_remove_refines :
        (tree : MapleTree K V) (key : K)
        → IsTreap tree
        → (tree' : MapleTree K V) × (maple_tree_remove cmp tree key
            ≡ some (tree', is_old (lookup_entry cmp key (entries tree.root))))
          × (entries tree'.root ≡ remove_entry cmp key (entries tree.root))
          × IsTreap tree'
    unfolding maple_tree_remove
    maple_tree_remove_refines tree key w =
        let es = entries tree.root in
        let (n, eq, rem) =
          remove_node_lem cmp o (node_count tree.root + 1) key tree.root tree.size (omega arith)
            w.heap w.ordered in
        (
          record { root = n; size = size_after_remove (lookup_entry cmp key es) tree.size },
          rw eq,
          rem.all,
          record {
            ordered = rw rem.all (remove_entry-IsAscending cmp key es w.ordered);
            heap = rem.heap;
            counted = rw rem.all (
                size_after_remove_lem (lookup_entry cmp key es) tree.size (length es)
                  (length (remove_entry cmp key es)) w.counted (length-remove_entry cmp key es));
          },
        )

    get_from_lem :
        (key : K) (t : MapleNode K V)
        → IsAscending cmp (entries t)
        → get_from cmp key t ≡ lookup_entry cmp key (entries t)
    unfolding get_from
    get_from_lem key null s = unfold lookup_entry in refl
    get_from_lem key (node l k v r p) s =
        let split = IsAscending-Split cmp (entries l) k v (entries r) s in
        elim (Sign-cases (sign (cmp key k))) [
          | inl e ↦
              rw (e, get_from, lookup-below cmp o key (entries l) k v (entries r) split e)
                (get_from_lem key l split.left)
          | inr (inl e) ↦
              rw (e, get_from, lookup-same cmp o key (entries l) k v (entries r) split e)
          | inr (inr e) ↦
              rw (e, get_from, lookup-above cmp o key (entries l) k v (entries r) split e)
                (get_from_lem key r split.right)
        ]

    -- With a comparator that is a total order: on a treap maple_tree_get returns the value of the
    -- entry with the key, and NULL where there is none.
    pub maple_tree_get_lem :
        (tree : MapleTree K V) (key : K)
        → IsTreap tree
        → maple_tree_get cmp tree key ≡ lookup_entry cmp key (entries tree.root)
    unfolding maple_tree_get
    maple_tree_get_lem tree key w = get_from_lem key tree.root w.ordered

  -- A new tree and a cleared one are empty treaps of size 0.
  maple_tree_new-IsTreap :
      (tree : MapleTree K V)
      → IsTreap maple_tree_new
        × (entries (maple_tree_new {K = K} {V = V}).root ≡ [])
        × IsTreap (maple_tree_clear tree)
        × (entries (maple_tree_clear tree).root ≡ [])
        × (maple_tree_size (maple_tree_clear tree) ≡ 0)
  unfolding maple_tree_new maple_tree_clear maple_tree_size
  maple_tree_new-IsTreap tree = (
    record { ordered = tt; heap = tt; counted = omega arith },
    refl,
    record { ordered = tt; heap = tt; counted = omega arith },
    refl,
    refl,
  )
