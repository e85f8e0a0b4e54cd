-- ===== src/BPlusTree/ChainInsert.antt =====
-- Insertion in b_plus_tree.c keeps the list of leaves linked.
use latte_c.Prelude.{
  ◌>>=◌, Yields, Yields-bind, ℕ, zero, suc, ◌+◌, ◌≡◌, refl, sym, ◌==◌, inl, inr, Option, none, some,
  List, [], ◌++◌, append_assoc, append-nil, arith, Bool-cases, Sign-cases, sign,
}
use latte_c.Cmp.{CmpFunc}
use latte_c.BPlusTree.{
  BPlusNode, leaf, inner, Children, last, more, BPlusTree, join, splice, separators, num_keys,
  height, b_plus_tree_node_new, b_plus_tree_node_split,
}
use latte_c.BPlusTree.Inserting.{
  slot, leaf_insert, insert_child, insert_split, store_left, store_right, b_plus_tree_node_insert,
  with_root, new_root, insert_root, b_plus_tree_insert,
}
use latte_c.BPlusTree.Iterator.{root_leaves}
use latte_c.BPlusTree.Chain.{
  Leaf, leaves, child_leaves, IsChain, Keeps, Keeps-left, Keeps-right, Keeps-refilled,
}
use latte_c.BPlusTree.ChainSplit.{
  SplitKeeps, b_plus_tree_node_split-Keeps, b_plus_tree_node_new-Yields,
}

module _ {ℓ κ} {K : Type ℓ} {V : Type κ} where
  child_leaves-join :
      (cs : Children K V) (k : K) (v : V) (ds : Children K V)
      → child_leaves (join cs k v ds) ≡ child_leaves cs ++ child_leaves ds
  child_leaves-join (last c) k v ds = refl
  child_leaves-join (more c j w cs) k v ds =
      rw (child_leaves-join cs k v ds)
        (sym (append_assoc (leaves c) (child_leaves cs) (child_leaves ds)))

  -- The node, or the children, that a call leaves, in place of the leaves it began with.
  abbrev NodeKeeps : List (Leaf K V) → ℕ → BPlusNode K V × ℕ → Type (ℓ ⊔ κ)
  NodeKeeps ls fresh (n, fresh') = Keeps ls fresh (leaves n) fresh'

  abbrev ChildrenKeep : List (Leaf K V) → ℕ → Children K V × ℕ → Type (ℓ ⊔ κ)
  ChildrenKeep ls fresh (cs, fresh') = Keeps ls fresh (child_leaves cs) fresh'

  splice-Keeps :
      (i : ℕ) (cs : Children K V) (step : BPlusNode K V → Option (Children K V × ℕ)) (fresh : ℕ)
      → ((c : BPlusNode K V) → Yields (step c) (ChildrenKeep (leaves c) fresh))
      → Yields (splice i cs step) (ChildrenKeep (child_leaves cs) fresh)
  unfolding splice
  splice-Keeps zero (last c) step fresh h = h c
  splice-Keeps (suc i) (last c) step fresh h = tt
  splice-Keeps zero (more c k v cs) step fresh h =
      Yields-bind (step c) (λ (ds, fresh). some (join ds k v cs, fresh))
        (ChildrenKeep (leaves c) fresh) (ChildrenKeep (child_leaves (more c k v cs)) fresh) (h c)
        put
    where
      put :
          (t : Children K V × ℕ)
          → ChildrenKeep (leaves c) fresh t
          → ChildrenKeep (child_leaves (more c k v cs)) fresh (join t.0 k v cs, t.1)
      put (ds, fresh') g =
          rw (child_leaves-join ds k v cs)
            (Keeps-left (leaves c) (child_leaves ds) (child_leaves cs) fresh fresh' g)
  splice-Keeps (suc i) (more c k v cs) step fresh h =
      Yields-bind (splice i cs step) (λ (ds, fresh). some (more c k v ds, fresh))
        (ChildrenKeep (child_leaves cs) fresh) (ChildrenKeep (child_leaves (more c k v cs)) fresh)
        (splice-Keeps i cs step fresh h) put
    where
      put :
          (t : Children K V × ℕ)
          → ChildrenKeep (child_leaves cs) fresh t
          → ChildrenKeep (child_leaves (more c k v cs)) fresh (more c k v t.0, t.1)
      put (ds, fresh') g = Keeps-right (leaves c) (child_leaves cs) (child_leaves ds) fresh fresh' g

  -- The leaves of a tree are linked.
  abbrev pub IsLinkedTree : BPlusTree K V → Type (ℓ ⊔ κ)
  IsLinkedTree tree = IsChain (root_leaves tree.root) tree.fresh

  module _ (cmp : CmpFunc K) (order : ℕ) (key : K) (value : V) where
    abbrev InsertKeeps : (BPlusNode K V → ℕ → Option (BPlusNode K V × ℕ)) → Type (ℓ ⊔ κ)
    InsertKeeps insert =
        (n : BPlusNode K V) (fresh : ℕ) → Yields (insert n fresh) (NodeKeeps (leaves n) fresh)

    insert_split-Keeps :
        (insert : BPlusNode K V → ℕ → Option (BPlusNode K V × ℕ)) (fresh : ℕ) (c : BPlusNode K V)
        → InsertKeeps insert
        → (t : BPlusNode K V × K × V × BPlusNode K V) → SplitKeeps c fresh t
        → Yields (insert_split cmp order key value insert fresh t) (ChildrenKeep (leaves c) fresh)
    insert_split-Keeps insert fresh c h (l, k, v, r) s = elim (Sign-cases (sign (cmp key k))) [
      | inl e ↦ rw (e, insert_split) left
      | inr (inl e) ↦ rw (e, insert_split) left
      | inr (inr e) ↦
          rw (e, insert_split)
            (Yields-bind (insert r (fresh + 1)) (store_right cmp order key value l k v)
              (NodeKeeps (leaves r) (fresh + 1)) (ChildrenKeep (leaves c) fresh) (h r (fresh + 1))
              (λ t g b d w.
                Keeps-right (leaves l) (leaves r) (leaves t.0) (fresh + 1) t.1 g b d (s b d w)))
    ]
      where
        left :
            Yields
              (insert l (fresh + 1) >>= store_left cmp order key value k v r)
              (ChildrenKeep (leaves c) fresh)
        left =
            Yields-bind (insert l (fresh + 1)) (store_left cmp order key value k v r)
              (NodeKeeps (leaves l) (fresh + 1)) (ChildrenKeep (leaves c) fresh) (h l (fresh + 1))
              (λ t g b d w.
                Keeps-left (leaves l) (leaves t.0) (leaves r) (fresh + 1) t.1 g b d (s b d w))

    insert_child-Keeps :
        (insert : BPlusNode K V → ℕ → Option (BPlusNode K V × ℕ)) (fresh : ℕ) (c : BPlusNode K V)
        → InsertKeeps insert
        → Yields (insert_child cmp order key value insert fresh c) (ChildrenKeep (leaves c) fresh)
    insert_child-Keeps insert fresh c h = elim (Bool-cases (num_keys c == order)) [
      | inl e ↦
          rw (e, insert_child)
            (Yields-bind (b_plus_tree_node_split order fresh c)
              (λ t. insert_split cmp order key value insert fresh t) (SplitKeeps c fresh)
              (ChildrenKeep (leaves c) fresh) (b_plus_tree_node_split-Keeps order fresh c)
              (insert_split-Keeps insert fresh c h))
      | inr e ↦
          rw (e, insert_child)
            (Yields-bind (insert c fresh) (λ (d, fresh'). some (last d, fresh'))
              (NodeKeeps (leaves c) fresh) (ChildrenKeep (leaves c) fresh) (h c fresh) (λ t g. g))
    ]

    b_plus_tree_node_insert-Keeps :
        (f : ℕ) → InsertKeeps (λ n fresh. b_plus_tree_node_insert cmp order key value f n fresh)
    unfolding b_plus_tree_node_insert
    b_plus_tree_node_insert-Keeps zero n fresh = tt
    b_plus_tree_node_insert-Keeps (suc f) (leaf id es next) fresh =
        Keeps-refilled id es (leaf_insert cmp key value es) next fresh
    b_plus_tree_node_insert-Keeps (suc f) (inner cs) fresh =
        Yields-bind
          (splice (slot cmp key (separators cs)) cs (λ c.
            insert_child cmp order key value
              (λ d fresh'. b_plus_tree_node_insert cmp order key value f d fresh') fresh c))
          (λ (ds, fresh'). some (inner ds, fresh')) (ChildrenKeep (child_leaves cs) fresh)
          (NodeKeeps (child_leaves cs) fresh)
          (splice-Keeps (slot cmp key (separators cs)) cs
            (λ c.
              insert_child cmp order key value
                (λ d fresh'. b_plus_tree_node_insert cmp order key value f d fresh') fresh c)
            fresh
            (λ c.
              insert_child-Keeps
                (λ d fresh'. b_plus_tree_node_insert cmp order key value f d fresh') fresh c
                (b_plus_tree_node_insert-Keeps f)))
          (λ t g. g)

    alone : (ls : List (Leaf K V)) (fresh : ℕ) → IsChain (ls ++ []) fresh → IsChain ls fresh
    alone ls fresh w = rw (append-nil ls) at w

    insert_root-IsLinkedTree :
        (fresh : ℕ) (root : BPlusNode K V)
        → IsChain (leaves root) fresh
        → Yields (insert_root cmp key value order fresh root) IsLinkedTree
    insert_root-IsLinkedTree fresh root w =
        Yields-bind (b_plus_tree_node_insert cmp order key value (height root) root fresh)
          (with_root cmp order) (NodeKeeps (leaves root) fresh) IsLinkedTree
          (b_plus_tree_node_insert-Keeps (height root) root fresh)
          (λ t g. alone (leaves t.0) t.1 (g [] [] (rw (append-nil (leaves root)) w)))

    pub b_plus_tree_insert-IsLinkedTree :
        (root : Option (BPlusNode K V)) (fresh : ℕ)
        → IsChain (root_leaves root) fresh
        → Yields
            (b_plus_tree_insert cmp
              (record { root = root; order = order; fresh = fresh })
              key
              value)
            IsLinkedTree
    unfolding b_plus_tree_insert
    b_plus_tree_insert-IsLinkedTree none fresh w =
        Yields-bind (b_plus_tree_node_new order (leaf fresh [] none))
          (insert_root cmp key value order (fresh + 1)) (λ n. IsChain (leaves n) (fresh + 1))
          IsLinkedTree
          (b_plus_tree_node_new-Yields order (leaf fresh [] none)
            (λ n. IsChain (leaves n) (fresh + 1)) first)
          (λ n g. insert_root-IsLinkedTree (fresh + 1) n g)
      where
        first : IsChain {K = K} {V = V} (leaves (leaf fresh [] none)) (fresh + 1)
        first = record { linked = (refl, tt); apart = (tt, tt); older = (omega arith, tt) }
    b_plus_tree_insert-IsLinkedTree (some root) fresh w =
        elim (Bool-cases (num_keys root == order)) [
          | inl e ↦
              rw (e, b_plus_tree_insert)
                (Yields-bind (b_plus_tree_node_split order fresh root)
                  (λ s. insert_root cmp key value order (fresh + 1) (new_root cmp s))
                  (SplitKeeps root fresh) IsLinkedTree
                  (b_plus_tree_node_split-Keeps order fresh root)
                  (λ t g. insert_root-IsLinkedTree (fresh + 1) (new_root cmp t) (
                    alone (leaves t.0 ++ leaves t.3) (fresh + 1)
                      (g [] [] (rw (append-nil (leaves root)) w)))))
          | inr e ↦ rw (e, b_plus_tree_insert) (insert_root-IsLinkedTree fresh root w)
        ]
