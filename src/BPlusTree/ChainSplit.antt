-- ===== src/BPlusTree/ChainSplit.antt =====
-- A split in b_plus_tree.c puts the new leaf behind the old one in the list of leaves.
use latte_c.Prelude.{
  ◌>>=◌, Yields, Yields-bind, Yields-any, ℕ, zero, suc, ◌+◌, ◌<◌, ◌≡◌, refl, sym, ◌∙◌, ltb, inl,
  inr, Option, some, List, [], ◌∷◌, ◌++◌, append_assoc, arith, Bool-cases, get_elem?, ◌/◌, take,
  drop,
}
use latte_c.BPlusTree.{
  BPlusNode, leaf, inner, Children, last, more, split_children, b_plus_tree_node_new,
  b_plus_tree_node_split, split_leaf, as_inner,
}
use latte_c.BPlusTree.Chain.{
  Leaf, leaves, child_leaves, first_address, IsLinked, Elsewhere, AreApart, AreOlder,
  AreOlder-later, Keeps, Keeps-later,
}

pub b_plus_tree_node_new-Yields {ℓ κ} :
    {A : Type ℓ} (order : ℕ) (a : A) (P : A → Type κ)
    → P a
    → Yields (b_plus_tree_node_new order a) P
unfolding b_plus_tree_node_new
b_plus_tree_node_new-Yields order a P h = elim (Bool-cases (ltb 1 order)) [
  | inl e ↦ rw (e, b_plus_tree_node_new) h
  | inr e ↦ rw (e, b_plus_tree_node_new) tt
]

module _ {ℓ κ} {K : Type ℓ} {V : Type κ} where
  module _ (id fresh : ℕ) (es es1 es2 : List (K × V)) (next : Option ℕ) where
    abbrev whole : Leaf K V
    whole = record { address = id; cells = es; next = next }

    abbrev left : Leaf K V
    left = record { address = id; cells = es1; next = some fresh }

    abbrev right : Leaf K V
    right = record { address = fresh; cells = es2; next = next }

    split-first :
        (b c : List (Leaf K V))
        → first_address (b ++ (left ∷ (right ∷ c))) ≡ first_address (b ++ (whole ∷ c))
    split-first [] c = refl
    split-first (l ∷ b) c = refl

    split-IsLinked :
        (b c : List (Leaf K V)) → IsLinked (b ++ (whole ∷ c)) → IsLinked (b ++ (left ∷ (right ∷ c)))
    split-IsLinked [] c h = (refl, h)
    split-IsLinked (l ∷ b) c h = (h.0 ∙ sym (split-first b c), split-IsLinked b c h.1)

    split-Elsewhere :
        (a : ℕ) (b c : List (Leaf K V))
        → a < fresh
        → Elsewhere a (b ++ (whole ∷ c))
        → Elsewhere a (b ++ (left ∷ (right ∷ c)))
    split-Elsewhere a [] c g h = (h.0, ((λ e. absurd (omega (arith, e))), h.1))
    split-Elsewhere a (l ∷ b) c g h = (h.0, split-Elsewhere a b c g h.1)

    -- A new address is elsewhere.
    new-Elsewhere : (ls : List (Leaf K V)) → AreOlder fresh ls → Elsewhere fresh ls
    new-Elsewhere [] h = tt
    new-Elsewhere (l ∷ ls) h = ((λ e. absurd (omega (arith, e))), new-Elsewhere ls h.1)

    split-AreApart :
        (b c : List (Leaf K V))
        → AreOlder fresh (b ++ (whole ∷ c))
        → AreApart (b ++ (whole ∷ c))
        → AreApart (b ++ (left ∷ (right ∷ c)))
    split-AreApart [] c o h = (((λ e. absurd (omega (arith, e))), h.0), (new-Elsewhere c o.1, h.1))
    split-AreApart (l ∷ b) c o h =
        (split-Elsewhere l.address b c o.0 h.0, split-AreApart b c o.1 h.1)

    split-AreOlder :
        (b c : List (Leaf K V))
        → AreOlder fresh (b ++ (whole ∷ c))
        → AreOlder (fresh + 1) (b ++ (left ∷ (right ∷ c)))
    split-AreOlder [] c h = (omega arith, (omega arith, AreOlder-later c fresh h.1))
    split-AreOlder (l ∷ b) c h = (omega arith, split-AreOlder b c h.1)

    Keeps-split : Keeps (whole ∷ []) fresh (left ∷ (right ∷ [])) (fresh + 1)
    Keeps-split b c w = record {
      linked = split-IsLinked b c w.linked;
      apart = split-AreApart b c w.older w.apart;
      older = split-AreOlder b c w.older;
    }

  -- The two halves of the children have their leaves.
  abbrev Parts : Children K V → Children K V × K × V × Children K V → Type (ℓ ⊔ κ)
  Parts cs (l, k, v, r) = child_leaves cs ≡ child_leaves l ++ child_leaves r

  split_children-Parts : (n : ℕ) (cs : Children K V) → Yields (split_children n cs) (Parts cs)
  unfolding split_children
  split_children-Parts n (last c) = tt
  split_children-Parts zero (more c j w cs) = refl
  split_children-Parts (suc n) (more c j w cs) =
      Yields-bind (split_children n cs) (λ (ds, k, v, es). some (more c j w ds, k, v, es))
        (Parts cs) (Parts (more c j w cs)) (split_children-Parts n cs) put
    where
      put :
          (t : Children K V × K × V × Children K V)
          → Parts cs t
          → Parts (more c j w cs) (more c j w t.0, t.1, t.2, t.3)
      put (l, k, v, r) e = rw e (sym (append_assoc (leaves c) (child_leaves l) (child_leaves r)))

  -- The nodes of a split, in place of the node.
  abbrev pub SplitKeeps : BPlusNode K V → ℕ → BPlusNode K V × K × V × BPlusNode K V → Type (ℓ ⊔ κ)
  SplitKeeps n fresh (l, k, v, r) = Keeps (leaves n) fresh (leaves l ++ leaves r) (fresh + 1)

  pub b_plus_tree_node_split-Keeps :
      (order fresh : ℕ) (n : BPlusNode K V)
      → Yields (b_plus_tree_node_split order fresh n) (SplitKeeps n fresh)
  unfolding b_plus_tree_node_split
  b_plus_tree_node_split-Keeps order fresh (leaf id es next) =
      Yields-bind (get_elem? es (order / 2))
        (λ e. b_plus_tree_node_new order (split_leaf order fresh id es next e)) (λ e. Unit {0})
        (SplitKeeps (leaf id es next) fresh) (Yields-any (get_elem? es (order / 2)))
        (λ e u.
          b_plus_tree_node_new-Yields order (split_leaf order fresh id es next e)
            (SplitKeeps (leaf id es next) fresh) (of_leaf e))
    where
      of_leaf :
          (e : K × V) → SplitKeeps (leaf id es next) fresh (split_leaf order fresh id es next e)
      of_leaf (k, v) =
          Keeps-split id fresh es (take ((order + 1) / 2) es)
            (take (order / 2) (drop ((order + 1) / 2) es)) next
  b_plus_tree_node_split-Keeps order fresh (inner cs) =
      Yields-bind (b_plus_tree_node_new order cs)
        (λ cs'. split_children (order / 2) cs' >>= as_inner) (λ cs'. cs ≡ cs')
        (SplitKeeps (inner cs) fresh) (b_plus_tree_node_new-Yields order cs (λ cs'. cs ≡ cs') refl)
        (λ cs' p. rw (sym p) (
          Yields-bind (split_children (order / 2) cs) as_inner (Parts cs)
            (SplitKeeps (inner cs) fresh) (split_children-Parts (order / 2) cs) of_parts))
    where
      of_parts :
          (t : Children K V × K × V × Children K V)
          → Parts cs t
          → Yields (as_inner t) (SplitKeeps (inner cs) fresh)
      of_parts (l, k, v, r) e = rw (sym e) (Keeps-later (child_leaves cs) fresh)
