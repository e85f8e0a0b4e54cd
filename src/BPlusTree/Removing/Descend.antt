-- ===== src/BPlusTree/Removing/Descend.antt =====
-- b_plus_tree_find_leaf: the leaf and its parent, and what a change to the parent's children makes of
-- the whole tree.
use latte_c.Prelude.{
  ℕ, zero, suc, ◌<◌, ◌≡◌, ◌≢◌, refl, ◌∙◌, Option, none, some, List, [], ◌∷◌, ◌++◌, length, arith,
  sign, same, ◌>>=◌,
}
use mathlib.Core.Path.{subst}
use latte_c.Cmp.{CmpFunc, IsOrder}
use latte_c.Entries.{Misses, IsAscending}
use latte_c.BPlusTree.{BPlusNode, leaf, inner, Children, last, more, separators, child_at}
use latte_c.BPlusTree.Inserting.{slot}
use latte_c.BPlusTree.Removing.{TreeNodeInfo, put_back, b_plus_tree_find_leaf}
use latte_c.BPlusTree.Shape.{entries, child_entries}
use latte_c.BPlusTree.Removing.Parted.{AllDeep, AreParted, Removed, ChildrenRemoved}
use latte_c.BPlusTree.Removing.Focus.{Focus, focus_lem, found_node}

module _ {ℓ κ} {K : Type ℓ} {V : Type κ} (cmp : CmpFunc K) (key : K) where
  -- The last entry has another key.
  abbrev pub LastOther : List (K × V) → Type 0
  LastOther [] = Unit
  LastOther (e ∷ []) = sign (cmp key e.0) ≢ same
  LastOther (e ∷ f ∷ es) = LastOther (f ∷ es)

  -- Inner nodes have separators, and the key is not the last one of a leaf.
  abbrev mutual
    pub Removable : BPlusNode K V → Type 0
    Removable (leaf id es next) = LastOther es
    Removable (inner cs) = (0 < length (separators cs)) × EachRemovable cs

    pub EachRemovable : Children K V → Type 0
    EachRemovable (last c) = Removable c
    EachRemovable (more c k v cs) = Removable c × EachRemovable cs

  pub LastOther-snoc :
      (xs : List (K × V)) (e : K × V) → LastOther (xs ++ e ∷ []) → sign (cmp key e.0) ≢ same
  LastOther-snoc [] e h = h
  LastOther-snoc (x ∷ []) e h = h
  LastOther-snoc (x ∷ y ∷ xs) e h = LastOther-snoc (y ∷ xs) e h

  -- The child that is found is among them.
  child_at-Removable :
      (i : ℕ) (cs : Children K V) (x : BPlusNode K V × (BPlusNode K V → Children K V))
      → EachRemovable cs
      → child_at i cs ≡ some x
      → Removable x.0
  unfolding child_at
  child_at-Removable zero (last c) x h e =
      subst (λ n. Removable n) (found_node (c, λ d. last d) x e) h
  child_at-Removable (suc i) (last c) x h e = absurd (cc e)
  child_at-Removable zero (more c k v cs) x h e =
      subst (λ n. Removable n) (found_node (c, λ d. more d k v cs) x e) h.0
  child_at-Removable (suc i) (more c k v cs) x h e =
      later (child_at i cs) e (λ y f. child_at-Removable i cs y h.1 f)
    where
      later :
          (out : Option (BPlusNode K V × (BPlusNode K V → Children K V)))
          → (out >>= λ (d, put). some (d, λ e. more c k v (put e))) ≡ some x
          → ((y : BPlusNode K V × (BPlusNode K V → Children K V)) → out ≡ some y → Removable y.0)
          → Removable x.0
      later none e h = absurd (cc e)
      later (some y) e h =
          subst (λ n. Removable n) (found_node (y.0, λ d. more c k v (y.1 d)) x e) (h y refl)

  module _ (o : IsOrder cmp) where
    -- The leaf's parent, and the stack above it, where the search began at `n` with a stack.
    pub record Reached (d : ℕ) (n : BPlusNode K V) (stack : List (TreeNodeInfo K V)) (i : ℕ)
        (cs : Children K V) (above_parent : List (TreeNodeInfo K V)) (id : ℕ) (es : List (K × V))
        (next : Option ℕ) : Type (ℓ ⊔ κ) where
      pub put : BPlusNode K V → Children K V
      pub at : child_at i cs ≡ some (leaf id es next, put)
      pub is_slot : slot cmp key (separators cs) ≡ i
      pub parted : AreParted cmp cs
      pub deep : AllDeep cs 0
      pub ascending : IsAscending cmp (child_entries cs)
      pub pair : 0 < length (separators cs)
      pub other : LastOther es
      pub focus : Focus cmp o key 0 cs (leaf id es next) put
      pub misses : Misses cmp key es → Misses cmp key (entries n)
      pub shows : Misses cmp key (entries n) → Misses cmp key es
      pub rebuilds :
          (ds : Children K V)
          → ChildrenRemoved cmp key 0 cs ds
          → (n' : BPlusNode K V) × (put_back (inner ds) above_parent ≡ put_back n' stack)
            × Removed cmp key d n n'

    abbrev pub Arrives : ℕ → ℕ → Children K V → List (TreeNodeInfo K V) → Type (ℓ ⊔ κ)
    Arrives d f cs stack =
        (i : ℕ) × (ps : Children K V) × (above_parent : List (TreeNodeInfo K V)) × (id : ℕ)
        × (es : List (K × V)) × (next : Option ℕ) × (b_plus_tree_find_leaf cmp (suc f) stack
              (inner cs) key
            ≡ some ((i, ps) ∷ above_parent, (id, es, next)))
        × Reached (suc d) (inner cs) stack i ps above_parent id es next

    -- The child is the leaf, or the search goes on in it.
    arrive_child :
        (d f : ℕ) (cs : Children K V) (stack : List (TreeNodeInfo K V)) (c : BPlusNode K V)
        (put : BPlusNode K V → Children K V)
        → child_at (slot cmp key (separators cs)) cs ≡ some (c, put)
        → Focus cmp o key d cs c put
        → AreParted cmp cs
        → AllDeep cs d
        → IsAscending cmp (child_entries cs)
        → 0 < length (separators cs)
        → d < suc f
        → Removable c
        → ((e : ℕ) (ds : Children K V) (st : List (TreeNodeInfo K V))
            → e < f
            → AreParted cmp ds
            → AllDeep ds e
            → IsAscending cmp (child_entries ds)
            → Removable (inner ds)
            → Arrives e f ds st)
        → Arrives d (suc f) cs stack
    unfolding b_plus_tree_find_leaf put_back
    arrive_child zero f cs stack (leaf id es next) put eq focus a s t pair h r ih = (
      slot cmp key (separators cs),
      cs,
      stack,
      id,
      es,
      next,
      rw eq refl,
      record {
        put = put;
        at = eq;
        is_slot = refl;
        parted = a;
        deep = s;
        ascending = t;
        pair = pair;
        other = r;
        focus = focus;
        misses = focus.misses;
        shows = focus.shows;
        rebuilds =
            λ ds x. (inner ds, refl, record { all = x.all; parted = x.parted; deep = x.deep });
      },
    )
    arrive_child (suc d) f cs stack (leaf id es next) put eq focus a s t pair h r ih =
        absurd focus.deep
    arrive_child zero f cs stack (inner ds) put eq focus a s t pair h r ih = absurd focus.deep
    arrive_child (suc d) f cs stack (inner ds) put eq focus a s t pair h r ih =
        let (i, ps, st, id, es, next, found, x) =
          ih d ds ((slot cmp key (separators cs), cs) ∷ stack) (omega arith) focus.parted focus.deep
            focus.ascending r in
        (
          i,
          ps,
          st,
          id,
          es,
          next,
          rw eq found,
          record {
            put = x.put;
            at = x.at;
            is_slot = x.is_slot;
            parted = x.parted;
            deep = x.deep;
            ascending = x.ascending;
            pair = x.pair;
            other = x.other;
            focus = x.focus;
            misses = λ m. focus.misses (x.misses m);
            shows = λ m. x.shows (focus.shows m);
            rebuilds = λ ps' y.
                let (n, e, done) = x.rebuilds ps' y in
                let all_done = focus.puts n done in
                (
                  inner (put n),
                  e ∙ (rw eq refl),
                  record { all = all_done.all; parted = all_done.parted; deep = all_done.deep },
                );
          },
        )

    pub find_leaf_lem :
        (d f : ℕ) (cs : Children K V) (stack : List (TreeNodeInfo K V))
        → d < f
        → AreParted cmp cs
        → AllDeep cs d
        → IsAscending cmp (child_entries cs)
        → Removable (inner cs)
        → Arrives d f cs stack
    find_leaf_lem d zero cs stack h a s t r = absurd (omega arith)
    find_leaf_lem d (suc f) cs stack h a s t r =
        let (c, put, eq, focus) = focus_lem cmp o key d cs a s t in
        arrive_child d f cs stack c put eq focus a s t r.0 h
          (child_at-Removable (slot cmp key (separators cs)) cs (c, put) r.1 eq)
          (λ e ds st h' a' s' t' r'. find_leaf_lem e f ds st h' a' s' t' r')
