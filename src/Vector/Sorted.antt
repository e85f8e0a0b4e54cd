-- ===== src/Vector/Sorted.antt =====
-- quick_sort and vector_sort of vector/vector.c, against the sorted permutations of the elements.
use latte_c.Prelude.{
  snoc, take-append_drop, take, drop, take-length_append, ◌>>=◌, ℕ, zero, suc, ◌+◌, ◌-◌, ltb,
  Bool-cases, ◌<◌, ◌≡◌, refl, sym, ap, ◌∙◌, inl, inr, false, Option, some, List, [], ◌∷◌, ◌++◌,
  append_assoc, length, length-append, arith,
}
use mathlib.Core.List.Permᴰ
use mathlib.Core.Path.{subst}
use mathlib.Core.List.{Permᴰ}
use latte_c.Cmp.{CmpFunc, IsPreorder}
use latte_c.Vector.{Vector}
use latte_c.Vector.Ascends.{
  Ascends, AllBelow-Perm, AllAbove-Perm, short-Ascends, AtMost-pivot, Ascends-append,
}
use latte_c.Vector.Contents.{IsValid, contents, length-contents}
use latte_c.Vector.Sort.{quick_sort, sort_parts, vector_sort, with_cells}
use latte_c.Vector.Partition.{Split, partition_lem, length-Perm}

front_at :
    (pre done : List ℕ) (p : ℕ) (rest : List ℕ)
    → (pre ++ (done ++ (p ∷ []))) ++ rest ≡ pre ++ (done ++ (p ∷ rest))
front_at pre done p rest =
    append_assoc pre (done ++ (p ∷ [])) rest
    ∙ ap (λ (l : List ℕ). pre ++ l) (append_assoc done (p ∷ []) rest)

module _ (c : CmpFunc ℕ) where
  -- A valid vector with the elements of `v` in order.
  pub record IsSortOf (v : Vector) (r : Option Vector) : Type 0 where
    pub result : Vector
    pub returned : r ≡ some result
    pub valid : IsValid result
    pub same_count : result.count ≡ v.count
    pub permuted : Permᴰ (contents v) (contents result)
    pub ascending : Ascends c (contents result)

  module _ (o : IsPreorder c) where
    -- The cells between `pre` and `post`, sorted.
    record SortedTo (pre seg post : List ℕ) (r : Option (List ℕ)) : Type 0 where
      done : List ℕ
      cells : r ≡ some (pre ++ (done ++ post))
      perm : Permᴰ seg done
      sorted : Ascends c done

    sort_parts_lem :
        (f p : ℕ) (pre init post : List ℕ) (end : ℕ) (sort : List ℕ → ℕ → ℕ → Option (List ℕ))
        (ih : (before seg after : List ℕ) (e : ℕ)
          → length seg < f
          → e ≡ length before + length seg
          → SortedTo before seg after (sort (before ++ (seg ++ after)) (length before) e))
        (r : List ℕ × ℕ)
        → length init < f
        → end ≡ length pre + length init + 1
        → Split c p pre init post r
        → SortedTo pre (init ++ (p ∷ [])) post (sort_parts sort (length pre) end r)
    sort_parts_lem f p pre init post end sort ih r h e q =
        let size : length init ≡ length q.lows + length q.highs =
          length-Perm q.perm ∙ length-append q.lows q.highs in
        let low =
          ih pre q.lows (p ∷ (q.highs ++ post)) (length pre + length q.lows) (omega arith) refl in
        let same_size = length-Perm low.perm in
        let at : length pre + length q.lows + 1 ≡ length (pre ++ (low.done ++ (p ∷ []))) =
          omega
            (arith, length-append pre (low.done ++ (p ∷ [])), length-append low.done (p ∷ [])) in
        let high =
          ih (pre ++ (low.done ++ (p ∷ []))) q.highs post end (omega arith) (omega arith) in
        let merged = front_at pre low.done p (high.done ++ post) in
        let joined = append_assoc low.done (p ∷ high.done) post in
        let perm =
          Permᴰ.trans (Permᴰ.append_right q.highs low.perm)
            (Permᴰ.append_left low.done high.perm) in
        let last = Permᴰ.trans (Permᴰ.middle p init []) (Permᴰ.cons refl (Permᴰ.append-nil init)) in
        let inner = Permᴰ.cons refl (Permᴰ.trans q.perm perm) in
        let into = Permᴰ.symm (Permᴰ.middle p low.done high.done) in
        record {
          done = low.done ++ (p ∷ high.done);
          cells =
              rw
                (
                  q.cells,
                  low.cells,
                  at,
                  sym (front_at pre low.done p (q.highs ++ post)),
                  high.cells,
                )
                (ap some (merged ∙ ap (λ (l : List ℕ). pre ++ l) (sym joined)));
          perm = Permᴰ.trans last (Permᴰ.trans inner into);
          sorted =
              Ascends-append c o p low.done high.done (AllBelow-Perm c p low.perm q.low) low.sorted
                (AtMost-pivot c o p high.done (AllAbove-Perm c p high.perm q.high)) high.sorted;
        }

    quick_sort_lem :
        (f : ℕ) (pre seg post : List ℕ) (end : ℕ)
        → length seg < f
        → end ≡ length pre + length seg
        → SortedTo pre seg post (quick_sort c f (pre ++ (seg ++ post)) (length pre) end)
    unfolding quick_sort
    quick_sort_lem zero pre seg post end h e = absurd (omega arith)
    quick_sort_lem (suc f) pre [] post end h e =
        let s : ltb (length pre + 1) end ≡ false = ground arith in
        rw (quick_sort, s) record { done = []; cells = refl; perm = Permᴰ.nil; sorted = tt }
    quick_sort_lem (suc f) pre (x ∷ seg) post end h e =
        elim (Bool-cases (ltb (length pre + 1) end)) [
          | inl s ↦
              let k = snoc x seg in
              let size : length (x ∷ seg) ≡ length k.init + 1 =
                ap (λ (l : List ℕ). length l) k.parts ∙ length-append k.init (k.last ∷ []) in
              let whole : x ∷ (seg ++ post) ≡ k.init ++ (k.last ∷ post) =
                ap (λ (l : List ℕ). l ++ post) k.parts ∙ append_assoc k.init (k.last ∷ []) post in
              let parts = partition_lem c k.last pre k.init post (end - 1) (omega arith) in
              rw (quick_sort, s, whole, k.parts)
                (sort_parts_lem f k.last pre k.init post end (λ arr l e'. quick_sort c f arr l e')
                  (λ before seg' after e' h' q. quick_sort_lem f before seg' after e' h' q) _
                  (omega arith) (omega arith) parts)
          | inr s ↦
              rw (quick_sort, s)
                record {
                  done = x ∷ seg;
                  cells = refl;
                  perm = Permᴰ.refl (x ∷ seg);
                  sorted = short-Ascends c (x ∷ seg) (ground arith);
                }
        ]

    SortedTo-sort :
        (v : Vector) (r : Option (List ℕ))
        → IsValid v
        → SortedTo [] (contents v) (drop v.count v.cells) r
        → IsSortOf v (r >>= λ cells. some (with_cells v cells))
    SortedTo-sort v r w q =
        let size = length-contents v w in
        let same_size = length-Perm q.perm in
        let done : v.count ≡ length q.done = omega arith in
        let whole = take-append_drop v.count v.cells in
        let total : length q.done + length (drop v.count v.cells) ≡ v.capacity = omega (
          arith,
          length-append (contents v) (drop v.count v.cells),
          ap (λ (l : List ℕ). length l) whole,
          w.sized,
        ) in
        let taken : take v.count (q.done ++ drop v.count v.cells) ≡ q.done =
          ap (λ (n : ℕ). take n (q.done ++ drop v.count v.cells)) done
          ∙ take-length_append q.done _ in
        record {
          result = with_cells v (q.done ++ drop v.count v.cells);
          returned = rw (q.cells) refl;
          valid = record {
            sized = length-append q.done (drop v.count v.cells) ∙ total;
            fits = w.fits;
          };
          same_count = refl;
          permuted = rw taken q.perm;
          ascending = rw taken q.sorted;
        }

    -- For a comparator for which not being above is transitive and one of any two elements is not
    -- above the other, on a valid vector of less than 2^31 elements: vector_sort comes to an end
    -- (the recursion needs no more levels than there are elements, and one), and leaves a valid
    -- vector of the same count whose elements are a permutation of the old ones in which no
    -- element is above a later one.
    pub vector_sort_lem :
        (v : Vector) → IsValid v → v.count < 2147483648 → IsSortOf v (vector_sort c v)
    unfolding vector_sort
    vector_sort_lem v w h =
        let size = length-contents v w in
        let sorted =
          quick_sort_lem (v.count + 1) [] (contents v) (drop v.count v.cells) v.count (omega arith)
            (omega arith) in
        let whole = take-append_drop v.count v.cells in
        SortedTo-sort v (quick_sort c (v.count + 1) v.cells 0 v.count) w (
          subst
            (λ cells.
              SortedTo [] (contents v) (drop v.count v.cells)
                (quick_sort c (v.count + 1) cells 0 v.count))
            whole sorted)
