-- ===== src/Index/Search/Kept.antt =====
-- The heap of the best so far: what it keeps of the records that were offered.
use mathlib.Core.List.{Perm, perm_middle}
use mathlib.Core.List.Perm as Permutation
use mnemosia.Prelude.{
  ℕ, zero, suc, ◌<◌, ◌≤◌, ◌≡◌, sym, ap, subst, ◌∙◌, ltb, List, [], ◌∷◌, ◌++◌, append-nil, some,
  length, All, arith,
}
use mnemosia.Index.Heap.{parent}
use mnemosia.Index.Heap.Cells.{
  get_elem?, set, cell_of_set, length-set, set-perm, within, Yields, yields,
}
use mnemosia.Index.Heap.Order.{Yields-bind, Yields-map, Yields-if, key_at, key_at-some, IsHeap}
use mnemosia.Index.Heap.Down.{TooHigh}
use mnemosia.Index.Heap.Whole.{Heaped, push-Heaped, fix-Heaped, pop-Popped}
use mnemosia.Index.Search.{Match, Scores, less, offer, drain}
use mnemosia.Index.Search.Ranked.{
  All-map, length-perm, empty, Above-set, Above, IsRanked, Above-perm, Above-root, Above-cells,
  heap-Above,
}

module _ {A : Type 0} (key : A → ℕ) where
  -- Of all that was offered, `best` has k, or as many as there were, and the rest are no better.
  pub record Kept (k : ℕ) (all best : List A) : Type 0 where
    pub heap : IsHeap key (length best) best
    pub bounded : length best ≤ k
    pub rest : List A
    pub split : Perm (best ++ rest) all
    pub filled : 0 < length rest → k ≤ length best
    pub beyond : All (λ y. key y ≤ key_at key best 0) rest

  pub Kept-none : (k : ℕ) → Kept k [] []
  Kept-none k = record {
    heap = λ c p q. absurd (omega (arith, q));
    bounded = omega arith;
    rest = [];
    split = Permutation.refl [];
    filled = λ h. absurd (omega (arith, h));
    beyond = tt;
  }

  pub Kept-perm :
      (k : ℕ) (all others best : List A) → Perm all others → Kept k all best → Kept k others best
  Kept-perm k all others best p s = record {
    heap = s.heap;
    bounded = s.bounded;
    rest = s.rest;
    split = Permutation.trans s.split p;
    filled = s.filled;
    beyond = s.beyond;
  }

  -- One more, while there is room.
  Kept-pushed :
      (k : ℕ) (all best : List A) (m : A) (g : List A)
      → length best < k
      → Kept k all best
      → Heaped key (m ∷ best) g
      → Kept k (m ∷ all) g
  Kept-pushed k all best m g room s h =
      let nothing : s.rest ≡ [] = empty s.rest (grind (arith, room, s.filled)) in
      let all_kept : Perm best all =
        subst (λ xs. Perm xs all) (ap (◌++◌ best) nothing ∙ append-nil best) s.split in
      record {
        heap = h.heap;
        bounded = omega (arith, room, length-perm h.same);
        rest = [];
        split = rw (append-nil g) (Permutation.trans h.same (Permutation.cons m all_kept));
        filled = λ p. absurd (omega (arith, p));
        beyond = tt;
      }

  -- One that is better than the worst that was kept.
  Kept-replaced :
      (k : ℕ) (all best : List A) (m x : A) (g : List A)
      → k ≤ length best
      → 0 < length best
      → Kept k all best
      → get_elem? best 0 ≡ some x
      → key x < key m
      → Heaped key (set best 0 m) g
      → Kept k (m ∷ all) g
  Kept-replaced k all best m x g full some_kept s top better h =
      let root = key_at-some key best 0 x top in
      let size : length g ≡ length best = length-perm h.same ∙ length-set best 0 m in
      let all_above : Above key (key x) best =
        subst (λ n. Above key n best) root (heap-Above key best s.heap) in
      let above : key x ≤ key_at key g 0 =
        Above-root key (key x) g (omega (arith, size, some_kept)) (
          Above-perm key (key x) (Permutation.symm h.same)
            (Above-set key (key x) best m (omega (arith, better)) all_above)) in
      record {
        heap = h.heap;
        bounded = omega (arith, size, s.bounded);
        rest = x ∷ s.rest;
        split = Permutation.trans (Permutation.append_right (x ∷ s.rest) h.same) (
            Permutation.trans (perm_middle (set best 0 m) s.rest) (
              Permutation.trans (Permutation.append_right s.rest (set-perm best 0 x m top))
                (Permutation.cons m s.split)));
        filled = λ p. omega (arith, size, full);
        beyond = (above, All-map s.rest (λ y p. omega (arith, p, root, above)) s.beyond);
      }

  -- One that is not.
  Kept-passed :
      (k : ℕ) (all best : List A) (m x : A)
      → k ≤ length best
      → Kept k all best
      → get_elem? best 0 ≡ some x
      → key m ≤ key x
      → Kept k (m ∷ all) best
  Kept-passed k all best m x full s top worse = record {
    heap = s.heap;
    bounded = s.bounded;
    rest = m ∷ s.rest;
    split = Permutation.trans (perm_middle best s.rest) (Permutation.cons m s.split);
    filled = λ _. full;
    beyond = (omega (arith, worse, key_at-some key best 0 x top), s.beyond);
  }

  replaced-TooHigh :
      (best : List A) (m x : A)
      → 0 < length best
      → get_elem? best 0 ≡ some x
      → IsHeap key (length best) best
      → TooHigh key (length (set best 0 m)) (set best 0 m) 0
  unfolding key_at
  replaced-TooHigh best m x h top o = record {
    edges = λ c p q r. ground (
      arith,
      length-set best 0 m,
      cell_of_set best 0 c m h,
      cell_of_set best 0 (parent c) m h,
      o c,
    );
    bridged = λ c p q r t. absurd (omega (arith, t));
  }

module _ {F : Type 0} (scores : Scores F) (rank : F → ℕ)
    (ordered : (x y : F) → scores.below x y ≡ ltb (rank x) (rank y)) where
  abbrev pub score_key : Match F → ℕ
  score_key m = rank m.score

  pub offer-Kept :
      (k : ℕ) (all best : List (Match F)) (m : Match F)
      → 0 < k
      → Kept score_key k all best
      → Yields (Kept score_key k (m ∷ all)) (offer scores k m best)
  unfolding offer
  offer-Kept k all best m pos s =
      Yields-if (ltb (length best) k)
        (λ room.
          Yields-map (λ g h. Kept-pushed score_key k all best m g (ground (arith, room)) s h)
            (push-Heaped (less scores) score_key (λ x y. ordered x.score y.score) best m s.heap))
        (λ full.
          let some_kept : 0 < length best = ground (arith, full) in
          let (x, top) = within best 0 some_kept in
          rw top (
            Yields-if (less scores x m)
              (λ better.
                Yields-map
                  (λ g h.
                    Kept-replaced score_key k all best m x g (ground (arith, full)) some_kept s top
                      (ground (arith, better, ordered x.score m.score)) h)
                  (fix-Heaped (less scores) score_key (λ x y. ordered x.score y.score)
                    (set best 0 m) (replaced-TooHigh score_key best m x some_kept top s.heap)))
              (λ worse. yields (
                Kept-passed score_key k all best m x (ground (arith, full)) s top
                  (ground (arith, worse, ordered x.score m.score))))))

  -- What a drained heap was, from its greatest key on, before what had been drained.
  pub record Drained (best out r : List (Match F)) : Type 0 where
    pub ranked : IsRanked score_key r
    pub same : Perm r (best ++ out)

  pub drain-Drained :
      (n : ℕ) (best out : List (Match F))
      → length best ≡ n
      → IsHeap score_key (length best) best
      → IsRanked score_key out
      → All (λ y. All (λ x. score_key y ≤ score_key x) best) out
      → Yields (Drained best out) (drain scores n best out)
  unfolding drain
  drain-Drained zero best out size o ranked below = yields (record {
    ranked = ranked;
    same = subst (λ a. Perm out (a ++ out)) (sym (empty best size)) (Permutation.refl out);
  })
  drain-Drained (suc n) best out size o ranked below =
      Yields-bind
        (pop-Popped (less scores) score_key (λ x y. ordered x.score y.score) best
          (omega (arith, size)) o)
        λ (m, rest) p.
          let split = λ (y : Match F) (h : Above score_key (score_key y) best).
            Above-perm score_key (score_key y) (Permutation.symm p.same) h in
          Yields-map
            (λ r d. record {
              ranked = d.ranked;
              same =
                  Permutation.trans d.same (
                    Permutation.trans (perm_middle rest out) (Permutation.append_right out p.same));
            })
            (drain-Drained n rest (m ∷ out) (omega (arith, size, length-perm p.same)) p.heap
              (All-map out (λ y h. (split y h).0) below, ranked)
              (
                (split m (Above-cells score_key (score_key m) best p.least)).1,
                All-map out (λ y h. (split y h).1) below,
              ))
