-- ===== src/Index/Search/Nearest.antt =====
-- index/search.go: what `Search` answers, against the scores of all rows.
use mathlib.Core.List.{Perm, perm_middle}
use mathlib.Core.List.Perm as Permutation
use mnemosia.Prelude.{
  ℕ, suc, ◌+◌, ◌*◌, ◌≤◌, ◌<◌, ◌≡◌, ◌≢◌, refl, sym, ap, subst, ◌∙◌, min, ltb, leb, nat_eq, true,
  false, List, [], ◌∷◌, ◌++◌, append-nil, some, length, length-append, length-take, length-drop,
  take, drop, All, arith,
}
use mnemosia.Prelude.Exec.{Result, ok, err}
use mnemosia.Index.Live.{Index, Refused, wrong_width}
use mnemosia.Index.Live.Rows.{rows, row_step, rows_below, drop_twice}
use mnemosia.Index.Live.Refines.{IsAligned, table}
use mnemosia.Index.Heap.Cells.{Yields, yields}
use mnemosia.Index.Heap.Order.{Yields-bind, Yields-map, Yields-if, key_at}
use mnemosia.Index.Search.{Match, Scores, dot_from, dot, row, offer_all, best_of, found, search}
use mnemosia.Index.Search.Ranked.{
  All-map, All-always, length-perm, IsRanked, Above-perm, heap-Above,
}
use mnemosia.Index.Search.Kept.{
  Kept, Kept-none, Kept-perm, score_key, offer-Kept, Drained, drain-Drained,
}

module _ {F : Type 0} (scores : Scores F) where
  -- The sum of the products, from the left.
  unfoldable pub sum_from : F → List F → List F → F
  sum_from sum [] b = sum
  sum_from sum (x ∷ a) [] = sum
  sum_from sum (x ∷ a) (y ∷ b) = sum_from (scores.plus sum (scores.times x y)) a b

  -- Every record of a table with its score.
  unfoldable pub scored : List F → List (ℕ × List F) → List (Match F)
  scored query [] = []
  scored query ((id, v) ∷ rest) =
      record { id = id; score = sum_from scores.nought query v } ∷ scored query rest

  -- No later one has a higher score.
  abbrev pub IsBestFirst : List (Match F) → Type 0
  IsBestFirst [] = Unit
  IsBestFirst (m ∷ ms) = All (λ y. scores.below m.score y.score ≡ false) ms × IsBestFirst ms

  -- `out` is k of `all`, or `all` of them, the best ones and best first.
  pub record IsNearest (k : ℕ) (all out : List (Match F)) : Type 0 where
    pub best_first : IsBestFirst out
    pub size : length out ≡ min k (length all)
    pub rest : List (Match F)
    pub split : Perm (out ++ rest) all
    pub beyond : All (λ y. All (λ x. scores.below x.score y.score ≡ false) out) rest

  pub data Answer (query : List F) (k : ℕ) (i : Index F) (r : Result Refused (List (Match F)))
      : Type 0 where
    nearest :
        length query ≡ i.dim
        → (out : List (Match F)) → r ≡ ok out
        → IsNearest k (scored query (table i)) out
        → Answer query k i r
    narrow : length query ≢ i.dim → r ≡ err wrong_width → Answer query k i r

  dot_from-sum_from :
      (sum : F) (a b : List F)
      → length a ≡ length b
      → dot_from scores sum a b ≡ some (sum_from sum a b)
  unfolding dot_from sum_from
  dot_from-sum_from sum [] b h = refl
  dot_from-sum_from sum (x ∷ a) [] h = ground (arith, h)
  dot_from-sum_from sum (x ∷ a) (y ∷ b) h =
      dot_from-sum_from (scores.plus sum (scores.times x y)) a b (omega (arith, h))

module _ {F : Type 0} where
  row_fits :
      (n : ℕ) (i : Index F) → IsAligned i → n < length i.ids → suc n * i.dim ≤ length i.vectors
  row_fits n i h p = omega (arith, h.sized, rows_below n (length i.ids) i.dim p)

  row-some :
      (n : ℕ) (i : Index F)
      → IsAligned i
      → n < length i.ids
      → row n i ≡ some (take i.dim (drop (n * i.dim) i.vectors))
  unfolding row
  row-some n i h p = ground (arith, row_fits n i h p)

  length-row :
      (n : ℕ) (i : Index F)
      → IsAligned i
      → n < length i.ids
      → length (take i.dim (drop (n * i.dim) i.vectors)) ≡ i.dim
  length-row n i h p =
      length-take i.dim (drop (n * i.dim) i.vectors)
        (omega (arith, row_fits n i h p, row_step n i.dim, length-drop (n * i.dim) i.vectors))

  next_rows :
      (n : ℕ) (i : Index F)
      → IsAligned i
      → n < length i.ids
      → drop (suc n * i.dim) i.vectors ≡ drop i.dim (drop (n * i.dim) i.vectors)
  next_rows n i h p =
      ap (λ m. drop m i.vectors) (row_step n i.dim ∙ omega arith)
      ∙ drop_twice (n * i.dim) i.dim i.vectors (omega (arith, row_fits n i h p, row_step n i.dim))

module _ {F : Type 0} (scores : Scores F) (rank : F → ℕ)
    (ordered : (x y : F) → scores.below x y ≡ ltb (rank x) (rank y)) where
  abbrev of_key : Match F → ℕ
  of_key = score_key scores rank ordered

  offer_all-Kept :
      (query : List F) (k : ℕ) (i : Index F) (n : ℕ) (ids : List ℕ) (best all : List (Match F))
      → 0 < k
      → IsAligned i
      → length query ≡ i.dim
      → length ids + n ≡ length i.ids
      → Kept of_key k all best
      → Yields
          (Kept of_key k (scored scores query (rows i.dim ids (drop (n * i.dim) i.vectors)) ++ all))
          (offer_all scores query k i n ids best)
  unfolding offer_all rows scored dot
  offer_all-Kept query k i n [] best all pos h w size s = yields s
  offer_all-Kept query k i n (id ∷ ids) best all pos h w size s =
      let here : n < length i.ids = omega (arith, size) in
      let v = take i.dim (drop (n * i.dim) i.vectors) in
      let m : Match F = record { id = id; score = sum_from scores scores.nought query v } in
      rw
        (
          row-some n i h here,
          dot_from-sum_from scores scores.nought query v (w ∙ sym (length-row n i h here)),
        )
        (Yields-bind (offer-Kept scores rank ordered k all best m pos s) λ next t.
          Yields-map
            (λ g kept.
              Kept-perm of_key k _ _ g
                (perm_middle
                  (scored scores query (rows i.dim ids (drop i.dim (drop (n * i.dim) i.vectors))))
                  all)
                (subst (λ vs. Kept of_key k (scored scores query (rows i.dim ids vs) ++ m ∷ all) g)
                  (next_rows n i h here) kept))
            (offer_all-Kept query k i (suc n) ids next (m ∷ all) pos h w (omega (arith, size)) t))

  no_worse : (x y : F) → rank y ≤ rank x → scores.below x y ≡ false
  no_worse x y h = ground (arith, h, ordered x y)

  scores_descend : (ms : List (Match F)) → IsRanked of_key ms → IsBestFirst scores ms
  scores_descend [] h = tt
  scores_descend (m ∷ ms) (h, hs) =
      (All-map ms (λ y p. no_worse m.score y.score p) h, scores_descend ms hs)

  Drained-IsNearest :
      (k : ℕ) (all best out : List (Match F))
      → Kept of_key k all best
      → Drained scores rank ordered best [] out
      → IsNearest scores k all out
  Drained-IsNearest k all best out s d =
      let same : Perm out best = rw (append-nil best) at d.same in
      record {
        best_first = scores_descend out d.ranked;
        size = grind (
          arith,
          length-perm same,
          length-perm s.split,
          length-append best s.rest,
          s.filled,
          s.bounded,
        );
        rest = s.rest;
        split = Permutation.trans (Permutation.append_right s.rest same) s.split;
        beyond =
            All-map s.rest
              (λ y p.
                All-map out (λ x q. no_worse x.score y.score (omega (arith, p, q)))
                  (Above-perm of_key (key_at of_key best 0) (Permutation.symm same)
                    (heap-Above of_key best s.heap)))
              s.beyond;
      }

  best_of-Answer :
      (query : List F) (k : ℕ) (i : Index F)
      → 0 < k
      → IsAligned i
      → length query ≡ i.dim
      → Yields (Answer scores query k i) (best_of scores query k i)
  unfolding best_of
  best_of-Answer query k i pos h w =
      let none_before : 0 * i.dim ≡ 0 = omega arith in
      let whole =
        append-nil (scored scores query (rows i.dim i.ids (drop (0 * i.dim) i.vectors)))
        ∙ ap (λ m. scored scores query (rows i.dim i.ids (drop m i.vectors))) none_before in
      Yields-bind
        (offer_all-Kept query k i 0 i.ids [] [] pos h w (omega arith) (Kept-none of_key k))
        λ best s.
          Yields-bind (drain-Drained scores rank ordered (length best) best [] refl s.heap tt tt)
            λ out d. yields (
              nearest w out refl (
                subst (λ all. IsNearest scores k all out) whole
                  (Drained-IsNearest k _ best out s d)))

  found-Answer :
      (room : ℕ) (query : List F) (k : ℕ) (i : Index F)
      → 0 < k
      → k + 1 ≤ room
      → IsAligned i
      → length query ≡ i.dim
      → Yields (Answer scores query k i) (found scores room query k i)
  unfolding found
  found-Answer room query k i pos fits h w =
      let roomy : leb (k + 1) room ≡ true = ground (arith, fits) in
      rw roomy (best_of-Answer query k i pos h w)

  -- Where scores compare as numbers do, which floats do unless one is not a number, and the matrix
  -- has one row of `dim` values for each id, `Search` returns, without a panic and within its fuel, for
  -- every k for which a slice of k + 1 matches can be made.
  -- For a query of another width it answers that error. Else it answers k of the records, or all
  -- of them if they are fewer, each with the sum of the products of its row and the query; a later
  -- one never has the higher score, and no record that is left out has a higher score than one that
  -- is returned.
  pub search-Nearest :
      (room : ℕ) (query : List F) (k : ℕ) (i : Index F)
      → k + 1 ≤ room
      → IsAligned i
      → Yields (Answer scores query k i) (search scores room query k i)
  unfolding search
  search-Nearest room query k i fits h =
      Yields-if (nat_eq (length query) i.dim)
        (λ w.
          Yields-if (nat_eq k 0)
            (λ none_asked. yields (
              nearest (ground (arith, w)) [] refl
                (none_asked_for k _ (ground (arith, none_asked)))))
            (λ asked.
              found-Answer room query k i (ground (arith, asked)) fits h (ground (arith, w))))
        (λ other. yields (narrow (ground (arith, other)) refl))
    where
      none_asked_for : (k : ℕ) (all : List (Match F)) → k ≡ 0 → IsNearest scores k all []
      none_asked_for k all e = record {
        best_first = tt;
        size = omega (arith, e);
        rest = all;
        split = Permutation.refl all;
        beyond = All-always all (λ y. tt);
      }
