-- ===== src/Recall/Rank/Cut.antt =====
-- recall/pipeline.go: what `rank` returns, against the candidates that may answer and their order.
use mathlib.Core.List.{Perm}
use mnemosia.Prelude.{
  ℕ, suc, zero, ◌+◌, ◌≤◌, ◌≡◌, ◌⊎◌, true, All, count_if, Option, none, some, refl, sym, ap, ◌∙◌,
  subst, min, ltb, Bool, false, not, ◌&&◌, ◌||◌, List, [], ◌∷◌, ◌++◌, append-nil, append_assoc,
  String, length, take, contains, map_get, number_keys, arith, if◌then◌else◌, Bool-cases, inl, inr,
}
use mnemosia.Record.Kind.{Kind}
use mnemosia.Recall.Fuse.{Candidate}
use mnemosia.Recall.Filter.{Scale, Meta, boost, is_empty, or_default}
use mnemosia.Recall.Rank.{
  Described, Request, Dropped, Scored, in_scope, has_scope, apply_filter, raise_score, before,
  consider, consider_all, insert, stable_sort, cut, rank,
}
use mnemosia.Recall.Rank.Sorting.{IsLinear, IsOrdered, stable_sort-perm, stable_sort-IsOrdered}

module _ {F : Type 0} (known : Described) (with_superseded : Bool) (scope : List Kind) where
  -- The record is current, or replaced versions are wanted; and it is of a selected class, if any
  -- are selected. No filter is asked.
  unfoldable pub may_answer : Candidate F → Bool
  may_answer c =
      (with_superseded || not (contains known.superseded c.id))
      && (not (has_scope scope) || in_scope scope (map_get known.meta c.id))

  -- It is a version that has been replaced, where those are not wanted.
  abbrev pub was_replaced : Candidate F → Bool
  was_replaced c = not with_superseded && contains known.superseded c.id

  -- It is not such a version, and of a class that is not selected, where some are.
  abbrev pub is_outside : Candidate F → Bool
  is_outside c =
      not (was_replaced c) && (has_scope scope && not (in_scope scope (map_get known.meta c.id)))

  unfoldable pub count_answers : List (Candidate F) → ℕ
  count_answers [] = 0
  count_answers (c ∷ cs) = let rest = count_answers cs in if may_answer c then suc rest else rest

module _ {F : Type 0} (scale : Scale F) (normalize : String → String) (known : Described)
    (req : Request F) where
  -- With what `boost` of the filter gives it as its boost and added to its score, where a filter is
  -- asked for and the record is described.
  unfoldable pub boosted : Option Meta → Candidate F → Candidate F
  boosted none c = c
  boosted (some meta) c =
      let by = boost scale normalize req.filter (or_default scale req.weights) meta in
      if is_empty req.filter
      then c
      else record c { boost = by; score = scale.floats.plus c.score by }

  -- The candidates that may answer, each with its boost.
  unfoldable pub answers : List (Candidate F) → List (Candidate F)
  answers [] = []
  answers (c ∷ cs) =
      let rest = answers cs in
      if may_answer known req.include_superseded req.scope c
      then boosted (map_get known.meta c.id) c ∷ rest
      else rest

  apply_filter-boosted :
      (meta : Option Meta) (c : Candidate F)
      → apply_filter scale normalize req meta c ≡ boosted meta c
  unfolding apply_filter raise_score boosted
  apply_filter-boosted none c = refl
  apply_filter-boosted (some meta) c = refl

  length-answers :
      (cs : List (Candidate F))
      → length (answers cs) ≡ count_answers known req.include_superseded req.scope cs
  unfolding answers count_answers
  length-answers [] = refl
  length-answers (c ∷ cs) = ground (arith, length-answers cs)

  consider_all-answers :
      (cs : List (Candidate F)) (st : Scored F)
      → (consider_all scale normalize known req cs st).scored ≡ st.scored ++ answers cs
  unfolding consider_all consider answers may_answer
  consider_all-answers [] st = sym (append-nil st.scored)
  consider_all-answers (c ∷ cs) st = ground (
    arith,
    consider_all-answers cs (consider scale normalize known req c st),
    apply_filter-boosted (map_get known.meta c.id) c,
    append_assoc st.scored (boosted (map_get known.meta c.id) c ∷ []) (answers cs),
  )

  consider_all-superseded :
      (cs : List (Candidate F)) (st : Scored F)
      → (consider_all scale normalize known req cs st).counts.superseded
        ≡ st.counts.superseded + count_if (was_replaced known req.include_superseded req.scope) cs
  unfolding consider_all consider
  consider_all-superseded [] st = omega arith
  consider_all-superseded (c ∷ cs) st =
      ground (arith, consider_all-superseded cs (consider scale normalize known req c st))

  consider_all-out_of_scope :
      (cs : List (Candidate F)) (st : Scored F)
      → (consider_all scale normalize known req cs st).counts.out_of_scope
        ≡ st.counts.out_of_scope + count_if (is_outside known req.include_superseded req.scope) cs
  unfolding consider_all consider
  consider_all-out_of_scope [] st = omega arith
  consider_all-out_of_scope (c ∷ cs) st =
      ground (arith, consider_all-out_of_scope cs (consider scale normalize known req c st))

module _ {A : Type 0} where
  length-take-min : (k : ℕ) (xs : List A) → length (take k xs) ≡ min k (length xs)
  length-take-min zero xs = omega arith
  length-take-min (suc k) [] = omega arith
  length-take-min (suc k) (x ∷ xs) = omega (arith, length-take-min k xs)

  take_enough : (k : ℕ) (xs : List A) → ltb k (length xs) ≡ false → take k xs ≡ xs
  take_enough zero [] h = refl
  take_enough zero (x ∷ xs) h = ground arith
  take_enough (suc k) [] h = refl
  take_enough (suc k) (x ∷ xs) h = ap (◌∷◌ x) (take_enough k xs (ground arith))

module _ {F : Type 0} (scale : Scale F) where
  -- It has the higher score, or as high a one and no higher id.
  abbrev pub Precedes : Candidate F → Candidate F → Type 0
  Precedes x y =
      (scale.above x.score y.score ≡ true) ⊎ ((scale.above y.score x.score ≡ false) × (x.id ≤ y.id))

  -- Each precedes all that come later.
  abbrev pub IsBestFirst : List (Candidate F) → Type 0
  IsBestFirst [] = Unit
  IsBestFirst (c ∷ cs) = All (Precedes c) cs × IsBestFirst cs

  before-Precedes : IsLinear scale → (x y : Candidate F) → before scale y x ≡ false → Precedes x y
  unfolding before
  before-Precedes linear x y h = ground (arith, linear.open_as y.score x.score, h)

  IsOrdered-IsBestFirst :
      IsLinear scale → (cs : List (Candidate F)) → IsOrdered scale cs → IsBestFirst cs
  IsOrdered-IsBestFirst linear [] h = tt
  IsOrdered-IsBestFirst linear (c ∷ cs) (h, hs) =
      (all_precede cs h, IsOrdered-IsBestFirst linear cs hs)
    where
      all_precede :
          (xs : List (Candidate F)) → All (λ x. before scale x c ≡ false) xs → All (Precedes c) xs
      all_precede [] h = tt
      all_precede (x ∷ xs) (h, hs) = (before-Precedes linear c x h, all_precede xs hs)

  length-insert :
      (c : Candidate F) (cs : List (Candidate F)) → length (insert scale c cs) ≡ suc (length cs)
  unfolding insert
  length-insert c [] = refl
  length-insert c (x ∷ xs) = ground (arith, length-insert c xs)

  length-stable_sort : (cs : List (Candidate F)) → length (stable_sort scale cs) ≡ length cs
  unfolding stable_sort
  length-stable_sort [] = refl
  length-stable_sort (c ∷ cs) =
      length-insert c (stable_sort scale cs) ∙ ap suc (length-stable_sort cs)

module _ {F : Type 0} (scale : Scale F) (normalize : String → String) (fused : List (Candidate F))
    (known : Described) (req : Request F) (k : ℕ) where
  -- The first k of the candidates that may answer, best first, and the others counted by what
  -- excludes them.
  pub record IsRanking (hits : List (Candidate F)) (counts : Dropped) : Type 0 where
    pub order : List (Candidate F)
    pub members : Perm order (answers scale normalize known req fused)
    pub ordered : IsBestFirst scale order
    pub first : hits ≡ take k order
    pub size : length hits ≡ min k (count_answers known req.include_superseded req.scope fused)
    pub superseded :
        counts.superseded ≡ count_if (was_replaced known req.include_superseded req.scope) fused
    pub out_of_scope :
        counts.out_of_scope ≡ count_if (is_outside known req.include_superseded req.scope) fused

  cut-take : (st : Scored F) → (cut scale normalize k st).0 ≡ take k (stable_sort scale st.scored)
  unfolding cut
  cut-take st = elim (Bool-cases (ltb k (length (stable_sort scale st.scored)))) [
    | inl longer ↦ rw longer refl
    | inr enough ↦ rw enough (sym (take_enough k (stable_sort scale st.scored) enough))
  ]

  -- Where the scores are numbers, and whatever the filter and its weights are: the ranking returns
  -- the first k of the candidates that are current and in scope, each once, with what `boost` of the
  -- filter gives it as its boost and added to its score; so many of them as there are, up to k. Of
  -- two of them, the one that comes first has the higher score, or as high a one and no higher id.
  -- One count is of the candidates that are replaced versions, where those are not wanted, and the
  -- other of the rest that are of a class that is not selected.
  pub rank-IsRanking :
      IsLinear scale
      → IsRanking
          (rank scale normalize fused known req k).0
          (rank scale normalize fused known req k).1
  unfolding rank cut
  rank-IsRanking linear =
      let empty : Scored F = record {
        scored = [];
        counts = record { superseded = 0; out_of_scope = 0 };
      } in
      let st = consider_all scale normalize known req fused empty in
      let kept = consider_all-answers scale normalize known req fused empty in
      record {
        order = stable_sort scale st.scored;
        members =
            subst (λ cs. Perm (stable_sort scale st.scored) cs) kept
              (stable_sort-perm scale st.scored);
        ordered =
            IsOrdered-IsBestFirst scale linear _ (stable_sort-IsOrdered scale linear st.scored);
        first = cut-take st;
        size =
            ap length (cut-take st)
            ∙ length-take-min k (stable_sort scale st.scored)
            ∙ ap (min k) (
                length-stable_sort scale st.scored
                ∙ ap length kept
                ∙ length-answers scale normalize known req fused);
        superseded = omega (arith, consider_all-superseded scale normalize known req fused empty);
        out_of_scope =
            omega (arith, consider_all-out_of_scope scale normalize known req fused empty);
      }
