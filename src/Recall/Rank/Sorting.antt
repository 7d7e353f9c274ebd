-- ===== src/Recall/Rank/Sorting.antt =====
-- The order of the hits is a total one, and sorting by it keeps every candidate.
use mathlib.Core.List.{Perm}
use mathlib.Core.List.Perm as Permutation
use mnemosia.Prelude.{◌≡◌, true, false, not, ◌&&◌, List, [], ◌∷◌, All, arith, Bool-cases, inl, inr}
use mnemosia.Recall.Fuse.{Candidate}
use mnemosia.Recall.Filter.{Scale}
use mnemosia.Recall.Rank.{before, insert, stable_sort}

-- The floats without those that are not a number: `>` orders them, and `==` is what it leaves open.
pub record IsLinear {F : Type 0} (scale : Scale F) : Type 0 where
  pub asym : (a b : F) → scale.above a b ≡ true → scale.above b a ≡ false
  pub step :
      (a b c : F) → scale.above a b ≡ false → scale.above b c ≡ false → scale.above a c ≡ false
  pub open_as : (a b : F) → scale.same a b ≡ (not (scale.above a b) && not (scale.above b a))

module _ {F : Type 0} (scale : Scale F) where
  -- Nothing that comes later should have come before.
  abbrev pub IsOrdered : List (Candidate F) → Type 0
  IsOrdered [] = Unit
  IsOrdered (c ∷ cs) = All (λ x. before scale x c ≡ false) cs × IsOrdered cs

  insert-perm : (c : Candidate F) (cs : List (Candidate F)) → Perm (insert scale c cs) (c ∷ cs)
  unfolding insert
  insert-perm c [] = Permutation.refl (c ∷ [])
  insert-perm c (x ∷ xs) = elim (Bool-cases (before scale x c)) [
    | inl earlier ↦
        rw earlier
          (Permutation.trans (Permutation.cons x (insert-perm c xs)) (Permutation.swap c x xs))
    | inr later ↦ rw later (Permutation.refl (c ∷ x ∷ xs))
  ]

  pub stable_sort-perm : (cs : List (Candidate F)) → Perm (stable_sort scale cs) cs
  unfolding stable_sort
  stable_sort-perm [] = Permutation.refl []
  stable_sort-perm (c ∷ cs) =
      Permutation.trans (insert-perm c (stable_sort scale cs))
        (Permutation.cons c (stable_sort-perm cs))

module _ {F : Type 0} (scale : Scale F) (linear : IsLinear scale) where
  before_asym : (a b : Candidate F) → before scale a b ≡ true → before scale b a ≡ false
  unfolding before
  before_asym a b h = ground (
    arith,
    linear.open_as a.score b.score,
    linear.open_as b.score a.score,
    linear.asym a.score b.score,
  )

  before_step :
      (a b c : Candidate F)
      → before scale a b ≡ false
      → before scale b c ≡ false
      → before scale a c ≡ false
  unfolding before
  before_step a b c h k = ground (
    arith,
    linear.open_as a.score b.score,
    linear.open_as b.score c.score,
    linear.open_as a.score c.score,
    linear.step a.score b.score c.score,
    linear.step b.score c.score a.score,
    linear.step c.score a.score b.score,
    linear.asym a.score c.score,
  )

  all_later :
      (a b : Candidate F) (cs : List (Candidate F))
      → before scale b a ≡ false
      → All (λ x. before scale x b ≡ false) cs
      → All (λ x. before scale x a ≡ false) cs
  all_later a b [] h all = tt
  all_later a b (c ∷ cs) h all = (before_step c b a all.0 h, all_later a b cs h all.1)

  All-insert :
      (P : Candidate F → Type 0) (c : Candidate F) (cs : List (Candidate F))
      → P c
      → All P cs
      → All P (insert scale c cs)
  unfolding insert
  All-insert P c [] one all = (one, tt)
  All-insert P c (x ∷ xs) one all = ground (arith, All-insert P c xs one all.1)

  insert-IsOrdered :
      (c : Candidate F) (cs : List (Candidate F))
      → IsOrdered scale cs
      → IsOrdered scale (insert scale c cs)
  unfolding insert
  insert-IsOrdered c [] h = (tt, tt)
  insert-IsOrdered c (x ∷ xs) h = elim (Bool-cases (before scale x c)) [
    | inl earlier ↦ rw earlier (
      All-insert (λ y. before scale y x ≡ false) c xs (before_asym x c earlier) h.0,
      insert-IsOrdered c xs h.1,
    )
    | inr later ↦ rw later ((later, all_later c x xs later h.0), h)
  ]

  pub stable_sort-IsOrdered : (cs : List (Candidate F)) → IsOrdered scale (stable_sort scale cs)
  unfolding stable_sort
  stable_sort-IsOrdered [] = tt
  stable_sort-IsOrdered (c ∷ cs) =
      insert-IsOrdered c (stable_sort scale cs) (stable_sort-IsOrdered cs)
