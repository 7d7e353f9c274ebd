-- ===== src/Index/Search.antt =====
-- index/search.go: the nearest vectors to a query, by a heap of the best so far. A 32-bit float and
-- its arithmetic are a parameter, and so is the most matches that a slice may be made for. `none` is
-- a panic. A `k` below 0 is as 0.
pub mod Ranked
pub mod Kept
pub mod Nearest
use mnemosia.Prelude.{
  ℕ, zero, suc, ◌+◌, ◌*◌, ltb, leb, nat_eq, Bool, List, [], ◌∷◌, ◌++◌, Option, none, some, length,
  take, drop, map, if◌then◌else◌,
}
use mnemosia.Prelude.Exec.{Result, ok, err}
use mnemosia.Index.Live.{Index, Refused, wrong_width}
use mnemosia.Index.Heap.{◌>>=◌, push, pop, fix}
use mnemosia.Index.Heap.Cells.{get_elem?, set}

pub record Match (F : Type 0) : Type 0 where
  pub id : ℕ
  pub score : F

-- `below a b` is `a < b`.
pub record Scores (F : Type 0) : Type 0 where
  pub nought : F
  pub plus : F → F → F
  pub times : F → F → F
  pub below : F → F → Bool

module _ {F : Type 0} where
  -- The vector of row n, where the matrix has that row.
  unfoldable pub row : ℕ → Index F → Option (List F)
  row n i =
      if leb (suc n * i.dim) (length i.vectors)
      then some (take i.dim (drop (n * i.dim) i.vectors))
      else none

module _ {F : Type 0} (scores : Scores F) where
  -- The loop of `dot`, with the sum so far.
  unfoldable pub dot_from : F → List F → List F → Option F
  dot_from sum [] b = some sum
  dot_from sum (x ∷ a) [] = none
  dot_from sum (x ∷ a) (y ∷ b) = dot_from (scores.plus sum (scores.times x y)) a b

  unfoldable pub dot : List F → List F → Option F
  dot a b = dot_from scores.nought a b

  -- `matchHeap.Less`
  abbrev pub less : Match F → Match F → Bool
  less a b = scores.below a.score b.score

  -- One record, where the heap is to have k of them.
  unfoldable pub offer : ℕ → Match F → List (Match F) → Option (List (Match F))
  offer k m best =
      if ltb (length best) k
      then push less best m
      else do root ← get_elem? best 0; if less root m then fix less (set best 0 m) 0 else some best

  unfoldable pub offer_all :
      List F → ℕ → Index F → ℕ → List ℕ → List (Match F) → Option (List (Match F))
  offer_all query k i n [] best = some best
  offer_all query k i n (id ∷ ids) best = do
    vector ← row n i
    score ← dot query vector
    next ← offer k (record { id = id; score = score }) best
    offer_all query k i (suc n) ids next

  -- The results are filled in from the last.
  unfoldable pub drain : ℕ → List (Match F) → List (Match F) → Option (List (Match F))
  drain zero best out = some out
  drain (suc n) best out = do (m, rest) ← pop less best; drain n rest (m ∷ out)

  unfoldable pub best_of : List F → ℕ → Index F → Option (Result Refused (List (Match F)))
  best_of query k i = do
    best ← offer_all query k i 0 i.ids []
    out ← drain (length best) best []
    some (ok out)

  -- What is found for k above 0. `make` panics if there is no room for k + 1 matches, which is so
  -- too where the machine's k + 1 is below 0.
  unfoldable pub found : ℕ → List F → ℕ → Index F → Option (Result Refused (List (Match F)))
  unfolding best_of
  found room query k i = if leb (k + 1) room then best_of query k i else none

  unfoldable pub search : ℕ → List F → ℕ → Index F → Option (Result Refused (List (Match F)))
  unfolding found
  search room query k i =
      if nat_eq (length query) i.dim
      then (if nat_eq k 0 then some (ok []) else found room query k i)
      else some (err wrong_width)
