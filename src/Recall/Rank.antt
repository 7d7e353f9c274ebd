-- ===== src/Recall/Rank.antt =====
-- recall/pipeline.go, `rank`: which candidates may answer, and in which order.
pub mod Sorting
pub mod Cut
use mnemosia.Prelude.{
  ℕ, suc, zero, ◌+◌, ltb, Bool, true, false, not, ◌&&◌, ◌||◌, List, [], ◌∷◌, ◌++◌, Option, none,
  some, String, string_keys, number_keys, ◌==◌, any_of, length, take, contains, map_get,
  if◌then◌else◌,
}
use mnemosia.Record.Kind.{Kind}
use mnemosia.Recall.Fuse.{Candidate}
use mnemosia.Recall.Filter.{Filter, Weights, Meta, Scale, is_empty, or_default, boost}

pub record Described : Type 0 where
  pub meta : List (ℕ × Meta)
  pub superseded : List ℕ

pub record Request (F : Type 0) : Type 0 where
  pub query : String
  pub limit : ℕ
  pub scope : List Kind
  pub filter : Filter
  pub weights : Weights F
  pub lexical_weight : F
  pub include_superseded : Bool
  pub candidates : ℕ

pub record Dropped : Type 0 where
  pub superseded : ℕ
  pub out_of_scope : ℕ

pub record Scored (F : Type 0) : Type 0 where
  pub scored : List (Candidate F)
  pub counts : Dropped

-- `inScope`; nothing is known of a record that is not described.
unfoldable pub in_scope : List Kind → Option Meta → Bool
in_scope scope none = false
in_scope scope (some meta) = any_of (λ want. want == meta.kind) scope

abbrev pub has_scope : List Kind → Bool
has_scope [] = false
has_scope (k ∷ ks) = true

module _ {F : Type 0} (scale : Scale F) (normalize : String → String) where
  unfoldable pub raise_score : F → Candidate F → Candidate F
  raise_score by c = record c { boost = by; score = scale.floats.plus c.score by }

  -- The filter, where the record is described.
  unfoldable pub apply_filter : Request F → Option Meta → Candidate F → Candidate F
  unfolding raise_score
  apply_filter req none c = c
  apply_filter req (some meta) c =
      if is_empty req.filter
      then c
      else raise_score (boost scale normalize req.filter (or_default scale req.weights) meta) c

  -- One round of the loop.
  unfoldable pub consider : Described → Request F → Candidate F → Scored F → Scored F
  consider known req c st =
      let meta = map_get known.meta c.id in
      if not req.include_superseded && contains known.superseded c.id
      then record st { counts = record st.counts { superseded = suc st.counts.superseded } }
      else if has_scope req.scope && not (in_scope req.scope meta)
      then record st { counts = record st.counts { out_of_scope = suc st.counts.out_of_scope } }
      else record st { scored = st.scored ++ apply_filter req meta c ∷ [] }

  unfoldable pub consider_all : Described → Request F → List (Candidate F) → Scored F → Scored F
  consider_all known req [] st = st
  consider_all known req (c ∷ cs) st = consider_all known req cs (consider known req c st)

-- The order of the hits; a lower id comes first of equal scores, as of its text in hex.
module _ {F : Type 0} (scale : Scale F) where
  unfoldable pub before : Candidate F → Candidate F → Bool
  before a b =
      if not (scale.same a.score b.score) then scale.above a.score b.score else ltb a.id b.id

  -- `sort.SliceStable`
  unfoldable pub insert : Candidate F → List (Candidate F) → List (Candidate F)
  insert c [] = c ∷ []
  insert c (x ∷ xs) = let rest = insert c xs in if before x c then x ∷ rest else c ∷ x ∷ xs

  unfoldable pub stable_sort : List (Candidate F) → List (Candidate F)
  stable_sort [] = []
  stable_sort (c ∷ cs) = insert c (stable_sort cs)

module _ {F : Type 0} (scale : Scale F) (normalize : String → String) where
  cut : ℕ → Scored F → List (Candidate F) × Dropped
  cut k st =
      let sorted = stable_sort scale st.scored in
      (if ltb k (length sorted) then take k sorted else sorted, st.counts)

  unfoldable pub rank :
      List (Candidate F) → Described → Request F → ℕ → List (Candidate F) × Dropped
  unfolding cut
  rank fused known req k = cut k (
      consider_all scale normalize known req fused
        (record { scored = []; counts = record { superseded = 0; out_of_scope = 0 } }))
