-- ===== src/Recall/Filter.antt =====
-- recall/filter.go: how far a filter moves a record.
use mnemosia.Prelude.{
  ℕ, suc, Bool, true, false, ◌&&◌, List, [], ◌∷◌, String, string_keys, ◌==◌, any_of, length, map,
  contains, if◌then◌else◌,
}
use mnemosia.Record.Kind.{Kind}
use mnemosia.Recall.Fuse.{Floats}

pub record Filter : Type 0 where
  pub types : List String
  pub tags : List String

pub record Weights (F : Type 0) : Type 0 where
  pub tag : F
  pub type : F

pub record Meta : Type 0 where
  pub kind : Kind
  pub type : String
  pub tags : List String

-- Of the floats, what ranking uses more than fusing: `graded w n of` is
-- `w * float32(n) / float32(of)`, and the constants stand in the code as decimals.
pub record Scale (F : Type 0) : Type 0 where
  pub floats : Floats F
  pub same : F → F → Bool
  pub above : F → F → Bool
  pub graded : F → ℕ → ℕ → F
  pub default_weights : Weights F
  pub default_lexical_weight : F

abbrev pub no_tag : List String → Bool
no_tag [] = true
no_tag (t ∷ ts) = false

-- `Filter.Empty`
unfoldable pub is_empty : Filter → Bool
is_empty f = no_tag f.types && no_tag f.tags

-- How many of the tags wanted are among those carried.
unfoldable pub count_carried : List String → List String → ℕ
count_carried carried [] = 0
count_carried carried (want ∷ wants) =
    let rest = count_carried carried wants in if contains carried want then suc rest else rest

module _ {F : Type 0} (scale : Scale F) where
  -- `Weights.orDefault`
  unfoldable pub or_default : Weights F → Weights F
  or_default w =
      if scale.same w.tag scale.floats.nought && scale.same w.type scale.floats.nought
      then scale.default_weights
      else w

  add_tags : (String → String) → F → List String → List String → F → F
  add_tags normalize weight [] carried total = total
  add_tags normalize weight wants carried total = scale.floats.plus total (
      scale.graded weight (count_carried (map normalize carried) (map normalize wants))
        (length wants))

  -- `normalizeTag` is the first argument.
  unfoldable pub boost : (String → String) → Filter → Weights F → Meta → F
  unfolding add_tags
  boost normalize f w meta =
      let weights = or_default w in
      let tagged = add_tags normalize weights.tag f.tags meta.tags scale.floats.nought in
      if is_empty f
      then scale.floats.nought
      else if any_of (λ want. want == meta.type) f.types
      then scale.floats.plus tagged weights.type
      else tagged
