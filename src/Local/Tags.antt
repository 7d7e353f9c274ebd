-- ===== src/Local/Tags.antt =====
-- local/ranking.go, `NormalizeTags`: the one form in which tags are compared.
use mnemosia.Prelude.{◌||◌, List, [], ◌∷◌, ◌++◌, String, string_keys, ◌==◌, contains, if◌then◌else◌}

module _ (trim_space to_lower : String → String) where
  unfoldable pub normalize_tag : String → String
  normalize_tag tag = to_lower (trim_space tag)

  unfoldable pub normalize_onto : List String → List String → List String
  normalize_onto out [] = out
  normalize_onto out (tag ∷ rest) =
      let clean = normalize_tag tag in
      normalize_onto (if clean == "" || contains out clean then out else out ++ clean ∷ []) rest

  unfoldable pub normalize_tags : List String → List String
  normalize_tags tags = normalize_onto [] tags
