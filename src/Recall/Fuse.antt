-- ===== src/Recall/Fuse.antt =====
-- recall/fuse.go: two rankings made one. The arithmetic of 32-bit floats is a parameter; a map from
-- ids to places is a list.
pub mod Union
use mnemosia.Prelude.{
  ℕ, zero, suc, ◌+◌, Bool, true, false, List, [], ◌∷◌, ◌++◌, Option, none, some, length, map,
  map_get, map_put, number_keys, if◌then◌else◌,
}
use mnemosia.Index.Search.{Match}

module _ (F : Type 0) where
  pub record Candidate : Type 0 where
    pub id : ℕ
    pub similarity : F
    pub lexical : F
    pub fused : F
    pub score : F
    pub boost : F

  -- The candidates, and where each id stands.
  pub record Fusing : Type 0 where
    pub fused : List Candidate
    pub at : List (ℕ × ℕ)

  -- What is used of the floats; `share w rank` is `w / (RRFk + rank)`.
  pub record Floats : Type 0 where
    pub nought : F
    pub one : F
    pub plus : F → F → F
    pub share : F → ℕ → F
    pub is_positive : F → Bool

  module _ (floats : Floats) where
    -- A match at its place, counted from 0.
    unfoldable pub put_match : ℕ → Match F → Fusing → Fusing
    put_match i m s = record {
      fused =
          s.fused
          ++ record {
            id = m.id;
            similarity = m.score;
            lexical = floats.nought;
            fused = floats.share floats.one (i + 1);
            score = floats.nought;
            boost = floats.nought;
          }
            ∷ [];
      at = map_put s.at m.id (length s.fused);
    }

    unfoldable pub put_matches : ℕ → List (Match F) → Fusing → Fusing
    put_matches i [] s = s
    put_matches i (m ∷ ms) s = put_matches (suc i) ms (put_match i m s)

    -- What was added once stays.
    unfoldable pub add_lexical : F → Candidate → Candidate
    add_lexical contribution c =
        if floats.is_positive c.lexical
        then c
        else record c { lexical = contribution; fused = floats.plus c.fused contribution }

    unfoldable pub update_at : ℕ → (Candidate → Candidate) → List Candidate → List Candidate
    update_at i f [] = []
    update_at zero f (c ∷ cs) = f c ∷ cs
    update_at (suc i) f (c ∷ cs) = c ∷ update_at i f cs

    unfoldable pub put_lexical : F → ℕ → ℕ → Fusing → Fusing
    put_lexical weight rank id s = elim (map_get s.at id) [
      | some i ↦ record s {
        fused = update_at i (add_lexical (floats.share weight (rank + 1))) s.fused;
      }
      | none ↦ record {
        fused =
            s.fused
            ++ record {
              id = id;
              similarity = floats.nought;
              lexical = floats.share weight (rank + 1);
              fused = floats.share weight (rank + 1);
              score = floats.nought;
              boost = floats.nought;
            }
              ∷ [];
        at = map_put s.at id (length s.fused);
      }
    ]

    unfoldable pub put_ranked : F → ℕ → List ℕ → Fusing → Fusing
    put_ranked weight rank [] s = s
    put_ranked weight rank (id ∷ ids) s =
        put_ranked weight (suc rank) ids (put_lexical weight rank id s)

    score_fused : Candidate → Candidate
    score_fused c = record c { score = c.fused }

    -- `fuse`
    unfoldable pub fuse : List (Match F) → List ℕ → F → List Candidate
    unfolding score_fused
    fuse matches lexical weight =
        map score_fused
          (put_ranked weight 0 lexical
            (put_matches 0 matches (record { fused = []; at = [] }))).fused
