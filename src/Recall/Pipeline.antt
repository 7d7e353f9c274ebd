-- ===== src/Recall/Pipeline.antt =====
-- recall/pipeline.go, `Pipeline.Run`: a query from its text to the records that answer it. How long
-- each stage took is left out.
use mnemosia.Prelude.{
  ℕ, suc, ltb, nat_eq, List, [], ◌∷◌, ◌++◌, Option, none, some, String, string_keys, ◌==◌, length,
  map, if◌then◌else◌,
}
use mnemosia.Prelude.Exec.{Result, ok, err, Exec, pure, fail, ◌>>=◌, ◌>>◌}
use mnemosia.Index.Search.{Match}
use mnemosia.Recall.Fuse.{Candidate, fuse}
use mnemosia.Recall.Filter.{Scale}
use mnemosia.Recall.Rank.{Described, Request, rank}

-- Of a service, what it said.
pub data Error : Type 0 where
  empty_query : Error
  service : ℕ → Error
  fetching : ℕ → Error → Error

-- The embedder, the index, the lexical index and the catalog, where there are any, and the fetcher
-- of records `R` with the tier that answered. Each is told how many calls were made before.
pub record Services (F V R : Type 0) : Type 0 where
  pub embed : ℕ → String → Result Error V
  pub size : ℕ
  pub search : ℕ → V → ℕ → Result Error (List (Match F))
  pub lexical : Option (ℕ → String → ℕ → Result Error (List ℕ))
  pub catalog : Option (ℕ → List ℕ → Result Error Described)
  pub fetch : ℕ → ℕ → Result Error R

pub record Hit (F R : Type 0) : Type 0 where
  pub found : R
  pub score : F
  pub similarity : F
  pub lexical : F
  pub boost : F

pub record Outcome (F R : Type 0) : Type 0 where
  pub hits : List (Hit F R)
  pub searched : ℕ
  pub considered : ℕ
  pub lexical_hits : ℕ
  pub superseded_hidden : ℕ
  pub scope_excluded : ℕ

abbrev pub default_limit : ℕ
default_limit = 5

abbrev pub default_candidates : ℕ
default_candidates = 100

-- A number that is not positive is 0.
unfoldable pub limit_of : ℕ → ℕ
limit_of limit = if nat_eq limit 0 then default_limit else limit

unfoldable pub pool_of : ℕ → ℕ → ℕ
pool_of limit candidates =
    let pool = if nat_eq candidates 0 then default_candidates else candidates in
    if ltb pool limit then limit else pool

module _ {F : Type 0} (scale : Scale F) where
  -- `lexicalWeight`
  unfoldable pub lexical_weight : F → F
  lexical_weight w =
      if scale.same w scale.floats.nought
      then scale.default_lexical_weight
      else if scale.above scale.floats.nought w
      then scale.floats.nought
      else w

abbrev pub Method : Type 0 → Type 0
Method A = Exec ℕ Error A

ask : {A : Type 0} → (ℕ → Result Error A) → Method A
ask answer n = (answer n, suc n)

module _ {F V R : Type 0} (scale : Scale F) (services : Services F V R) where
  search_by : Option (ℕ → String → ℕ → Result Error (List ℕ)) → String → ℕ → Method (List ℕ)
  unfolding ask
  search_by none query k = pure []
  search_by (some search) query k = ask (λ n. search n query k)

  -- `searchLexical`
  unfoldable pub search_lexical : String → ℕ → F → Method (List ℕ)
  unfolding search_by
  search_lexical query k weight =
      if scale.same weight scale.floats.nought then pure [] else search_by services.lexical query k

  describe_by : Option (ℕ → List ℕ → Result Error Described) → List (Candidate F) → Method Described
  unfolding ask
  describe_by none cs = pure (record { meta = []; superseded = [] })
  describe_by (some describe) [] = pure (record { meta = []; superseded = [] })
  describe_by (some describe) cs = ask (λ n. describe n (map (λ c. c.id) cs))

  -- `Pipeline.describe`
  unfoldable pub describe : List (Candidate F) → Method Described
  unfolding describe_by
  describe cs = describe_by services.catalog cs

  wrap : ℕ → Result Error R → Result Error R
  wrap id (ok r) = ok r
  wrap id (err e) = err (fetching id e)

  -- The loop over the ranking.
  unfoldable pub fetch_hits : List (Hit F R) → List (Candidate F) → Method (List (Hit F R))
  unfolding ask wrap
  fetch_hits hits [] = pure hits
  fetch_hits hits (c ∷ cs) = do
    found ← ask (λ n. wrap c.id (services.fetch n c.id))
    let hit : Hit F R = record {
      found = found;
      score = c.score;
      similarity = c.similarity;
      lexical = c.lexical;
      boost = c.boost;
    }
    fetch_hits (hits ++ hit ∷ []) cs

  -- What is left once the query is a vector.
  unfoldable pub run_vector : (String → String) → Request F → V → ℕ → ℕ → Method (Outcome F R)
  unfolding ask
  run_vector normalize req query limit pool = do
    matches ← ask (λ n. services.search n query pool)
    let weight = lexical_weight scale req.lexical_weight
    lexical ← search_lexical req.query pool weight
    let fused = fuse F scale.floats matches lexical weight
    known ← describe fused
    let ranked = rank scale normalize fused known req limit
    hits ← fetch_hits [] ranked.0
    pure (record {
      hits = hits;
      searched = services.size;
      considered = length fused;
      lexical_hits = length lexical;
      superseded_hidden = ranked.1.superseded;
      scope_excluded = ranked.1.out_of_scope;
    })

  unfoldable pub run : (String → String) → Request F → Method (Outcome F R)
  unfolding ask
  run normalize req = do
    if req.query == "" then fail empty_query else pure tt
    query ← ask (λ n. services.embed n req.query)
    run_vector normalize req query (limit_of req.limit)
        (pool_of (limit_of req.limit) req.candidates)
