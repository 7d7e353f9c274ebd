-- ===== src/Recall/Tests.antt =====
-- Runs of recall/ on whole scores, and its theorems at them.
use mnemosia.Prelude.{
  ℕ, ◌+◌, ◌*◌, ◌/◌, ◌≡◌, refl, ltb, nat_eq, false, List, [], ◌∷◌, some, String, contains, arith,
  map_get, map_put,
}
use mnemosia.Prelude.Exec.{ok}
use mnemosia.Record.Kind.{kind_memory, kind_session}
use mnemosia.Index.Search.{Match}
use mnemosia.Recall.Fuse.{
  Candidate, Floats, fuse, put_matches, put_match, put_ranked, put_lexical, add_lexical, update_at,
}
use mnemosia.Recall.Filter.{Scale, boost, count_carried, is_empty, or_default}
use mnemosia.Recall.Rank.{
  Described, Request, rank, consider_all, consider, apply_filter, before, insert, stable_sort,
}
use mnemosia.Recall.Rank.Sorting.{IsLinear}
use mnemosia.Recall.Rank.Cut.{IsRanking, rank-IsRanking}
use mnemosia.Recall.Pipeline.{
  Services, Hit, run, run_vector, lexical_weight, limit_of, pool_of, search_lexical, describe,
  fetch_hits,
}
use mnemosia.Recall.Fuse.Union.{union, ids_of, match_ids, fuse-union}

-- Scores in millionths.
abbrev whole : Floats ℕ
whole = record {
  nought = 0;
  one = 1000000;
  plus = λ a b. a + b;
  share = λ w rank. w / (60 + rank);
  is_positive = λ a. ltb 0 a;
}

abbrev matches : List (Match ℕ)
matches = record { id = 4; score = 900 } ∷ record { id = 7; score = 800 } ∷ []

-- Record 9 is the lexical pass's alone, and it names 7 twice.
fuse-union_example :
    ids_of ℕ whole (fuse ℕ whole matches (7 ∷ 9 ∷ 7 ∷ []) 30000)
    ≡ union (match_ids ℕ whole matches) (7 ∷ 9 ∷ 7 ∷ [])
fuse-union_example = fuse-union ℕ whole matches (7 ∷ 9 ∷ 7 ∷ []) 30000

in_order : union (match_ids ℕ whole matches) (7 ∷ 9 ∷ 7 ∷ []) ≡ 4 ∷ 7 ∷ 9 ∷ []
unfolding union match_ids contains
in_order = refl

abbrev scale : Scale ℕ
scale = record {
  floats = whole;
  same = nat_eq;
  above = λ a b. ltb b a;
  graded = λ w n of. w * n / of;
  default_weights = record { tag = 2000; type = 670 };
  default_lexical_weight = 300000;
}

scale-IsLinear : IsLinear scale
scale-IsLinear = record {
  asym = λ a b h. ground arith;
  step = λ a b c h k. ground arith;
  open_as = λ a b. ground arith;
}

abbrev candidate : ℕ → ℕ → Candidate ℕ
candidate id score = record {
  id = id;
  similarity = 0;
  lexical = 0;
  fused = score;
  score = score;
  boost = 0;
}

-- Record 4 was replaced, 7 carries the tag that is asked for, and nothing is known of 9.
abbrev known : Described
known = record {
  meta =
      (4, record { kind = kind_memory; type = "fact"; tags = [] })
      ∷ (7, record { kind = kind_memory; type = "fact"; tags = "sia" ∷ [] })
      ∷ (8, record { kind = kind_session; type = ""; tags = [] })
      ∷ [];
  superseded = 4 ∷ [];
}

abbrev request : Request ℕ
request = record {
  query = "what is sia";
  limit = 2;
  scope = [];
  filter = record { types = []; tags = "sia" ∷ [] };
  weights = record { tag = 0; type = 0 };
  lexical_weight = 0;
  include_superseded = false;
  candidates = 0;
}

abbrev pool : List (Candidate ℕ)
pool = candidate 4 9000 ∷ candidate 8 8000 ∷ candidate 7 7000 ∷ candidate 9 8000 ∷ []

rank-IsRanking_example :
    IsRanking scale
      (λ t. t)
      pool
      known
      request
      2
      (rank scale (λ t. t) pool known request 2).0
      (rank scale (λ t. t) pool known request 2).1
rank-IsRanking_example = rank-IsRanking scale (λ t. t) pool known request 2 scale-IsLinear

ranked : rank scale (λ t. t) pool known request 2 ≡ (
  record (candidate 7 9000) { fused = 7000; boost = 2000 } ∷ candidate 8 8000 ∷ [],
  record { superseded = 1; out_of_scope = 0 },
)
unfolding rank consider_all consider apply_filter before insert stable_sort boost count_carried
    is_empty or_default contains map_get
ranked = refl

-- The index finds 4 and 7, the words 7 and 9; each record is fetched as its id.
abbrev services : Services ℕ String ℕ
services = record {
  embed = λ n text. ok text;
  size = 12;
  search = λ n query k. ok matches;
  lexical = some (λ n text k. ok (7 ∷ 9 ∷ []));
  catalog = some (λ n ids. ok known);
  fetch = λ n id. ok id;
}

abbrev hit : ℕ → ℕ → ℕ → ℕ → ℕ → Hit ℕ ℕ
hit id score similarity lexical boost = record {
  found = id;
  score = score;
  similarity = similarity;
  lexical = lexical;
  boost = boost;
}

recalled :
    (run scale services (λ t. t) request 0).0
    ≡ ok (record {
      hits = hit 7 23047 800 4918 2000 ∷ hit 9 4838 0 4838 0 ∷ [];
      searched = 12;
      considered = 3;
      lexical_hits = 2;
      superseded_hidden = 1;
      scope_excluded = 0;
    })
unfolding run run_vector lexical_weight limit_of pool_of search_lexical describe fetch_hits rank
    consider_all consider apply_filter before insert stable_sort boost count_carried is_empty
    or_default contains map_get map_put fuse put_matches put_match put_ranked put_lexical
    add_lexical update_at
recalled = refl
