-- ===== src/Recall/Fuse/Union.antt =====
-- Which records come out of the two rankings, and in which order.
use mnemosia.Prelude.{
  ℕ, zero, suc, ◌+◌, ◌≡◌, refl, sym, ap, ◌∙◌, subst, Bool, true, false, List, [], ◌∷◌, ◌++◌,
  append-nil, append_assoc, Option, none, some, length, map, map_get, map_put, map_get-map_put,
  contains, contains-snoc, number_keys, arith, if◌then◌else◌,
}
use mnemosia.Index.Search.{Match}
use mnemosia.Recall.Fuse.{
  Candidate, Fusing, Floats, put_match, put_matches, add_lexical, update_at, put_lexical,
  put_ranked, score_fused, fuse,
}

-- The ids of one list after those of another, each of the first list's that is not there yet.
unfoldable pub union : List ℕ → List ℕ → List ℕ
union seen [] = seen
union seen (id ∷ ids) = union (if contains seen id then seen else seen ++ id ∷ []) ids

module _ (F : Type 0) (floats : Floats F) where
  unfoldable pub ids_of : List (Candidate F) → List ℕ
  ids_of [] = []
  ids_of (c ∷ cs) = c.id ∷ ids_of cs

  unfoldable pub match_ids : List (Match F) → List ℕ
  match_ids [] = []
  match_ids (m ∷ ms) = m.id ∷ match_ids ms

  is_some : Option ℕ → Bool
  is_some none = false
  is_some (some n) = true

  -- The map knows the ids of the candidates and no other.
  record Coherent (s : Fusing F) : Type 0 where
    knows : (id : ℕ) → is_some (map_get s.at id) ≡ contains (ids_of s.fused) id

  ids_of-append :
      (cs : List (Candidate F)) (c : Candidate F) → ids_of (cs ++ c ∷ []) ≡ ids_of cs ++ c.id ∷ []
  unfolding ids_of
  ids_of-append [] c = refl
  ids_of-append (x ∷ cs) c = ap (◌∷◌ x.id) (ids_of-append cs c)

  ids_of-update_at :
      (i : ℕ) (contribution : F) (cs : List (Candidate F))
      → ids_of (update_at F floats i (add_lexical F floats contribution) cs) ≡ ids_of cs
  unfolding ids_of update_at add_lexical
  ids_of-update_at zero k [] = refl
  ids_of-update_at (suc i) k [] = refl
  ids_of-update_at zero k (c ∷ cs) = ground arith
  ids_of-update_at (suc i) k (c ∷ cs) = ap (◌∷◌ c.id) (ids_of-update_at i k cs)

  ids_of-score_fused :
      (cs : List (Candidate F)) → ids_of (map (score_fused F floats) cs) ≡ ids_of cs
  unfolding ids_of score_fused
  ids_of-score_fused [] = refl
  ids_of-score_fused (c ∷ cs) = ap (◌∷◌ c.id) (ids_of-score_fused cs)

  -- A candidate more, and its place in the map.
  added :
      (s : Fusing F) (c : Candidate F) (place : ℕ)
      → Coherent s
      → Coherent (record { fused = s.fused ++ c ∷ []; at = map_put s.at c.id place })
  unfolding is_some
  added s c place h = record {
    knows = λ id. ground (
      arith,
      h.knows id,
      map_get-map_put s.at c.id place id,
      ap (λ l. contains l id) (ids_of-append s.fused c),
      contains-snoc (ids_of s.fused) c.id id,
    );
  }

  put_matches-ids :
      (i : ℕ) (ms : List (Match F)) (s : Fusing F)
      → Coherent s
      → Coherent (put_matches F floats i ms s)
        × (ids_of (put_matches F floats i ms s).fused ≡ ids_of s.fused ++ match_ids ms)
  unfolding put_matches put_match match_ids
  put_matches-ids i [] s h = (h, sym (append-nil (ids_of s.fused)))
  put_matches-ids i (m ∷ ms) s h =
      let (g, e) =
        put_matches-ids (suc i) ms (put_match F floats i m s) (added s _ (length s.fused) h) in
      (
        g,
        e
            ∙ ap (λ l. l ++ match_ids ms) (ids_of-append s.fused _)
            ∙ append_assoc (ids_of s.fused) (m.id ∷ []) (match_ids ms),
      )

  -- A ranked id is added where it is not there, and changes no id where it is.
  ranked :
      (weight : F) (rank id : ℕ) (s : Fusing F) (place : Option ℕ)
      → map_get s.at id ≡ place
      → Coherent s
      → Coherent (put_lexical F floats weight rank id s)
        × (ids_of (put_lexical F floats weight rank id s).fused
            ≡ (if contains (ids_of s.fused) id then ids_of s.fused else ids_of s.fused ++ id ∷ []))
  unfolding put_lexical is_some
  ranked weight rank id s none e h =
      let new : contains (ids_of s.fused) id ≡ false = sym (h.knows id) ∙ ap is_some e in
      (
        subst
            (λ place. Coherent (elim place as (λ _. Fusing F) [
              | some i ↦ record s {
                fused =
                    update_at F floats i (add_lexical F floats (floats.share weight (rank + 1)))
                      s.fused;
              }
              | none ↦ record {
                fused = s.fused ++ fresh ∷ [];
                at = map_put s.at id (length s.fused);
              }
            ]))
            (sym e) (added s fresh (length s.fused) h),
        ground (arith, e, new, ids_of-append s.fused fresh),
      )
    where
      fresh : Candidate F
      fresh = record {
        id = id;
        similarity = floats.nought;
        lexical = floats.share weight (rank + 1);
        fused = floats.share weight (rank + 1);
        score = floats.nought;
        boost = floats.nought;
      }
  ranked weight rank id s (some i) e h =
      let there : contains (ids_of s.fused) id ≡ true = sym (h.knows id) ∙ ap is_some e in
      let same = ids_of-update_at i (floats.share weight (rank + 1)) s.fused in
      (record { knows = λ j. ground (arith, e, h.knows j, same) }, ground (arith, e, there, same))

  put_ranked-ids :
      (weight : F) (rank : ℕ) (ids : List ℕ) (s : Fusing F)
      → Coherent s
      → ids_of (put_ranked F floats weight rank ids s).fused ≡ union (ids_of s.fused) ids
  unfolding put_ranked union
  put_ranked-ids weight rank [] s h = refl
  put_ranked-ids weight rank (id ∷ ids) s h =
      let (g, e) = ranked weight rank id s (map_get s.at id) refl h in
      put_ranked-ids weight (suc rank) ids (put_lexical F floats weight rank id s) g
      ∙ ap (λ l. union l ids) e

  -- What two rankings are fused to is their union, whatever the weights: the records of the vector
  -- pass in its order, and then each record that only the lexical pass found, once, in the order of
  -- its best rank.
  pub fuse-union :
      (matches : List (Match F)) (lexical : List ℕ) (weight : F)
      → ids_of (fuse F floats matches lexical weight) ≡ union (match_ids matches) lexical
  unfolding fuse ids_of is_some map_get contains
  fuse-union matches lexical weight =
      let (g, e) =
        put_matches-ids 0 matches (record { fused = []; at = [] })
          (record { knows = λ id. refl }) in
      ids_of-score_fused
        (put_ranked F floats weight 0 lexical
          (put_matches F floats 0 matches (record { fused = []; at = [] }))).fused
      ∙ put_ranked-ids weight 0 lexical
          (put_matches F floats 0 matches (record { fused = []; at = [] })) g
      ∙ ap (λ l. union l lexical) e
