-- ===== src/Vault/Rebuild/Origin.antt =====
-- vault/rebuild.go: where each field of a rebuilt head came from.
use mnemosia.Prelude.{
  ℕ, ltb, List, [], ◌∷◌, Option, none, some, String, string_keys, map_get, map_put, if◌then◌else◌,
}

pub data FieldOrigin : Type 0 where
  of_chunk derived observed reverse_edge synthesised lost : FieldOrigin

abbrev pub head_fields : List String
head_fields =
    "id" ∷ "schema" ∷ "schemaVersion" ∷ "version" ∷ "title" ∷ "summary" ∷ "tags" ∷ "project"
    ∷ "created" ∷ "updated" ∷ "archived" ∷ "agent" ∷ "agentRef" ∷ "models" ∷ "counts.messages"
    ∷ "counts.chunks" ∷ "counts.bytes" ∷ "counts.tokens" ∷ "counts.durationMs" ∷ "kind" ∷ "lineage"
    ∷ "headMessage" ∷ "preservedTail" ∷ "chunks" ∷ "links.memories" ∷ "embedding" ∷ []

abbrev pub Origins : Type 0
Origins = List (String × FieldOrigin)

-- `originRank`
unfoldable pub origin_rank : FieldOrigin → ℕ
origin_rank of_chunk = 0
origin_rank derived = 1
origin_rank observed = 2
origin_rank reverse_edge = 3
origin_rank synthesised = 4
origin_rank lost = 5

unfoldable pub all_lost : List String → Origins → Origins
all_lost [] origins = origins
all_lost (field ∷ rest) origins = all_lost rest (map_put origins field lost)

-- Several fields that came in one way.
unfoldable pub came : FieldOrigin → List String → Origins → Origins
came origin [] origins = origins
came origin (field ∷ rest) origins = came origin rest (map_put origins field origin)

weaker : FieldOrigin → Option FieldOrigin → FieldOrigin
weaker origin none = origin
weaker origin (some existing) =
    if ltb (origin_rank existing) (origin_rank origin) then origin else existing

-- `mergeOrigins`
unfoldable pub merge_origins : Origins → Origins → Origins
unfolding weaker
merge_origins into [] = into
merge_origins into ((field, origin) ∷ rest) =
    merge_origins (map_put into field (weaker origin (map_get into field))) rest
