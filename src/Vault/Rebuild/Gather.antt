-- ===== src/Vault/Rebuild/Gather.antt =====
-- vault/rebuild.go: the chunks that the vault can reach, by the conversation that each names.
use mnemosia.Prelude.{
  ℕ, suc, ltb, nat_eq, Bool, true, false, not, ◌||◌, List, [], ◌∷◌, ◌++◌, Option, none, some,
  string_keys, number_keys, ◌==◌, contains, map_get, map_put, if◌then◌else◌,
}
use mnemosia.Record.Kind.{Kind}
use mnemosia.Record.Chunk.{Chunk}
use mnemosia.Manifest.Entry.{Entry}

unfoldable pub entry_ids : Kind → List ℕ → List Entry → List ℕ
entry_ids kind out [] = out
entry_ids kind out (e ∷ rest) =
    entry_ids kind (if not (e.kind == kind) || contains out e.id then out else out ++ e.id ∷ [])
      rest

unfoldable pub held_ids : List ℕ → List ℕ → List ℕ
held_ids out [] = out
held_ids out (id ∷ rest) = held_ids (if contains out id then out else out ++ id ∷ []) rest

-- `recordIDs`, of the catalog's entries and the ids that the device lists.
unfoldable pub record_ids : Kind → List Entry → List ℕ → List ℕ
record_ids kind entries held = held_ids (entry_ids kind [] entries) held

-- local/body.go, `BodyIDsOfKind`. The rows stand in the order in which they were made; of two that
-- were made within a millisecond the code lists the lower id first.
unfoldable pub body_ids_of_kind : Kind → List (ℕ × (Kind × List ℕ)) → List ℕ
body_ids_of_kind kind [] = []
body_ids_of_kind kind ((id, (k, body)) ∷ rest) =
    let others = body_ids_of_kind kind rest in if k == kind then id ∷ others else others

abbrev pub Groups : Type 0
Groups = List (ℕ × List Chunk)

-- The groups, the order in which their sessions were first seen, and what the report counts.
pub record Gathered : Type 0 where
  pub groups : Groups
  pub order : List ℕ
  pub chunks : ℕ
  pub unreadable : ℕ

abbrev pub nothing_gathered : Gathered
nothing_gathered = record { groups = []; order = []; chunks = 0; unreadable = 0 }

abbrev pub group_of : Option (List Chunk) → List Chunk
group_of none = []
group_of (some cs) = cs

abbrev is_seen : Option (List Chunk) → Bool
is_seen none = false
is_seen (some cs) = true

-- One chunk of the list, where it could be read.
unfoldable pub file_chunk : Option Chunk → Gathered → Gathered
file_chunk none g = record g { unreadable = suc g.unreadable }
file_chunk (some c) g =
    let found = map_get g.groups c.session in
    if nat_eq c.session 0 then g else record {
      groups = map_put g.groups c.session (group_of found ++ c ∷ []);
      order = if is_seen found then g.order else g.order ++ c.session ∷ [];
      chunks = suc g.chunks;
      unreadable = g.unreadable;
    }

-- `sort.SliceStable` by the sequence number.
unfoldable pub insert_by_seq : Chunk → List Chunk → List Chunk
insert_by_seq c [] = c ∷ []
insert_by_seq c (x ∷ xs) =
    let rest = insert_by_seq c xs in if ltb x.seq c.seq then x ∷ rest else c ∷ x ∷ xs

unfoldable pub sort_by_seq : List Chunk → List Chunk
sort_by_seq [] = []
sort_by_seq (c ∷ cs) = insert_by_seq c (sort_by_seq cs)

unfoldable pub sort_groups : Groups → Groups
sort_groups [] = []
sort_groups ((id, cs) ∷ rest) = (id, sort_by_seq cs) ∷ sort_groups rest

module _ (read_chunk : ℕ → Option Chunk) where
  unfoldable pub file_chunks : List ℕ → Gathered → Gathered
  file_chunks [] g = g
  file_chunks (id ∷ ids) g = file_chunks ids (file_chunk (read_chunk id) g)

  -- `groupChunksBySession`, of the ids that `chunkIDs` lists.
  unfoldable pub group_chunks_by_session : List ℕ → Gathered
  group_chunks_by_session ids =
      let g = file_chunks ids nothing_gathered in record g { groups = sort_groups g.groups }

unfoldable pub gap_from : ℕ → List Chunk → Bool
gap_from i [] = false
gap_from i (c ∷ cs) = not (nat_eq c.seq i) || gap_from (suc i) cs

-- `hasSequenceGap`
unfoldable pub has_sequence_gap : List Chunk → Bool
has_sequence_gap cs = gap_from 0 cs
