-- ===== src/Record/Session.antt =====
-- record/session.go: the head of a conversation. A signed number that is not positive is 0; a time is
-- a number, and the zero time is 0.
use mnemosia.Prelude.{
  ℕ, suc, ◌+◌, ltb, nat_eq, Bool, true, false, ◌&&◌, not, List, [], ◌∷◌, Option, none, some, String,
  string_keys, ◌==◌, contains, length, if◌then◌else◌,
}
use Prim.Native.String.{len, ◌++◌ as text_append}
use mnemosia.Record.Invalid.{
  Invalid, missing_id, missing_schema_version, other_schema, many_tags, long_tag, empty_tag,
  no_version, no_title, no_parent_session, unknown_session_kind, long_title, long_summary,
  chunk_without_id, chunk_out_of_order,
}
use mnemosia.Record.Message.{is_blank}
use mnemosia.Record.Chunk.{ChunkRef, message_schema, is_empty}

abbrev pub SessionKind : Type 0
SessionKind = String

abbrev pub session_main : SessionKind
session_main = "main"

abbrev pub session_subagent : SessionKind
session_subagent = "subagent"

abbrev session_kinds : List SessionKind
session_kinds = session_main ∷ session_subagent ∷ "background" ∷ []

unfoldable pub is_session_kind : SessionKind → Bool
is_session_kind k = contains session_kinds k

pub record Project : Type 0 where
  pub cwd : String
  pub repo : String
  pub branch : String

pub record Agent : Type 0 where
  pub name : String
  pub version : String

pub record AgentRef : Type 0 where
  pub id : String
  pub name : String
  pub role : String

pub record Counts : Type 0 where
  pub messages : ℕ
  pub chunks : ℕ
  pub bytes : ℕ
  pub tokens_in : ℕ
  pub tokens_out : ℕ
  pub duration_ms : ℕ

pub record Fork : Type 0 where
  pub session_id : ℕ
  pub message_id : String

pub record Lineage : Type 0 where
  pub parent_session : Option ℕ
  pub forked_from : Option Fork
  pub resumed_from : Option ℕ
  pub children : List ℕ

-- record/memory.go, `Embedding`
pub record Embedding : Type 0 where
  pub model : String
  pub dim : ℕ

pub record Session : Type 0 where
  pub id : ℕ
  pub schema : String
  pub schema_version : ℕ
  pub version : ℕ
  pub title : String
  pub summary : String
  pub tags : List String
  pub project : Project
  pub created : ℕ
  pub updated : ℕ
  pub archived : Bool
  pub agent : Agent
  pub models : List String
  pub counts : Counts
  pub kind : SessionKind
  pub agent_ref : Option AgentRef
  pub lineage : Lineage
  pub head_message : String
  pub preserved_tail : List String
  pub chunks : List ChunkRef
  pub memories : List ℕ
  pub embedding : Embedding

-- `Project.Empty`
unfoldable pub is_unset : Project → Bool
is_unset p = p.cwd == "" && (p.repo == "" && p.branch == "")

-- `strings.Join`
unfoldable pub join_with : String → List String → String
join_with sep [] = ""
join_with sep (s ∷ []) = s
join_with sep (s ∷ rest) = text_append s (text_append sep (join_with sep rest))

add_text : String → List String → List String
add_text s rest = if s == "" then rest else s ∷ rest

-- `IndexText`
unfoldable pub index_text : Session → String
unfolding add_text
index_text s =
    let tags = if is_empty s.tags then [] else join_with " " s.tags ∷ [] in
    join_with "\n\n" (add_text s.title (add_text s.summary tags))

unfoldable pub count_messages : List ChunkRef → ℕ
count_messages [] = 0
count_messages (c ∷ rest) = c.n + count_messages rest

-- `Session.Messages`
unfoldable pub messages : Session → ℕ
messages s = count_messages s.chunks

unfoldable pub sum_bytes : List ChunkRef → ℕ
sum_bytes [] = 0
sum_bytes (c ∷ rest) = c.bytes + sum_bytes rest

-- `Session.ChunkBytes`
unfoldable pub chunk_bytes : Session → ℕ
chunk_bytes s = sum_bytes s.chunks

abbrev pub max_title_bytes : ℕ
max_title_bytes = 512

abbrev max_summary_bytes : ℕ
max_summary_bytes = 16384

abbrev max_tags : ℕ
max_tags = 32

abbrev max_tag_bytes : ℕ
max_tag_bytes = 64

-- The chunks from this place on: each has an id and is sequenced where it stands.
unfoldable pub chunks_validate : ℕ → List ChunkRef → Option Invalid
chunks_validate i [] = none
chunks_validate i (c ∷ rest) =
    let later = chunks_validate (suc i) rest in
    if nat_eq c.id 0
    then some (chunk_without_id i)
    else if nat_eq c.seq i
    then later
    else some (chunk_out_of_order i c.seq)

unfoldable pub has_parent : Option ℕ → Bool
has_parent none = false
has_parent (some p) = true

module _ (trim_space : String → String) where
  unfoldable pub tags_validate : List String → Option Invalid
  tags_validate [] = none
  tags_validate (tag ∷ rest) =
      let later = tags_validate rest in
      if is_blank trim_space tag
      then some empty_tag
      else if ltb max_tag_bytes (len tag)
      then some (long_tag (len tag))
      else later

  -- What `Validate` checks before the tags.
  unfoldable pub fields_validate : Session → Option Invalid
  fields_validate s =
      if nat_eq s.id 0
      then some missing_id
      else if not (s.schema == message_schema)
      then some (other_schema s.schema)
      else if nat_eq s.schema_version 0
      then some missing_schema_version
      else if nat_eq s.version 0
      then some no_version
      else if not (is_session_kind s.kind)
      then some (unknown_session_kind s.kind)
      else if is_blank trim_space s.title
      then some no_title
      else if ltb max_title_bytes (len s.title)
      then some (long_title (len s.title))
      else if ltb max_summary_bytes (len s.summary)
      then some (long_summary (len s.summary))
      else if ltb max_tags (length s.tags)
      then some (many_tags (length s.tags))
      else none

  -- `Session.Validate`
  unfoldable pub session_validate : Session → Option Invalid
  session_validate s = elim (fields_validate s) [
    | some e ↦ some e
    | none ↦ elim (tags_validate s.tags) [
      | some e ↦ some e
      | none ↦
          if s.kind == session_subagent && not (has_parent s.lineage.parent_session)
          then some no_parent_session
          else chunks_validate 0 s.chunks
    ]
  ]
