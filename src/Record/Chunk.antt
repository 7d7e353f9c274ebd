-- ===== src/Record/Chunk.antt =====
-- record/chunk.go: slices of a transcript, and how messages are divided into them. What a message
-- takes as JSON is a parameter; a sequence number is a natural, as all that write one count from 0.
pub mod Split
use mnemosia.Prelude.{
  ℕ, ◌+◌, ◌*◌, ltb, nat_eq, Bool, true, false, ◌&&◌, not, List, [], ◌∷◌, ◌++◌, Option, none, some,
  String, string_keys, ◌==◌, if◌then◌else◌,
}
use mnemosia.Record.Kind.{Kind, kind_chunk}
use mnemosia.Record.Invalid.{
  Invalid, missing_id, missing_schema_version, other_kind, other_schema, chunk_without_session,
  chunk_without_messages,
}
use mnemosia.Record.Message.{Message, messages_validate}

abbrev pub chunk_target_bytes : ℕ
chunk_target_bytes = 256 * 1024

-- record/message.go, `MessageSchema`
abbrev pub message_schema : String
message_schema = "mnemosia.session/1"

-- record/memory.go, `SchemaVersion`
abbrev pub schema_version_now : ℕ
schema_version_now = 1

pub record Chunk : Type 0 where
  pub id : ℕ
  pub kind : Kind
  pub schema : String
  pub schema_version : ℕ
  pub session : ℕ
  pub seq : ℕ
  pub messages : List Message

pub record ChunkRef : Type 0 where
  pub id : ℕ
  pub seq : ℕ
  pub first : String
  pub last : String
  pub n : ℕ
  pub bytes : ℕ
  pub cid : String

unfoldable pub is_empty : {A : Type 0} → List A → Bool
is_empty [] = true
is_empty (x ∷ xs) = false

module _ (trim_space : String → String) where
  -- `Chunk.Validate`
  unfoldable pub chunk_validate : Chunk → Option Invalid
  chunk_validate c =
      if nat_eq c.id 0
      then some missing_id
      else if not (c.kind == kind_chunk)
      then some (other_kind c.kind)
      else if not (c.schema == message_schema)
      then some (other_schema c.schema)
      else if nat_eq c.schema_version 0
      then some missing_schema_version
      else if nat_eq c.session 0
      then some chunk_without_session
      else if is_empty c.messages
      then some chunk_without_messages
      else messages_validate trim_space c.messages

-- The groups that are closed, the open one, and its bytes.
pub record Splitting : Type 0 where
  pub out : List (List Message)
  pub group : List Message
  pub group_bytes : ℕ

abbrev pub no_groups : Splitting
no_groups = record { out = []; group = []; group_bytes = 0 }

unfoldable pub put_message : ℕ → Message → ℕ → Splitting → Splitting
put_message target m size s =
    if not (is_empty s.group) && ltb target (s.group_bytes + size)
    then record { out = s.out ++ s.group ∷ []; group = m ∷ []; group_bytes = size }
    else record s { group = s.group ++ m ∷ []; group_bytes = s.group_bytes + size }

unfoldable pub close_group : Splitting → List (List Message)
close_group s = if is_empty s.group then s.out else s.out ++ s.group ∷ []

unfoldable pub target_or_default : ℕ → ℕ
target_or_default target = if nat_eq target 0 then chunk_target_bytes else target

unfoldable pub groups_of : Option Splitting → Option (List (List Message))
groups_of none = none
groups_of (some s) = some (close_group s)

module _ (message_bytes : Message → Option ℕ) where
  unfoldable pub put_messages : ℕ → Splitting → List Message → Option Splitting
  put_messages target s [] = some s
  put_messages target s (m ∷ ms) = elim (message_bytes m) [
    | none ↦ none
    | some size ↦ put_messages target (put_message target m size s) ms
  ]

  -- `SplitMessages`; a target that is not positive is 0.
  unfoldable pub split_messages : List Message → ℕ → Option (List (List Message))
  unfolding groups_of
  split_messages messages target =
      groups_of (put_messages (target_or_default target) no_groups messages)
