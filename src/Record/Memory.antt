-- ===== src/Record/Memory.antt =====
-- record/memory.go and record/validate.go: one statement with the context that it needs. A float is
-- its 64 bits; a time is a number, and a version that is not positive is 0.
use mnemosia.Prelude.{
  ℕ, ltb, nat_eq, Bool, false, not, List, Option, none, some, String, string_keys, ◌==◌, length,
  if◌then◌else◌,
}
use Prim.Native.String.{len, ◌++◌ as text_append}
use mnemosia.Record.Kind.{Kind, kind_memory, is_type}
use mnemosia.Record.Invalid.{
  Invalid, missing_id, other_kind, missing_schema_version, unknown_type, no_statement,
  long_statement, no_context, long_context, many_tags, importance_outside, confidence_outside,
  ends_before_start,
}
use mnemosia.Record.Message.{is_blank}
use mnemosia.Record.Session.{Embedding, tags_validate}

pub record Entity : Type 0 where
  pub name : String
  pub type : String

pub record Source : Type 0 where
  pub origin : String
  pub session_id : String
  pub span : String
  pub client : String

pub record Memory : Type 0 where
  pub id : ℕ
  pub kind : Kind
  pub type : String
  pub schema_version : ℕ
  pub version : ℕ
  pub statement : String
  pub context : String
  pub keywords : List String
  pub tags : List String
  pub entities : List Entity
  pub created_at : ℕ
  pub updated_at : ℕ
  pub valid_from : Option ℕ
  pub valid_until : Option ℕ
  pub last_recalled_at : Option ℕ
  pub recall_count : ℕ
  pub importance : ℕ
  pub confidence : ℕ
  pub supersedes : Option ℕ
  pub superseded_by : Option ℕ
  pub links : List String
  pub source : Source
  pub embedding : Embedding

-- `Memory.IndexText`
unfoldable pub memory_text : Memory → String
memory_text m =
    if m.context == "" then m.statement else text_append m.statement (text_append "\n\n" m.context)

abbrev max_statement_bytes : ℕ
max_statement_bytes = 8192

abbrev max_context_bytes : ℕ
max_context_bytes = 8192

abbrev max_tags : ℕ
max_tags = 32

-- Both ends stand, and the later before the earlier.
ends_early : Option ℕ → Option ℕ → Bool
ends_early (some from) (some until) = ltb until from
ends_early from until = false

-- `is_outside x` is `x < 0 || x > 1`.
module _ (trim_space : String → String) (is_outside : ℕ → Bool) where
  identity_validate : Memory → Option Invalid
  identity_validate m =
      if nat_eq m.id 0
      then some missing_id
      else if not (m.kind == kind_memory)
      then some (other_kind m.kind)
      else if nat_eq m.schema_version 0
      then some missing_schema_version
      else if not (is_type m.type)
      then some (unknown_type m.type)
      else none

  texts_validate : Memory → Option Invalid
  texts_validate m =
      if is_blank trim_space m.statement
      then some no_statement
      else if ltb max_statement_bytes (len m.statement)
      then some (long_statement (len m.statement))
      else if is_blank trim_space m.context
      then some no_context
      else if ltb max_context_bytes (len m.context)
      then some (long_context (len m.context))
      else if ltb max_tags (length m.tags)
      then some (many_tags (length m.tags))
      else tags_validate trim_space m.tags

  judgement_validate : Memory → Option Invalid
  unfolding ends_early
  judgement_validate m =
      if is_outside m.importance
      then some importance_outside
      else if is_outside m.confidence
      then some confidence_outside
      else if ends_early m.valid_from m.valid_until
      then some ends_before_start
      else none

  -- `Memory.Validate`
  unfoldable pub memory_validate : Memory → Option Invalid
  unfolding identity_validate texts_validate judgement_validate
  memory_validate m = elim (identity_validate m) [
    | some e ↦ some e
    | none ↦ elim (texts_validate m) [ some e ↦ some e | none ↦ judgement_validate m ]
  ]
