-- ===== src/Record/Invalid.antt =====
-- record/validate.go, `ErrInvalid`: what is wrong with a record, one constructor for each message.
use mnemosia.Prelude.{ℕ, String}
use mnemosia.Record.Kind.{Kind}

pub data Invalid : Type 0 where
  missing_id missing_schema_version : Invalid
  other_kind : Kind → Invalid
  other_schema : String → Invalid
  -- of the tags and texts of a record
  many_tags long_tag : ℕ → Invalid
  empty_tag : Invalid
  -- of a memory
  unknown_type : String → Invalid
  no_statement no_context importance_outside confidence_outside ends_before_start : Invalid
  long_statement long_context : ℕ → Invalid
  -- of a message and its parts
  message_without_id unmeasured : Invalid
  long_message_id many_parts : ℕ → Invalid
  unknown_role no_parts part_without_type part_without_call : String → Invalid
  -- of a chunk
  chunk_without_session chunk_without_messages : Invalid
  -- of a session
  no_version no_title no_parent_session : Invalid
  unknown_session_kind : String → Invalid
  long_title long_summary chunk_without_id : ℕ → Invalid
  chunk_out_of_order : ℕ → ℕ → Invalid
  message_repeated : String → Invalid
