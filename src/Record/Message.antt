-- ===== src/Record/Message.antt =====
-- record/message.go: the messages of a conversation. Raw JSON is a list of bytes.
use mnemosia.Prelude.{
  ℕ, suc, ltb, nat_eq, Bool, ◌||◌, List, [], ◌∷◌, Option, none, some, String, string_keys, ◌==◌,
  contains, if◌then◌else◌,
}
use mnemosia.Record.Invalid.{
  Invalid, message_without_id, long_message_id, many_parts, unknown_role, no_parts,
  part_without_type, part_without_call,
}
use Prim.Native.String.{len}

abbrev pub Role : Type 0
Role = String

abbrev pub PartType : Type 0
PartType = String

abbrev pub roles : List Role
roles = "user" ∷ "assistant" ∷ "system" ∷ "tool" ∷ []

abbrev pub tool_call : PartType
tool_call = "toolCall"

abbrev pub tool_result : PartType
tool_result = "toolResult"

abbrev part_types : List PartType
part_types = "text" ∷ "reasoning" ∷ tool_call ∷ tool_result ∷ "file" ∷ "resourceLink" ∷ []

unfoldable pub is_role : Role → Bool
is_role r = contains roles r

unfoldable pub is_part_type : PartType → Bool
is_part_type t = contains part_types t

abbrev Ext : Type 0
Ext = List (String × List ℕ)

-- The fields of a part but its content.
pub record PartFields : Type 0 where
  pub type : PartType
  pub text : String
  pub signature : String
  pub call_id : String
  pub name : String
  pub input : List ℕ
  pub is_error : Bool
  pub media_type : String
  pub ref : String
  pub filename : String
  pub bytes : ℕ
  pub sha256 : String
  pub uri : String
  pub ext : Ext

mutual
  pub data Part : Type 0 where
    part : PartFields → Parts → Part

  pub data Parts : Type 0 where
    empty : Parts
    more : Part → Parts → Parts

pub record Usage : Type 0 where
  pub input_tokens : ℕ
  pub output_tokens : ℕ
  pub cache_read_tokens : ℕ
  pub cache_write_tokens : ℕ
  pub reasoning_tokens : ℕ

pub record MessageMeta : Type 0 where
  pub model : String
  pub stop_reason : String
  pub usage : Usage
  pub agent : String
  pub skill : String
  pub memory_refs : List ℕ

pub record Message : Type 0 where
  pub id : String
  pub role : Role
  pub parts : Parts
  pub created : Option ℕ
  pub parent : String
  pub meta : MessageMeta
  pub ext : Ext

abbrev max_message_id_bytes : ℕ
max_message_id_bytes = 256

abbrev max_parts_per_message : ℕ
max_parts_per_message = 1024

unfoldable pub count_parts : Parts → ℕ
count_parts empty = 0
count_parts (more p ps) = suc (count_parts ps)

module _ (trim_space : String → String) where
  -- `strings.TrimSpace(s) == ""`
  unfoldable pub is_blank : String → Bool
  is_blank s = trim_space s == ""

  fields_validate : String → PartFields → Option Invalid
  unfolding is_blank
  fields_validate message_id f =
      if is_blank f.type
      then some (part_without_type message_id)
      else if f.type == tool_call || f.type == tool_result
      then (if is_blank f.call_id then some (part_without_call message_id) else none)
      else none

  unfoldable mutual
    unfolding fields_validate

    pub part_validate : String → Part → Option Invalid
    part_validate message_id (part f content) = elim (fields_validate message_id f) [
      | some e ↦ some e
      | none ↦ parts_validate message_id content
    ]

    pub parts_validate : String → Parts → Option Invalid
    parts_validate message_id empty = none
    parts_validate message_id (more p ps) = elim (part_validate message_id p) [
      | some e ↦ some e
      | none ↦ parts_validate message_id ps
    ]

  -- `Message.Validate`
  unfoldable pub message_validate : Message → Option Invalid
  message_validate m =
      if is_blank m.id
      then some message_without_id
      else if ltb max_message_id_bytes (len m.id)
      then some (long_message_id (len m.id))
      else if is_role m.role
      then (if nat_eq (count_parts m.parts) 0
          then some (no_parts m.id)
          else if ltb max_parts_per_message (count_parts m.parts)
          then some (many_parts (count_parts m.parts))
          else parts_validate m.id m.parts)
      else some (unknown_role m.role)

  unfoldable pub messages_validate : List Message → Option Invalid
  messages_validate [] = none
  messages_validate (m ∷ ms) = elim (message_validate m) [
    | some e ↦ some e
    | none ↦ messages_validate ms
  ]
