-- ===== src/Record/Id.antt =====
-- record/id.go: an id from its text.
use mnemosia.Prelude.{ℕ, nat_eq, List, Option, none, some, String, length, if◌then◌else◌}
use mnemosia.Bytes.{of_bytes}
use mnemosia.Seal.Frame.{id_size}

-- `ParseID`, over `hex.DecodeString`.
unfoldable pub parse_id : (String → Option (List ℕ)) → String → Option ℕ
parse_id decode_hex text = elim (decode_hex text) [
  | none ↦ none
  | some bytes ↦ if nat_eq (length bytes) id_size then some (of_bytes bytes) else none
]
