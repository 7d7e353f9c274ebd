-- ===== src/Record/Kind.antt =====
-- record/kind.go: the classes of record, and the types of a memory.
use mnemosia.Prelude.{List, [], ◌∷◌, String, Bool, string_keys, contains}

abbrev pub Kind : Type 0
Kind = String

abbrev pub kind_memory : Kind
kind_memory = "memory"

abbrev pub kind_session : Kind
kind_session = "session"

abbrev pub kind_chunk : Kind
kind_chunk = "chunk"

abbrev pub types : List String
types = "fact" ∷ "preference" ∷ "insight" ∷ "doc" ∷ "profile" ∷ "correction" ∷ []

-- `Type.Valid`
unfoldable pub is_type : String → Bool
is_type t = contains types t
