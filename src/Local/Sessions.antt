-- ===== src/Local/Sessions.antt =====
-- local/sessions.go: the table of session heads, one function for each SQL statement on it. The
-- listing columns stand in the row beside the head's bytes.
pub mod Rows
pub mod Versions
use mnemosia.Prelude.{
  ℕ, suc, nat_eq, Bool, true, false, List, [], ◌∷◌, ◌++◌, Option, none, some, String, string_keys,
  ◌==◌, if◌then◌else◌, length,
}
use mnemosia.Record.Session.{Session, SessionKind, Project}

pub record HeadRow : Type 0 where
  pub session_id : ℕ
  pub version : ℕ
  pub title : String
  pub summary : String
  pub kind : SessionKind
  pub project : String
  pub agent : String
  pub parent : Option ℕ
  pub created_at : ℕ
  pub updated_at : ℕ
  pub archived : Bool
  pub messages : ℕ
  pub chunks : ℕ
  pub bytes : ℕ
  pub head : List ℕ

abbrev pub HeadRows : Type 0
HeadRows = List HeadRow

-- `ProjectKey`
unfoldable pub project_key : Project → String
project_key p = if p.repo == "" then p.cwd else p.repo

unfoldable pub row_of : Session → List ℕ → HeadRow
row_of s head = record {
  session_id = s.id;
  version = s.version;
  title = s.title;
  summary = s.summary;
  kind = s.kind;
  project = project_key s.project;
  agent = s.agent.name;
  parent = s.lineage.parent_session;
  created_at = s.created;
  updated_at = s.updated;
  archived = s.archived;
  messages = s.counts.messages;
  chunks = length s.chunks;
  bytes = s.counts.bytes;
  head = head;
}

unfoldable pub row_at : ℕ → HeadRows → Option HeadRow
row_at id [] = none
row_at id (r ∷ rest) =
    let later = row_at id rest in if nat_eq r.session_id id then some r else later

-- The arm of the conflict: all columns but the key and the time of creation.
unfoldable pub updated_row : HeadRow → HeadRow → HeadRow
updated_row old new = record new { created_at = old.created_at }

-- The row of that key is changed where it stands at the version that is expected; none is inserted.
unfoldable pub update_row : HeadRow → HeadRows → HeadRows
update_row new [] = []
update_row new (r ∷ rest) =
    let later = update_row new rest in
    if nat_eq r.session_id new.session_id then updated_row r new ∷ rest else r ∷ later

-- The statement of `PutSessionHead`: the rows after it, or nothing where it wrote no row.
unfoldable pub put_row : HeadRow → ℕ → HeadRows → Option HeadRows
put_row new expect rows = elim (row_at new.session_id rows) [
  | none ↦ some (rows ++ new ∷ [])
  | some r ↦ if nat_eq r.version expect then some (update_row new rows) else none
]

-- `PutSessionHead`: nothing is `ErrStaleHead`.
unfoldable pub put_session_head : Session → List ℕ → ℕ → HeadRows → Option HeadRows
put_session_head s head expect rows = put_row (row_of s head) expect rows

-- `GetSessionHead`
unfoldable pub get_session_head : ℕ → HeadRows → Option (List ℕ)
get_session_head id rows = elim (row_at id rows) [ none ↦ none | some r ↦ some r.head ]

-- `SessionTitle`
unfoldable pub session_title : ℕ → HeadRows → Option String
session_title id rows = elim (row_at id rows) [ none ↦ none | some r ↦ some r.title ]

-- `ForgetSessionHead`
unfoldable pub forget_session_head : ℕ → HeadRows → HeadRows
forget_session_head id [] = []
forget_session_head id (r ∷ rest) =
    let later = forget_session_head id rest in if nat_eq r.session_id id then later else r ∷ later

-- `CountSessions`
unfoldable pub count_sessions : HeadRows → ℕ
count_sessions rows = length rows
