-- ===== src/Vault/Tests.antt =====
-- Runs of vault/ on a small conversation, and its theorems at them.
use mnemosia.Prelude.{
  ℕ, concat, ◌≡◌, refl, sym, ap, ◌∙◌, nat_eq, true, false, List, [], ◌∷◌, Option, none, some,
  String, ◌==◌, string_keys, arith, contains, Bool-cases, inl, inr,
}
use text.Mathlib.TextEquality.{eq_iff}
unfoldable use native.Mathlib.Decide.{ℕ_discrete}
use mnemosia.Prelude.Exec.{Result, ok, err, Post}
use mnemosia.Service.{Env, World, begin, failed}
use mnemosia.Packer.Cadence.{default_policy}
use mnemosia.Record.Message.{Message, is_blank}
use mnemosia.Record.Sample.{message}
use mnemosia.Record.Chunk.{Chunk, ChunkRef}
use mnemosia.Vault.Session.Valid.{IsWellFormed, AllWellFormed}
use mnemosia.Vault.Session.Valid.Operations.{performed, saves, performed-AllWellFormed}
use mnemosia.Record.Session.{
  session_validate, fields_validate, tags_validate, chunks_validate, is_session_kind, Session,
  Embedding,
}
use mnemosia.Local.Sessions.{HeadRow, row_of, row_at}
use mnemosia.Vault.Desk.{Desk, Vault}
use mnemosia.Vault.Desk.Keeps.{OnHeads}
use mnemosia.Vault.Request.{SaveSessionRequest}
use mnemosia.Record.Kind.{Kind, kind_chunk}
use mnemosia.Vault.Request.{last_id}
use mnemosia.Vault.Session.Load
use mnemosia.Vault.Session.Load.{transcript}
use mnemosia.Vault.Session.Load.Fill.{search_from, suffix, next_id, page}
use mnemosia.Vault.Session.Load.Pages.{AreStored, none_stored, one_stored}
use mnemosia.Vault.Session.Load.Slice.{has, IsDistinct, slice, transcript_lem}
use mnemosia.Vault.Session.Save.{save_session}
use mnemosia.Vault.Session.Save.Appends.{RoundTrip, Saved, WasOrSaved, save_session-Appends}

abbrev env : Env
env = record {
  on_account = λ calls. err (failed 1);
  on_walk = λ calls. ok [];
  on_pinned_slabs = λ calls. ok [];
  on_download = λ calls ref. err (failed 1);
  on_finalize = λ calls payloads. ok [];
  on_act = λ calls c. none;
  now = λ calls. 100;
}

string_discrete : Discrete String
string_discrete s t = elim (Bool-cases (s == t)) [
  | inl e ↦ yes ((eq_iff s t).0 e)
  | inr e ↦ no (λ same. ground (arith, (eq_iff s t).1 same, e))
]

session_discrete : Discrete Session
session_discrete = hlevel (ℕ_discrete, string_discrete)

abbrev model : Embedding
model = record { model = "m"; dim = 3 }

-- A conversation with no chunk as yet.
abbrev old : Session
old = record {
  id = 5;
  schema = "mnemosia.session/1";
  schema_version = 1;
  version = 3;
  title = "talk";
  summary = "";
  tags = [];
  project = record { cwd = ""; repo = ""; branch = "" };
  created = 1;
  updated = 1;
  archived = false;
  agent = record { name = ""; version = "" };
  models = [];
  counts = record {
    messages = 0;
    chunks = 0;
    bytes = 0;
    tokens_in = 0;
    tokens_out = 0;
    duration_ms = 0;
  };
  kind = "main";
  agent_ref = none;
  lineage = record {
    parent_session = none;
    forked_from = none;
    resumed_from = none;
    children = [];
  };
  head_message = "";
  preserved_tail = [];
  chunks = [];
  memories = [];
  embedding = model;
}

abbrev hello : Message
hello = message "m1"

abbrev request : SaveSessionRequest
request = record {
  id = 5;
  title = "";
  summary = "greeting";
  tags = [];
  project = record { cwd = ""; repo = ""; branch = "" };
  agent = record { name = ""; version = "" };
  models = [];
  kind = "";
  agent_ref = none;
  lineage = old.lineage;
  messages = hello ∷ [];
  preserved_tail = [];
  tokens_in = 1;
  tokens_out = 2;
  duration_ms = 0;
  archived = false;
  unarchive = false;
  durable = false;
}

abbrev ref : ChunkRef
ref = record { id = 9; seq = 0; first = "m1"; last = "m1"; n = 1; bytes = 2; cid = "c" }

-- What the request makes of it.
abbrev new : Session
new = record old {
  version = 4;
  summary = "greeting";
  chunks = ref ∷ [];
  counts = record old.counts { messages = 1; chunks = 1; bytes = 2; tokens_in = 1; tokens_out = 2 };
  head_message = "m1";
  updated = 100;
}

-- JSON that knows these two heads.
abbrev code : (s : Session) → Dec (s ≡ old) → Dec (s ≡ new) → Option (List ℕ)
code s (yes e) d = some []
code s (no n) (yes e) = some (0 ∷ [])
code s (no n) (no k) = none

abbrev unmarshal : List ℕ → Option Session
unmarshal [] = some old
unmarshal (b ∷ []) = some new
unmarshal (b ∷ c ∷ rest) = none

unmarshal_some : Option (List ℕ) → Option Session
unmarshal_some none = none
unmarshal_some (some head) = unmarshal head

unmarshal-code :
    (s : Session) (d : Dec (s ≡ old)) (e : Dec (s ≡ new)) (head : List ℕ)
    → code s d e ≡ some head
    → unmarshal head ≡ some s
unfolding unmarshal_some
unmarshal-code s (yes e) d head h = ap unmarshal_some (sym h) ∙ ap some (sym e)
unmarshal-code s (no n) (yes e) head h = ap unmarshal_some (sym h) ∙ ap some (sym e)
unmarshal-code s (no n) (no k) head h = ground arith

abbrev vault : Vault
vault = record {
  env = env;
  on_new_id = λ calls. ok 9;
  on_hash = λ calls body. ok "c";
  on_seal = λ calls body. ok (0 ∷ body);
  on_embed = λ calls text. ok (1 ∷ 2 ∷ 3 ∷ []);
  trim_space = λ s. s;
  to_lower = λ s. s;
  message_bytes = λ m. some 40;
  marshal_chunk = λ c. some (5 ∷ 6 ∷ []);
  marshal_session = λ s. code s (session_discrete s old) (session_discrete s new);
  unmarshal_session = unmarshal;
  model = model;
  packer = record { online = true; has_callback = true; policy = default_policy 100; owner = "me" };
}

vault-RoundTrip : RoundTrip vault
vault-RoundTrip s head h = unmarshal-code s (session_discrete s old) (session_discrete s new) head h

abbrev row : HeadRow
row = row_of old []

abbrev world : World Desk
world = begin (record {
  packer = record {
    queue = [];
    state = record { records = 0; bytes = 0; oldest = none; newest = none };
  };
  bodies = [];
  heads = row ∷ [];
  head_reads = 0;
})

old_reads : vault.unmarshal_session row.head ≡ some old
unfolding row_of
old_reads = refl

old_found : row_at request.id world.device.heads ≡ some row
unfolding row_of row_at
old_found = ground arith

existing : nat_eq request.id 0 ≡ false
existing = ground arith

save_session-Appends_example :
    Post
      (λ r after. OnHeads (Saved vault old request r.chunks) after)
      (λ _ after. OnHeads (WasOrSaved vault old request row) after)
      (save_session vault request world)
save_session-Appends_example =
    save_session-Appends vault old request row vault-RoundTrip old_reads refl (omega arith) world
      existing old_found

abbrev pair : Session
pair = record old { chunks = record ref { last = "m2"; n = 2 } ∷ [] }

abbrev fetch_body : ℕ → Result Load.Error (Kind × List ℕ)
fetch_body id = ok (kind_chunk, 5 ∷ 6 ∷ [])

abbrev unmarshal_chunk : List ℕ → Option Chunk
unmarshal_chunk body = some (record {
  id = 9;
  kind = kind_chunk;
  schema = "mnemosia.session/1";
  schema_version = 1;
  session = 5;
  seq = 0;
  messages = message "m1" ∷ message "m2" ∷ [];
})

abbrev groups : List (List Message)
groups = (message "m1" ∷ message "m2" ∷ []) ∷ []

pair-AreStored : AreStored fetch_body unmarshal_chunk pair.chunks groups
unfolding last_id
pair-AreStored =
    one_stored _ _ _ _ _
      (record {
        body = 5 ∷ 6 ∷ [];
        chunk = _;
        fetched = refl;
        decodes = refl;
        messages = refl;
        first = refl;
        last = refl;
      })
      none_stored

pair-IsDistinct : IsDistinct (concat groups)
unfolding has
pair-IsDistinct = (refl, (refl, tt))

from_the_second :
    (transcript fetch_body unmarshal_chunk pair "m2" 1
      (record { chunk_reads = 0; chunk_bytes = 0 })).0
    ≡ ok (message "m2" ∷ [], none)
unfolding slice suffix search_from page next_id
from_the_second =
    transcript_lem fetch_body unmarshal_chunk pair "m2" 1 groups
      (record { chunk_reads = 0; chunk_bytes = 0 }) pair-AreStored pair-IsDistinct

transcript_lem_example :
    (transcript fetch_body unmarshal_chunk pair "" 1
      (record { chunk_reads = 0; chunk_bytes = 0 })).0
    ≡ slice "" 1 (concat groups)
transcript_lem_example =
    transcript_lem fetch_body unmarshal_chunk pair "" 1 groups
      (record { chunk_reads = 0; chunk_bytes = 0 }) pair-AreStored pair-IsDistinct

old-valid : session_validate vault.trim_space old ≡ none
unfolding session_validate fields_validate tags_validate chunks_validate is_session_kind is_blank
    contains
old-valid = refl

read_by : Option HeadRow → Option Session
read_by none = none
read_by (some r) = unmarshal r.head

version_by : Option HeadRow → ℕ
version_by none = 0
version_by (some r) = r.version

row-IsWellFormed :
    (id : ℕ) (r : HeadRow) → nat_eq 5 id ≡ true → some row ≡ some r → IsWellFormed vault id r
unfolding read_by version_by row_of
row-IsWellFormed id r same h = record {
  session = old;
  reads = sym (ap read_by h);
  its_id = ground (arith, same);
  its_version = ap version_by h;
  valid = old-valid;
}

stored-AllWellFormed : AllWellFormed vault world.device.heads
unfolding row_of row_at
stored-AllWellFormed = record {
  each = λ id r found. elim (Bool-cases (nat_eq 5 id)) [
    | inl same ↦ row-IsWellFormed id r same (ground (arith, same, found))
    | inr other ↦ ground (arith, other, found)
  ];
}

performed-AllWellFormed_example :
    AllWellFormed vault (performed vault (saves request) world).device.heads
performed-AllWellFormed_example =
    performed-AllWellFormed vault vault-RoundTrip (saves request) world stored-AllWellFormed
