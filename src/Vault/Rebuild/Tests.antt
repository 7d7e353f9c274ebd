-- ===== src/Vault/Rebuild/Tests.antt =====
-- A rebuild of a small conversation, and its theorem at it.
use mnemosia.Prelude.{
  ℕ, ◌≡◌, refl, sym, ap, nat_eq, false, true, List, [], ◌∷◌, map, Option, none, some, String, ◌==◌,
  string_keys, number_keys, arith, contains, Bool-cases, inl, inr, if◌then◌else◌, include,
}
use text.Mathlib.TextEquality.{eq_iff}
use native.Mathlib.Decide.{ℕ_discrete}
use mnemosia.Prelude.Exec.{ok, err, Post}
use mnemosia.Service.{Env, World, begin, failed}
use mnemosia.Packer.Cadence.{default_policy}
use mnemosia.Record.Kind.{kind_chunk}
use mnemosia.Record.Message.{
  Message, is_role, is_blank, message_validate, messages_validate, count_parts, part_validate,
}
use mnemosia.Record.Sample.{message}
use mnemosia.Record.Chunk.{Chunk, ChunkRef, chunk_validate, is_empty}
use mnemosia.Record.Session.{Session, join_with}
use mnemosia.Local.Sessions.{row_at}
use mnemosia.Vault.Desk.{Desk, Vault}
use mnemosia.Vault.Request.{append_unique, first_id, last_id}
use mnemosia.Vault.Rebuild.Facts.{
  Texts, observe_transcript, observe_onto, observe_messages, observe_message, synthesise_title,
  truncate_title, opening, part_text, first_text, merge_ids, include_all,
}
use mnemosia.Vault.Rebuild.Gather.{group_chunks_by_session, has_sequence_gap}
use mnemosia.Vault.Rebuild.Head.{draft_head, rebuild_head}
use mnemosia.Vault.Rebuild.Sequence.{Reorders, swapped, of_session, chunks_in}
use mnemosia.Vault.Rebuild.Same.{Answers, AreRefsOf, no_chunk, one_chunk, Never}
use mnemosia.Vault.Rebuild.Valid.{AreValid, Titled}
use mnemosia.Vault.Rebuild.Whole.{IsWritten, Restored, rebuild_head-Restored}

string_discrete : Discrete String
string_discrete s t = elim (Bool-cases (s == t)) [
  | inl e ↦ yes ((eq_iff s t).0 e)
  | inr e ↦ no (λ same. ground (arith, (eq_iff s t).1 same, e))
]

session_discrete : Discrete Session
session_discrete = hlevel (ℕ_discrete, string_discrete)

abbrev said : String → ℕ → Message
said id at = record (message id) { created = some at }

abbrev chunk : ℕ → ℕ → ℕ → Message → Chunk
chunk id session seq m = record {
  id = id;
  kind = kind_chunk;
  schema = "mnemosia.session/1";
  schema_version = 1;
  session = session;
  seq = seq;
  messages = m ∷ [];
}

abbrev first_chunk : Chunk
first_chunk = chunk 9 5 0 (said "m1" 7)

abbrev second_chunk : Chunk
second_chunk = chunk 8 5 1 (said "m2" 11)

-- The second chunk is listed first, one cannot be read, and one is another conversation's.
abbrev ids : List ℕ
ids = 8 ∷ 4 ∷ 3 ∷ 9 ∷ []

abbrev read_chunk : ℕ → Option Chunk
read_chunk id =
    if nat_eq id 8
    then some second_chunk
    else if nat_eq id 9
    then some first_chunk
    else if nat_eq id 3
    then some (chunk 3 6 0 (said "x" 2))
    else none

abbrev refs : List ChunkRef
refs =
    record { id = 9; seq = 0; first = "m1"; last = "m1"; n = 1; bytes = 2; cid = "c" }
    ∷ record { id = 8; seq = 1; first = "m2"; last = "m2"; n = 1; bytes = 2; cid = "c" }
    ∷ []

abbrev rebuilt : Session
rebuilt = record {
  id = 5;
  schema = "mnemosia.session/1";
  schema_version = 1;
  version = 1;
  title = "hello";
  summary = "";
  tags = [];
  project = record { cwd = ""; repo = ""; branch = "" };
  created = 7;
  updated = 11;
  archived = false;
  agent = record { name = ""; version = "" };
  models = [];
  counts = record {
    messages = 2;
    chunks = 2;
    bytes = 4;
    tokens_in = 0;
    tokens_out = 0;
    duration_ms = 0;
  };
  kind = "main";
  agent_ref = none;
  lineage = record {
    parent_session = none;
    forked_from = none;
    resumed_from = none;
    children = [];
  };
  head_message = "m2";
  preserved_tail = [];
  chunks = refs;
  memories = 21 ∷ [];
  embedding = record { model = ""; dim = 0 };
}

-- JSON that knows this head.
abbrev code : (s : Session) → Dec (s ≡ rebuilt) → Option (List ℕ)
code s (yes e) = some []
code s (no n) = none

code_known : (s : Session) (d : Dec (s ≡ rebuilt)) → s ≡ rebuilt → code s d ≡ some []
code_known s (yes e) h = refl
code_known s (no n) h = absurd (n h)

code_back :
    (s : Session) (d : Dec (s ≡ rebuilt)) (head : List ℕ)
    → code s d ≡ some head
    → some rebuilt ≡ some s
code_back s (yes e) head h = ap some (sym e)
code_back s (no n) head h = ground (arith, h)

abbrev env : Env
env = record {
  on_account = λ calls. err (failed 1);
  on_walk = λ calls. ok [];
  on_pinned_slabs = λ calls. ok [];
  on_download = λ calls ref. err (failed 1);
  on_finalize = λ calls payloads. ok [];
  on_act = λ calls c. none;
  now = λ calls. 100;
}

abbrev vault : Vault
vault = record {
  env = env;
  on_new_id = λ calls. ok 30;
  on_hash = λ calls body. ok "c";
  on_seal = λ calls body. ok (0 ∷ body);
  on_embed = λ calls text. ok (1 ∷ 2 ∷ 3 ∷ []);
  trim_space = λ s. s;
  to_lower = λ s. s;
  message_bytes = λ m. some 40;
  marshal_chunk = λ c. some (5 ∷ 6 ∷ []);
  marshal_session = λ s. code s (session_discrete s rebuilt);
  unmarshal_session = λ head. some rebuilt;
  model = record { model = "m"; dim = 3 };
  packer = record { online = true; has_callback = true; policy = default_policy 100; owner = "me" };
}

abbrev texts : Texts
texts = record {
  trim_space = λ s. s;
  fields = λ s. s ∷ [];
  count_runes = λ s. 5;
  take_runes = λ n s. s;
  short_id = λ id. "00000000";
}

abbrev world : World Desk
world = begin (record {
  packer = record {
    queue = [];
    state = record { records = 0; bytes = 0; oldest = none; newest = none };
  };
  bodies = [];
  heads = [];
  head_reads = 0;
})

vault-Answers : Answers vault (λ body. "c")
vault-Answers = record {
  acts = λ calls c. refl;
  hashes = λ calls body. refl;
  reads = λ s head h. code_back s (session_discrete s rebuilt) head h;
}

drafted :
    (now : ℕ)
    → draft_head texts now 5
        (first_chunk ∷ second_chunk ∷ [])
        refs
        (observe_transcript vault.marshal_chunk (first_chunk ∷ second_chunk ∷ []))
        (21 ∷ [])
      ≡ rebuilt
unfolding draft_head observe_transcript observe_onto observe_messages observe_message
    synthesise_title truncate_title opening part_text first_text merge_ids include_all include
    contains join_with append_unique
drafted now = refl

rebuilt-IsWritten : IsWritten vault texts 5 (first_chunk ∷ second_chunk ∷ []) refs (21 ∷ [])
rebuilt-IsWritten now = ([], code_known _ (session_discrete _ rebuilt) (drafted now))

listed : Reorders (of_session 5 (map read_chunk ids)) (first_chunk ∷ second_chunk ∷ [])
unfolding of_session
listed = swapped second_chunk first_chunk []

refs-AreRefsOf : AreRefsOf vault (λ body. "c") 0 (first_chunk ∷ second_chunk ∷ []) refs
unfolding first_id last_id
refs-AreRefsOf =
    one_chunk 0 _ _ _ _ (record { body = 5 ∷ 6 ∷ []; marshals = refl; is = refl })
      (one_chunk 1 _ _ _ _ (record { body = 5 ∷ 6 ∷ []; marshals = refl; is = refl }) (no_chunk 2))

chunks-AreValid : AreValid vault.trim_space (first_chunk ∷ second_chunk ∷ [])
unfolding chunk_validate is_empty messages_validate message_validate is_blank is_role count_parts
    part_validate contains
chunks-AreValid = (refl, (refl, tt))

hello-Titled : Titled vault.trim_space (synthesise_title texts (first_chunk ∷ second_chunk ∷ []) 5)
unfolding synthesise_title truncate_title opening part_text join_with is_blank
hello-Titled = record { worded = refl; short = refl }

no_head : row_at 5 world.device.heads ≡ none
unfolding row_at
no_head = refl

rebuild_head-Restored_example :
    (has_sequence_gap (chunks_in 5 (group_chunks_by_session read_chunk ids).groups) ≡ false)
    × Post
        (λ built after. Restored vault 5 refs built after)
        Never
        (rebuild_head vault texts 5
          (chunks_in 5 (group_chunks_by_session read_chunk ids).groups)
          (21 ∷ [])
          (record { overwrite = false; embed = false })
          world)
rebuild_head-Restored_example =
    rebuild_head-Restored vault (λ body. "c") texts read_chunk ids 5 first_chunk (second_chunk ∷ [])
      refs (21 ∷ []) false world vault-Answers (omega arith) listed (refl, (refl, tt))
      refs-AreRefsOf chunks-AreValid hello-Titled rebuilt-IsWritten no_head
