-- ===== src/Vault/Rebuild/Head.antt =====
-- vault/rebuild.go: one head from the chunks of its conversation.
use mnemosia.Prelude.{
  ℕ, suc, ltb, Bool, true, false, not, ◌||◌, List, [], ◌∷◌, Option, none, some, String, string_keys,
  ◌==◌, length, if◌then◌else◌,
}
use mnemosia.Prelude.Exec.{pure, fail, gets, ◌>>=◌, ◌>>◌}
use mnemosia.Service.{hash_body, select_head, put_ranking, put_vector, embed_text, of_vault, ask}
use mnemosia.Record.Chunk.{Chunk, ChunkRef, is_empty}
use mnemosia.Record.Session.{Session, session_main, session_validate, index_text}
use mnemosia.Local.Sessions.{get_session_head}
use mnemosia.Vault.Desk.{
  no_chunks, unwritable, unreadable, Vault, Method, raise, some_or, check_valid, call, put_head,
}
use mnemosia.Vault.Request.{first_id, last_id}
use mnemosia.Vault.Rebuild.Facts.{
  Texts, TranscriptFacts, observe_transcript, synthesise_title, merge_ids,
}
use mnemosia.Vault.Rebuild.Origin.{
  Origins, head_fields, of_chunk, derived, observed, reverse_edge, synthesised, all_lost, came,
}

pub record RebuildRequest : Type 0 where
  pub overwrite : Bool
  pub embed : Bool

pub record RebuiltHead : Type 0 where
  pub session : Session
  pub origins : Origins
  pub chunks : ℕ
  pub messages : ℕ
  pub existing : Bool

since : Option ℕ → ℕ → ℕ
since none now = now
since (some at) now = at

is_known : Option ℕ → Bool
is_known none = false
is_known (some at) = true

schema_of : List Chunk → String
schema_of [] = ""
schema_of (c ∷ cs) = c.schema

schema_version_of : List Chunk → ℕ
schema_version_of [] = 0
schema_version_of (c ∷ cs) = c.schema_version

-- The head before it is checked.
unfoldable pub draft_head :
    Texts → ℕ → ℕ → List Chunk → List ChunkRef → TranscriptFacts → List ℕ → Session
unfolding since schema_of schema_version_of
draft_head texts now id cs refs facts backlinks = record {
  id = id;
  schema = schema_of cs;
  schema_version = schema_version_of cs;
  version = 1;
  title = synthesise_title texts cs id;
  summary = "";
  tags = [];
  project = record { cwd = ""; repo = ""; branch = "" };
  created = since facts.first now;
  updated = since facts.last now;
  archived = false;
  agent = record { name = ""; version = "" };
  models = facts.models;
  counts = record {
    messages = facts.messages;
    chunks = length cs;
    bytes = facts.bytes;
    tokens_in = facts.tokens_in;
    tokens_out = facts.tokens_out;
    duration_ms = 0;
  };
  kind = session_main;
  agent_ref = none;
  lineage = record {
    parent_session = none;
    forked_from = none;
    resumed_from = none;
    children = [];
  };
  head_message = facts.head_message;
  preserved_tail = [];
  chunks = refs;
  memories = merge_ids backlinks facts.memory_refs;
  embedding = record { model = ""; dim = 0 };
}

came_if : Bool → List String → Origins → Origins
came_if true fields origins = came observed fields origins
came_if false fields origins = origins

unfoldable pub draft_origins : Session → TranscriptFacts → Origins
unfolding is_known came_if
draft_origins s facts =
    let start = all_lost head_fields [] in
    let own = came of_chunk ("id" ∷ "schema" ∷ "schemaVersion" ∷ []) start in
    let made = came synthesised ("version" ∷ "kind" ∷ []) own in
    let counted =
      came derived ("chunks" ∷ "counts.messages" ∷ "counts.chunks" ∷ "counts.bytes" ∷ []) made in
    let tokens =
      came_if (ltb 0 facts.tokens_in || ltb 0 facts.tokens_out) ("counts.tokens" ∷ []) counted in
    let times =
      came (if is_known facts.first then observed else synthesised) ("created" ∷ "updated" ∷ [])
        tokens in
    let models = came_if (not (is_empty facts.models)) ("models" ∷ []) times in
    let tip =
      if facts.head_message == "" then models else came derived ("headMessage" ∷ []) models in
    let links =
      if is_empty s.memories then tip else came reverse_edge ("links.memories" ∷ []) tip in
    came synthesised ("title" ∷ []) links

module _ (v : Vault) (texts : Texts) where
  -- `chunkRef`
  unfoldable pub chunk_ref : Chunk → ℕ → Method ChunkRef
  chunk_ref c position = do
    body ← some_or unwritable (v.marshal_chunk c)
    cid ← raise (ask (of_vault (hash_body body)) (λ calls. v.on_hash calls body))
    pure (record {
      id = c.id;
      seq = position;
      first = first_id c.messages;
      last = last_id "" c.messages;
      n = length c.messages;
      bytes = length body;
      cid = cid;
    })

  unfoldable pub chunk_refs : ℕ → List Chunk → Method (List ChunkRef)
  chunk_refs position [] = pure []
  chunk_refs position (c ∷ cs) = do
    ref ← chunk_ref c position
    refs ← chunk_refs (suc position) cs
    pure (ref ∷ refs)

  -- The head that the device has, if it has one.
  unfoldable pub held_head : ℕ → Method (Option (List ℕ))
  held_head id = do call v (select_head id); gets (λ w. get_session_head id w.device.heads)

  -- The version that is expected there, and the head at the one after it.
  unfoldable pub over : Session → List ℕ → Option (List ℕ) → Method (Session × List ℕ × ℕ)
  over s head none = pure (s, head, 0)
  over s head (some existing) = do
    previous ← some_or unreadable (v.unmarshal_session existing)
    let next = record s { version = suc previous.version }
    bytes ← some_or unwritable (v.marshal_session next)
    pure (next, bytes, previous.version)

  unfoldable pub embed_head : Bool → Session → Method Session
  embed_head false s = pure s
  embed_head true s = do
    vector ←
        raise
          (ask (of_vault (embed_text (index_text s))) (λ calls. v.on_embed calls (index_text s)))
    call v (put_vector s.id vector)
    pure s

  -- The head at its version, its ranking metadata, and its vector.
  unfoldable pub write_head : Bool → Session × List ℕ × ℕ → Method Session
  write_head embed (s, bytes, expect) = do
    put_head v s bytes expect
    call v (put_ranking s.id)
    embed_head embed s

  -- `storeRebuiltHead`: the head as it was stored.
  unfoldable pub store_rebuilt_head : Session → Bool → Method Session
  store_rebuilt_head session embed = do
    let s = if embed then record session { embedding = v.model } else session
    head ← some_or unwritable (v.marshal_session s)
    existing ← held_head s.id
    next ← over s head existing
    write_head embed next

  unfoldable pub kept_head : RebuildRequest → ℕ → Method (Option (List ℕ))
  unfolding held_head
  kept_head req id = if req.overwrite then pure none else held_head id

  -- What is done with a head that is well formed.
  unfoldable pub settle_head : RebuildRequest → RebuiltHead → Option (List ℕ) → Method RebuiltHead
  settle_head req built (some head) = pure (record built { existing = true })
  settle_head req built none = do
    s ← store_rebuilt_head built.session req.embed
    pure (record built {
      session = s;
      origins =
          if req.embed then came synthesised ("embedding" ∷ []) built.origins else built.origins;
    })

  -- From the chunks of the head on.
  unfoldable pub finish_head :
      RebuildRequest → ℕ → List Chunk → List ℕ → List ChunkRef → Method RebuiltHead
  unfolding kept_head settle_head
  finish_head req id cs backlinks refs = do
    let facts = observe_transcript v.marshal_chunk cs
    now ← gets (λ w. v.env.now w.calls)
    let s = draft_head texts now id cs refs facts backlinks
    check_valid (session_validate v.trim_space s)
    held ← kept_head req id
    settle_head req
        (record {
          session = s;
          origins = draft_origins s facts;
          chunks = length cs;
          messages = facts.messages;
          existing = false;
        })
        held

  -- `rebuildHead`
  unfoldable pub rebuild_head : ℕ → List Chunk → List ℕ → RebuildRequest → Method RebuiltHead
  rebuild_head id [] backlinks req = fail (no_chunks id)
  rebuild_head id cs backlinks req = do refs ← chunk_refs 0 cs; finish_head req id cs backlinks refs
