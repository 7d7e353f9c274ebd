-- ===== src/Vault/Session.antt =====
-- vault/session.go: saving a conversation, its head's edges, and forgetting it. The times that a
-- result reports are left out, and the result that is returned beside an error.
pub mod Chunks
pub mod Edges
pub mod Save
pub mod Forget
pub mod Load
pub mod Valid
use mnemosia.Prelude.{
  ℕ, suc, ◌+◌, nat_eq, Bool, true, false, not, ◌&&◌, List, [], ◌∷◌, ◌++◌, Option, none, some,
  String, string_keys, number_keys, ◌==◌, contains, length, map, if◌then◌else◌,
}
use mnemosia.Prelude.Exec.{Result, ok, err, Exec, pure, fail, gets, modify, lift, ◌>>=◌, ◌>>◌}
use mnemosia.Service.{
  World, Env, new_id, hash_body, seal_body, embed_text, of_vault, put_vector, put_ranking,
  await_first_write, remove_entry, remove_vector, forget_ranking, forget_body, delete_head, ask,
}
use mnemosia.Store.{Blob, Flush, Written}
use mnemosia.Packer.{Delivery, add, flush}
use mnemosia.Packer.Cadence.{manual}
use mnemosia.Record.Kind.{kind_chunk}
use mnemosia.Record.Message.{Message}
use mnemosia.Record.Chunk.{
  Chunk, ChunkRef, message_schema, schema_version_now, chunk_target_bytes, chunk_validate,
  split_messages, is_empty,
}
use mnemosia.Record.Session.{Session, session_main, session_validate, index_text}
use mnemosia.Seal.Frame.{frame_record}
use mnemosia.Vault.Desk.{
  Desk, Error, unframed, no_session, unwritable, unmeasured, Vault, Method, raise, on_packer,
  some_or, check_valid, call, call_table, store_body, put_head, read_session, session,
}
use mnemosia.Vault.Request.{
  SaveSessionRequest, apply_head_updates, validate_append, first_id, last_id,
}
use mnemosia.Local.Sessions.{forget_session_head}

pub record SaveSessionResult : Type 0 where
  pub id : ℕ
  pub version : ℕ
  pub chunks : List ChunkRef
  pub messages : ℕ
  pub bytes : ℕ
  pub on_network : Bool
  pub flushed : Option Flush

-- The head that is being written, and of the result what the chunks so far make; `owed` is the set of
-- the chunks that the network has not.
pub record Saving : Type 0 where
  pub session : Session
  pub chunks : List ChunkRef
  pub messages : ℕ
  pub bytes : ℕ
  pub owed : List String

-- `delete(owed, cid)`
unfoldable pub strike : List String → String → List String
strike [] cid = []
strike (c ∷ rest) cid = let kept = strike rest cid in if c == cid then kept else c ∷ kept

unfoldable pub settle : List String → List Written → List String
settle owed [] = owed
settle owed (w ∷ rest) = settle (strike owed w.cid) rest

unfoldable pub written_by : Option Delivery → List Written
written_by none = []
written_by (some d) = d.flush.written

unfoldable pub saved_chunk : ChunkRef → Option Delivery → Saving → Saving
saved_chunk ref flushed st = record {
  session = record st.session {
    chunks = st.session.chunks ++ ref ∷ [];
    counts = record st.session.counts {
      messages = st.session.counts.messages + ref.n;
      bytes = st.session.counts.bytes + ref.bytes;
    };
  };
  chunks = st.chunks ++ ref ∷ [];
  messages = st.messages + ref.n;
  bytes = st.bytes + ref.bytes;
  owed = settle (st.owed ++ ref.cid ∷ []) (written_by flushed);
}

module _ (v : Vault) where
  unfoldable pub open_existing : ℕ → Method (Session × ℕ)
  open_existing id = do
    s ← session v id
    pure (record s { version = suc s.version; embedding = v.model }, s.version)

  unfoldable pub new_session : ℕ → ℕ → SaveSessionRequest → Session
  new_session id now req = record {
    id = id;
    schema = message_schema;
    schema_version = schema_version_now;
    version = 1;
    title = "";
    summary = "";
    tags = [];
    project = record { cwd = ""; repo = ""; branch = "" };
    created = now;
    updated = now;
    archived = false;
    agent = record { name = ""; version = "" };
    models = [];
    counts = record {
      messages = 0;
      chunks = 0;
      bytes = 0;
      tokens_in = 0;
      tokens_out = 0;
      duration_ms = 0;
    };
    kind = if req.kind == "" then session_main else req.kind;
    agent_ref = req.agent_ref;
    lineage = req.lineage;
    head_message = "";
    preserved_tail = [];
    chunks = [];
    memories = [];
    embedding = v.model;
  }

  pub fresh_id : Method ℕ
  fresh_id = raise (ask (of_vault new_id) v.on_new_id)

  -- `openSession`: the head, and the version that it was read at.
  unfoldable pub open_session : SaveSessionRequest → Method (Session × ℕ)
  unfolding fresh_id
  open_session req =
      if not (nat_eq req.id 0)
      then open_existing req.id
      else (do id ← fresh_id; now ← gets (λ w. v.env.now w.calls); pure (new_session id now req, 0))

  unfoldable pub chunk_of : ℕ → Session → List Message → Chunk
  chunk_of id s messages = record {
    id = id;
    kind = kind_chunk;
    schema = message_schema;
    schema_version = schema_version_now;
    session = s.id;
    seq = length s.chunks;
    messages = messages;
  }

  -- `writeChunk`
  unfoldable pub write_chunk : Session → List Message → Method (ChunkRef × Option Delivery)
  unfolding fresh_id
  write_chunk s messages = do
    id ← fresh_id
    check_valid (chunk_validate v.trim_space (chunk_of id s messages))
    body ← some_or unwritable (v.marshal_chunk (chunk_of id s messages))
    cid ← raise (ask (of_vault (hash_body body)) (λ calls. v.on_hash calls body))
    sealed ← raise (ask (of_vault (seal_body body)) (λ calls. v.on_seal calls body))
    framed ← elim (frame_record kind_chunk id sealed) [ ok b ↦ pure b | err e ↦ fail (unframed e) ]
    store_body v id kind_chunk body
    flushed ←
        on_packer (add v.env v.packer id kind_chunk (record { cid = cid; payload = framed }) none)
    pure (
      record {
        id = id;
        seq = length s.chunks;
        first = first_id messages;
        last = last_id "" messages;
        n = length messages;
        bytes = length body;
        cid = cid;
      },
      flushed,
    )

  unfoldable pub write_chunks : Saving → List (List Message) → Method Saving
  write_chunks st [] = pure st
  write_chunks st (group ∷ rest) = do
    (ref, flushed) ← write_chunk st.session group
    write_chunks (saved_chunk ref flushed st) rest

  -- `reviseHead`
  unfoldable pub revise_head : Session → Method Unit
  revise_head s = do
    now ← gets (λ w. v.env.now w.calls)
    let revised = record s { version = suc s.version; updated = now }
    head ← some_or unwritable (v.marshal_session revised)
    put_head v revised head s.version

  -- `storeHead`: the head, its vector, and its ranking metadata.
  unfoldable pub store_head : Session → List ℕ → ℕ → Method Unit
  store_head s vector from = do
    head ← some_or unwritable (v.marshal_session s)
    put_head v s head from
    call v (put_vector s.id vector)
    call v (put_ranking s.id)
