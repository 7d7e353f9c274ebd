-- ===== src/Vault/Request.antt =====
-- vault/session.go: a request to save a conversation, and what it does to the head.
use mnemosia.Prelude.{
  ℕ, ◌+◌, Bool, true, false, List, [], ◌∷◌, ◌++◌, Option, none, some, String, string_keys, ◌==◌,
  contains, include, length, if◌then◌else◌,
}
use mnemosia.Record.Invalid.{Invalid, message_repeated}
use mnemosia.Record.Message.{Message, message_validate}
use mnemosia.Record.Chunk.{ChunkRef, is_empty}
use mnemosia.Record.Session.{Session, SessionKind, Project, Agent, AgentRef, Lineage, is_unset}
use mnemosia.Local.Tags.{normalize_tags}

pub record SaveSessionRequest : Type 0 where
  pub id : ℕ
  pub title : String
  pub summary : String
  pub tags : List String
  pub project : Project
  pub agent : Agent
  pub models : List String
  pub kind : SessionKind
  pub agent_ref : Option AgentRef
  pub lineage : Lineage
  pub messages : List Message
  pub preserved_tail : List String
  pub tokens_in : ℕ
  pub tokens_out : ℕ
  pub duration_ms : ℕ
  pub archived : Bool
  pub unarchive : Bool
  pub durable : Bool

unfoldable pub append_unique : List String → String → List String
append_unique list value = if contains list value then list else list ++ value ∷ []

unfoldable pub append_all : List String → List String → List String
append_all list [] = list
append_all list (model ∷ rest) = append_all (append_unique list model) rest

unfoldable pub models_of : List String → List Message → List String
models_of list [] = list
models_of list (m ∷ rest) =
    models_of (if m.meta.model == "" then list else append_unique list m.meta.model) rest

unfoldable pub last_id : String → List Message → String
last_id id [] = id
last_id id (m ∷ rest) = last_id m.id rest

unfoldable pub first_id : List Message → String
first_id [] = ""
first_id (m ∷ rest) = m.id

or_else : String → String → String
or_else new old = if new == "" then old else new

or_kept : Option AgentRef → Option AgentRef → Option AgentRef
or_kept none old = old
or_kept (some new) old = some new

module _ (trim_space to_lower : String → String) where
  -- At the time of the call.
  unfoldable pub apply_head_updates : ℕ → Session → SaveSessionRequest → Session
  unfolding or_else or_kept
  apply_head_updates now s req = record s {
    title = or_else req.title s.title;
    summary = or_else req.summary s.summary;
    tags = if is_empty req.tags then s.tags else normalize_tags trim_space to_lower req.tags;
    project = if is_unset req.project then s.project else req.project;
    agent = if req.agent.name == "" then s.agent else req.agent;
    agent_ref = or_kept req.agent_ref s.agent_ref;
    models = models_of (append_all s.models req.models) req.messages;
    preserved_tail = if is_empty req.preserved_tail then s.preserved_tail else req.preserved_tail;
    head_message = last_id s.head_message req.messages;
    counts = record s.counts {
      chunks = length s.chunks;
      tokens_in = s.counts.tokens_in + req.tokens_in;
      tokens_out = s.counts.tokens_out + req.tokens_out;
      duration_ms = s.counts.duration_ms + req.duration_ms;
    };
    archived = if req.archived then true else if req.unarchive then false else s.archived;
    updated = now;
  }

-- The ids that the head knows, the empty one aside.
include_named : String → List String → List String
include_named id seen = if id == "" then seen else include id seen

unfoldable pub known_ids : List ChunkRef → List String
unfolding include_named
known_ids [] = []
known_ids (c ∷ rest) = include_named c.first (include_named c.last (known_ids rest))

module _ (trim_space : String → String) where
  unfoldable pub new_messages_validate : List String → List Message → Option Invalid
  new_messages_validate seen [] = none
  new_messages_validate seen (m ∷ rest) = elim (message_validate trim_space m) [
    | some e ↦ some e
    | none ↦
        let later = new_messages_validate (include m.id seen) rest in
        if contains seen m.id then some (message_repeated m.id) else later
  ]

  unfoldable pub validate_append : Session → List Message → Option Invalid
  validate_append s messages = new_messages_validate (known_ids s.chunks) messages
