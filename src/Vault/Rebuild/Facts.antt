-- ===== src/Vault/Rebuild/Facts.antt =====
-- vault/rebuild.go: what the messages of a transcript say of the conversation.
use mnemosia.Prelude.{
  ℕ, suc, ◌+◌, ltb, leb, List, [], ◌∷◌, ◌++◌, Option, none, some, String, string_keys, number_keys,
  ◌==◌, include, length, if◌then◌else◌,
}
use Prim.Native.String.{◌++◌ as text_append}
use mnemosia.Record.Message.{Message, Part, part, Parts, empty, more}
use mnemosia.Record.Chunk.{Chunk}
use mnemosia.Record.Session.{join_with}
use mnemosia.Vault.Request.{append_unique}

-- Of `strings` and of a text as runes, what a title is made by, and the first eight digits of an id.
pub record Texts : Type 0 where
  pub trim_space : String → String
  pub fields : String → List String
  pub count_runes : String → ℕ
  pub take_runes : ℕ → String → String
  pub short_id : ℕ → String

pub record TranscriptFacts : Type 0 where
  pub messages : ℕ
  pub bytes : ℕ
  pub tokens_in : ℕ
  pub tokens_out : ℕ
  pub first : Option ℕ
  pub last : Option ℕ
  pub models : List String
  pub memory_refs : List ℕ
  pub head_message : String

abbrev pub no_facts : TranscriptFacts
no_facts = record {
  messages = 0;
  bytes = 0;
  tokens_in = 0;
  tokens_out = 0;
  first = none;
  last = none;
  models = [];
  memory_refs = [];
  head_message = "";
}

-- The earlier of two times, and the later; no time is the zero one.
earlier : Option ℕ → Option ℕ → Option ℕ
earlier none first = first
earlier (some at) none = some at
earlier (some at) (some first) = some (if ltb at first then at else first)

later : Option ℕ → Option ℕ → Option ℕ
later none last = last
later (some at) none = some at
later (some at) (some last) = some (if ltb last at then at else last)

unfoldable pub observe_message : Message → TranscriptFacts → TranscriptFacts
unfolding earlier later
observe_message m facts = record facts {
  messages = suc facts.messages;
  tokens_in = facts.tokens_in + (m.meta.usage.input_tokens + m.meta.usage.cache_read_tokens);
  tokens_out = facts.tokens_out + m.meta.usage.output_tokens;
  models = if m.meta.model == "" then facts.models else append_unique facts.models m.meta.model;
  memory_refs = facts.memory_refs ++ m.meta.memory_refs;
  first = earlier m.created facts.first;
  last = later m.created facts.last;
  head_message = m.id;
}

unfoldable pub observe_messages : List Message → TranscriptFacts → TranscriptFacts
observe_messages [] facts = facts
observe_messages (m ∷ ms) facts = observe_messages ms (observe_message m facts)

size_of : Option (List ℕ) → ℕ
size_of none = 0
size_of (some body) = length body

module _ (marshal_chunk : Chunk → Option (List ℕ)) where
  unfoldable pub observe_onto : List Chunk → TranscriptFacts → TranscriptFacts
  unfolding size_of
  observe_onto [] facts = facts
  observe_onto (c ∷ cs) facts = observe_onto cs (
      observe_messages c.messages
        (record facts { bytes = facts.bytes + size_of (marshal_chunk c) }))

  -- `observeTranscript`
  unfoldable pub observe_transcript : List Chunk → TranscriptFacts
  observe_transcript cs = observe_onto cs no_facts

module _ (texts : Texts) where
  unfoldable mutual
    pub part_text : Part → String
    part_text (part f content) =
        let own = if f.type == "text" then texts.trim_space f.text else "" in
        let nested = first_text content in if own == "" then nested else own

    -- `firstText`
    pub first_text : Parts → String
    first_text empty = ""
    first_text (more p ps) =
        let text = part_text p in let next = first_text ps in if text == "" then next else text

  abbrev title_from_transcript : ℕ
  title_from_transcript = 72

  -- `truncateTitle`
  unfoldable pub truncate_title : String → String
  truncate_title text =
      let joined = join_with " " (texts.fields text) in
      if leb (texts.count_runes joined) title_from_transcript
      then joined
      else text_append (texts.trim_space (texts.take_runes title_from_transcript joined)) "…"

  user_text : List Message → String
  user_text [] = ""
  user_text (m ∷ ms) =
      let text = if m.role == "user" then first_text m.parts else "" in
      let next = user_text ms in if text == "" then next else text

  -- The first prose that a user wrote.
  unfoldable pub opening : List Chunk → String
  unfolding user_text
  opening [] = ""
  opening (c ∷ cs) =
      let text = user_text c.messages in let next = opening cs in if text == "" then next else text

  -- `synthesiseTitle`
  unfoldable pub synthesise_title : List Chunk → ℕ → String
  synthesise_title cs id =
      let text = opening cs in
      if text == ""
      then text_append "Recovered session " (texts.short_id id)
      else truncate_title text

unfoldable pub include_all : List ℕ → List ℕ → List ℕ
include_all out [] = out
include_all out (id ∷ ids) = include_all (include id out) ids

-- `mergeIDs`
unfoldable pub merge_ids : List ℕ → List ℕ → List ℕ
merge_ids first second = include_all (include_all [] first) second
