-- ===== src/Vault/Session/Load.antt =====
-- vault/session_load.go: the messages of a stored conversation, from one of them on and so many. The
-- read of a record's body, from the device or the network, is a parameter, and its answer does not
-- change while a transcript is read.
pub mod Fill
pub mod Pages
pub mod Slice
use mnemosia.Prelude.{
  ℕ, suc, ◌+◌, leb, ltb, Bool, true, false, not, ◌&&◌, ◌||◌, List, [], ◌∷◌, ◌++◌, Option, none,
  some, String, string_keys, ◌==◌, length, drop, if◌then◌else◌,
}
use mnemosia.Prelude.Exec.{Result, ok, err, Exec, pure, fail, modify, lift, ◌>>=◌, ◌>>◌}
use mnemosia.Record.Kind.{Kind, kind_chunk}
use mnemosia.Record.Message.{Message}
use mnemosia.Record.Chunk.{Chunk, ChunkRef}
use mnemosia.Record.Session.{Session}

-- Of `SessionStats`, what a chunk moves.
pub record ChunkStats : Type 0 where
  pub chunk_reads : ℕ
  pub chunk_bytes : ℕ

pub data Error : Type 0 where
  unread : ℕ → Error
  not_a_chunk : ℕ → Kind → Error
  undecoded : ℕ → Error
  no_message : String → Error

abbrev Method : Type 0 → Type 0
Method A = Exec ChunkStats Error A

-- A page of messages, and the id to go on from where more remain.
abbrev pub Page : Type 0
Page = List Message × Option String

unfoldable pub first_at : ℕ → String → List ChunkRef → ℕ
first_at i from [] = 0
first_at i from (ref ∷ rest) =
    let later = first_at (suc i) from rest in
    if ref.first == from || ref.last == from then i else later

-- `startChunk`
unfoldable pub start_chunk : Session → String → ℕ
start_chunk s from = if from == "" then 0 else first_at 0 from s.chunks

unfoldable pub is_full : ℕ → List Message → Bool
is_full limit out = ltb 0 limit && leb limit (length out)

-- The messages of one chunk: the page is full before one of them, or goes on.
pub data Walked : Type 0 where
  stopped : List Message → String → Walked
  going : List Message → Bool → Walked

unfoldable pub walk_messages : String → ℕ → List Message → Bool → List Message → Walked
walk_messages from limit out started [] = going out started
walk_messages from limit out started (m ∷ ms) =
    let skipped = walk_messages from limit out false ms in
    let taken = walk_messages from limit (out ++ m ∷ []) true ms in
    if started || m.id == from
    then (if is_full limit out then stopped out m.id else taken)
    else skipped

module _ (fetch_body : ℕ → Result Error (Kind × List ℕ))
    (unmarshal_chunk : List ℕ → Option Chunk) where
  decoded : ℕ → List ℕ → Option Chunk → Method Chunk
  decoded id body none = fail (undecoded id)
  decoded id body (some c) = do
    modify
        (λ s. record { chunk_reads = s.chunk_reads + 1; chunk_bytes = s.chunk_bytes + length body })
    pure c

  -- `Vault.chunk`
  unfoldable pub chunk : ℕ → Method Chunk
  unfolding decoded
  chunk id = do
    (kind, body) ← lift (fetch_body id)
    if kind == kind_chunk
        then decoded id body (unmarshal_chunk body)
        else fail (not_a_chunk id kind)

  unfoldable pub walk_chunks : String → ℕ → List Message → Bool → List ChunkRef → Method Page
  walk_chunks from limit out started [] =
      if started then pure (out, none) else fail (no_message from)
  walk_chunks from limit out started (ref ∷ rest) =
      if is_full limit out then pure (out, some ref.first) else (do
        c ← chunk ref.id
        elim (walk_messages from limit out started c.messages) as (λ _. Method Page) [
          | stopped out next ↦ pure (out, some next)
          | going out started ↦ walk_chunks from limit out started rest
        ])

  -- `transcript`; a limit that is not positive is 0.
  unfoldable pub transcript : Session → String → ℕ → Method Page
  transcript s from limit =
      walk_chunks from limit [] (from == "") (drop (start_chunk s from) s.chunks)
