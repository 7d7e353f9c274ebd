-- ===== src/Vault/Rebuild.antt =====
-- vault/rebuild.go: the heads of the conversations from their chunks alone. The catalog's entries,
-- and what a chunk's id reads as on this device or the network, are arguments; how long a rebuild
-- took is left out of its report.
pub mod Facts
pub mod Origin
pub mod Gather
pub mod Head
pub mod Sequence
pub mod Same
pub mod Valid
pub mod Whole
mod Tests
use mnemosia.Prelude.{
  ℕ, suc, Bool, List, [], ◌∷◌, ◌++◌, Option, none, some, String, string_keys, number_keys, ◌==◌,
  length, map_get, map_put, if◌then◌else◌,
}
use mnemosia.Prelude.Exec.{Exec, pure, gets, ◌>>=◌, ◌>>◌}
use mnemosia.Service.{World, select_body, list_bodies}
use mnemosia.Record.Kind.{Kind, kind_chunk, kind_memory}
use mnemosia.Record.Chunk.{Chunk}
use mnemosia.Record.Memory.{Memory}
use mnemosia.Record.Id.{parse_id}
use mnemosia.Manifest.Entry.{Entry}
use mnemosia.Vault.Desk.{Desk, Vault, Method, unreadable_memory, some_or, call}
use mnemosia.Vault.Rebuild.Facts.{Texts}
use mnemosia.Vault.Rebuild.Origin.{Origins, merge_origins}
use mnemosia.Vault.Rebuild.Gather.{
  record_ids, body_ids_of_kind, Gathered, group_of, group_chunks_by_session, has_sequence_gap,
}
use mnemosia.Vault.Rebuild.Head.{RebuildRequest, RebuiltHead, rebuild_head}

-- Of memories and ids, what the standard library reads.
pub record Codec : Type 0 where
  pub unmarshal_memory : List ℕ → Option Memory
  pub decode_hex : String → Option (List ℕ)

pub record RebuildReport : Type 0 where
  pub chunks : ℕ
  pub sessions : ℕ
  pub stored : ℕ
  pub skipped : ℕ
  pub gaps : ℕ
  pub unreadable : ℕ
  pub heads : List RebuiltHead
  pub origins : Origins

abbrev pub Backlinks : Type 0
Backlinks = List (ℕ × List ℕ)

abbrev pub links_of : Option (List ℕ) → List ℕ
links_of none = []
links_of (some ids) = ids

module _ (v : Vault) where
  -- `recordIDs`
  unfoldable pub reachable_ids : Kind → List Entry → Method (List ℕ)
  reachable_ids kind entries = do
    call v (list_bodies kind)
    held ← gets (λ w. body_ids_of_kind kind w.device.bodies)
    pure (record_ids kind entries held)

module _ (v : Vault) (codec : Codec) where
  -- The memory's edge to the conversation that it names.
  unfoldable pub add_edge : Memory → Backlinks → Backlinks
  add_edge m links = elim (parse_id codec.decode_hex m.source.session_id) [
    | none ↦ links
    | some session ↦ map_put links session (links_of (map_get links session) ++ m.id ∷ [])
  ]

  unfoldable pub link_body : ℕ → Option (Kind × List ℕ) → Backlinks → Method Backlinks
  link_body id none links = pure links
  link_body id (some (kind, body)) links = do
    m ← some_or (unreadable_memory id) (codec.unmarshal_memory body)
    pure (if m.source.session_id == "" then links else add_edge m links)

  unfoldable pub link_memories : List ℕ → Backlinks → Method Backlinks
  unfolding link_body
  link_memories [] links = pure links
  link_memories (id ∷ ids) links = do
    call v (select_body id)
    body ← gets (λ w. map_get w.device.bodies id)
    more ← link_body id body links
    link_memories ids more

  -- `memoryBacklinks`
  unfoldable pub memory_backlinks : List Entry → Method Backlinks
  memory_backlinks entries = do ids ← reachable_ids v kind_memory entries; link_memories ids []

module _ (v : Vault) (codec : Codec) (texts : Texts) (read_chunk : ℕ → Option Chunk) where
  unfoldable pub add_head : RebuiltHead → Bool → RebuildReport → RebuildReport
  add_head built gap report = record report {
    gaps = if gap then suc report.gaps else report.gaps;
    skipped = if built.existing then suc report.skipped else report.skipped;
    stored = if built.existing then report.stored else suc report.stored;
    heads = report.heads ++ built ∷ [];
    origins = merge_origins report.origins built.origins;
  }

  -- The loop over the conversations.
  unfoldable pub rebuild_each :
      RebuildRequest → Gathered → Backlinks → List ℕ → RebuildReport → Method RebuildReport
  rebuild_each req g links [] report = pure report
  rebuild_each req g links (id ∷ ids) report = do
    let cs = group_of (map_get g.groups id)
    built ← rebuild_head v texts id cs (links_of (map_get links id)) req
    rebuild_each req g links ids (add_head built (has_sequence_gap cs) report)

  -- `RebuildSessions`
  unfoldable pub rebuild_sessions : RebuildRequest → List Entry → Method RebuildReport
  rebuild_sessions req entries = do
    ids ← reachable_ids v kind_chunk entries
    let g = group_chunks_by_session read_chunk ids
    links ← memory_backlinks v codec entries
    rebuild_each req g links g.order (record {
      chunks = g.chunks;
      sessions = length g.order;
      stored = 0;
      skipped = 0;
      gaps = 0;
      unreadable = g.unreadable;
      heads = [];
      origins = [];
    })
