-- ===== src/Manifest/Catalog.antt =====
-- manifest/manifest.go and the catalog's part of manifest/snapshot.go.
pub mod Outcomes
pub mod History
pub mod Listing
use mnemosia.Prelude.{ℕ, List, true, Option, none, some, number_keys, map_get, if◌then◌else◌}
use mnemosia.Prelude.Exec.{Result, ok, err, Exec, pure, gets, lift, modify, ◌>>=◌, ◌>>◌}
use mnemosia.Manifest.Entry.{
  Entry, Book, empty_book, put_entry, all_entries, live_entries, count_live,
}
use mnemosia.Manifest.Lines.{Codec, Error, not_found}
use mnemosia.Manifest.Log
use mnemosia.Manifest.Log.{Log, FileSystem, new_log, append_line, due_for_compaction, replay}

pub record Manifest : Type 0 where
  pub log : Log
  pub book : Book

abbrev pub new_manifest : Manifest
new_manifest = record { log = new_log; book = empty_book }

module _ {A : Type 0} where
  put_log : Book → Result Error A × Log → Result Error A × Manifest
  put_log b (r, l) = (r, record { log = l; book = b })

  unfoldable pub on_log : Exec Log Error A → Exec Manifest Error A
  unfolding put_log
  on_log act m = put_log m.book (act m.log)

unfoldable pub found : ℕ → Option Entry → Result Error Entry
found id none = err (not_found id)
found id (some e) = if e.deleted then err (not_found id) else ok e

unfoldable pub lookup : ℕ → Book → Result Error Entry
unfolding found
lookup id b = found id (map_get b.entries id)

unfoldable pub entries : Book → List Entry
entries b = live_entries b b.order

unfoldable pub len : Book → ℕ
len b = count_live b.entries

pub record Stats : Type 0 where
  pub records : ℕ
  pub log_bytes : ℕ
  pub snapshot_bytes : ℕ
  pub written : ℕ
  pub compactions : ℕ

unfoldable pub stats : Manifest → Stats
stats m = record {
  records = len m.book;
  log_bytes = m.log.log_bytes;
  snapshot_bytes = m.log.snapshot_bytes;
  written = m.log.written;
  compactions = m.log.compactions;
}

abbrev pub marked : ℕ → Entry → Entry
marked now entry = record entry { deleted = true; written_at = now }

module _ (codec : Codec) (files : FileSystem) where
  -- `append`
  unfoldable pub append_entry : Entry → Exec Manifest Error (Unit {0})
  append_entry e = do
    on_log (append_line codec files e)
    modify (λ m. record m { book = put_entry e m.book })

  unfoldable pub compact : Exec Manifest Error (Unit {0})
  compact m = on_log (Log.compact codec files (all_entries m.book m.book.order)) m

  unfoldable pub append : Entry → Exec Manifest Error (Unit {0})
  append e = do
    append_entry e
    due ← gets (λ m. due_for_compaction m.log)
    if due then compact else pure tt

  -- The time of the call is an argument.
  unfoldable pub remove : ℕ → ℕ → Exec Manifest Error (Unit {0})
  remove now id m = (do entry ← lift (lookup id m.book); append (marked now entry)) m

load_book : Log → Result Error Book → Result Error Manifest
load_book l (ok b) = ok (record { log = l; book = b })
load_book l (err e) = err e

unfoldable pub load : Codec → Log → Result Error Manifest
unfolding load_book
load codec l = load_book l (replay codec l.disk)
