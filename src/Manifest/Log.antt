-- ===== src/Manifest/Log.antt =====
-- manifest/log.go and the files of manifest/snapshot.go: the snapshot, the log after it, and the
-- calls on them. The file system answers each call as it likes.
pub mod Rules
use mnemosia.Prelude.{
  ℕ, ◌+◌, ◌*◌, ltb, ◌^◌, Bool, false, List, [], ◌∷◌, ◌++◌, Option, none, some, length, take,
  if◌then◌else◌,
}
use mnemosia.Prelude.Exec.{Result, ok, err, Exec, pure, modify, lift, ◌>>=◌, ◌>>◌}
use mnemosia.Manifest.Entry.{Entry, Book, empty_book}
use mnemosia.Manifest.Lines.{
  Codec, FileName, log_name, snapshot_name, Error, failed, encode_entry, read_entries,
}

-- The bytes of manifest.log, manifest.snapshot and manifest.snapshot.tmp.
pub record Disk : Type 0 where
  pub log : List ℕ
  pub snapshot : Option (List ℕ)
  pub pending : List ℕ

-- `calls` counts the calls of the sealer and of the file system.
pub record Log : Type 0 where
  pub disk : Disk
  pub log_bytes : ℕ
  pub snapshot_bytes : ℕ
  pub written : ℕ
  pub compactions : ℕ
  pub calls : ℕ

abbrev pub new_log : Log
new_log = record {
  disk = record { log = []; snapshot = none; pending = [] };
  log_bytes = 0;
  snapshot_bytes = 0;
  written = 0;
  compactions = 0;
  calls = 0;
}

-- What call number n answers: an error, and for a write also how much of it reached the file.
pub record FileSystem : Type 0 where
  pub on_call : ℕ → Option Error
  pub on_write : ℕ → Option (ℕ × Error)

abbrev min_compact_bytes : ℕ
min_compact_bytes = 2 ^ 16

-- `float64(logBytes) > 0.25*float64(snapshotBytes)`, which is this test up to 2^53 bytes.
unfoldable pub due_for_compaction : Log → Bool
due_for_compaction l =
    if ltb l.log_bytes min_compact_bytes then false else ltb l.snapshot_bytes (4 * l.log_bytes)

call_answer : Option Error → (Disk → Disk) → Log → Result Error (Unit {0}) × Log
call_answer none f l = (ok tt, record l { disk = f l.disk })
call_answer (some e) f l = (err e, l)

write_answer :
    Option (ℕ × Error) → (List ℕ → Disk → Disk) → List ℕ → Log → Result Error (Unit {0}) × Log
write_answer none f bytes l = (ok tt, record l { disk = f bytes l.disk })
write_answer (some (n, e)) f bytes l = (err e, record l { disk = f (take n bytes) l.disk })

abbrev pub to_log : List ℕ → Disk → Disk
to_log bytes d = record d { log = d.log ++ bytes }

abbrev pub to_pending : List ℕ → Disk → Disk
to_pending bytes d = record d { pending = d.pending ++ bytes }

abbrev pub open_pending : Disk → Disk
open_pending d = record d { pending = [] }

abbrev pub rename_pending : Disk → Disk
rename_pending d = record d { snapshot = some d.pending; pending = [] }

abbrev pub truncate_log : Disk → Disk
truncate_log d = record d { log = [] }

module _ (files : FileSystem) where
  unfoldable pub call : (Disk → Disk) → Exec Log Error (Unit {0})
  unfolding call_answer
  call f l = call_answer (files.on_call l.calls) f (record l { calls = l.calls + 1 })

  unfoldable pub write : (List ℕ → Disk → Disk) → List ℕ → Exec Log Error (Unit {0})
  unfolding write_answer
  write f bytes l = write_answer (files.on_write l.calls) f bytes (record l { calls = l.calls + 1 })

  -- The deferred removal of the new file, whose error nobody sees.
  unfoldable pub remove_pending : Result Error (Unit {0}) × Log → Result Error (Unit {0}) × Log
  remove_pending (r, l) = (r, (call open_pending l).1)

  -- Of the log, truncate, rewind and sync.
  unfoldable pub finish : ℕ → Exec Log Error (Unit {0})
  finish written = do
    call truncate_log
    call (λ d. d)
    call (λ d. d)
    modify (λ l. record l {
      snapshot_bytes = written;
      log_bytes = 0;
      written = l.written + written;
      compactions = l.compactions + 1;
    })

module _ (codec : Codec) where
  unfoldable pub encode : Entry → Exec Log Error (List ℕ)
  encode e l = (encode_entry codec l.calls e, record l { calls = l.calls + 1 })

module _ (codec : Codec) (files : FileSystem) where
  -- `Log.Append`
  unfoldable pub append_line : Entry → Exec Log Error (Unit {0})
  append_line e = do
    line ← encode codec e
    write files to_log line
    call files (λ d. d)
    modify
        (λ l. record l { log_bytes = l.log_bytes + length line; written = l.written + length line })

  -- The lines of the new snapshot, and how many bytes were written with those before.
  unfoldable pub write_entries : List Entry → ℕ → Exec Log Error ℕ
  write_entries [] written = pure written
  write_entries (e ∷ rest) written = do
    line ← encode codec e
    write files to_pending line
    write_entries rest (written + length line)

  -- What `compact` does once the new file is open: its entries, sync, close, and rename.
  unfoldable pub install : List Entry → Exec Log Error (Unit {0})
  install entries = do
    written ← write_entries entries 0
    call files (λ d. d)
    call files (λ d. d)
    call files rename_pending
    finish files written

  unfoldable pub compact : List Entry → Exec Log Error (Unit {0})
  compact entries = do call files open_pending; λ l. remove_pending files (install entries l)

module _ (codec : Codec) where
  unfoldable pub read_snapshot : Option (List ℕ) → Result Error Book
  read_snapshot none = ok empty_book
  read_snapshot (some bytes) = read_entries codec snapshot_name bytes empty_book

  -- Opening and seeking the files is taken to succeed.
  unfoldable pub replay : Disk → Result Error Book
  replay d = elim (read_snapshot d.snapshot) [
    | ok book ↦ read_entries codec log_name d.log book
    | err e ↦ err e
  ]
