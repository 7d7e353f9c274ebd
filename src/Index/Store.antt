-- ===== src/Index/Store.antt =====
-- index/persist.go: the base, the entries appended after it, and how one is folded into the other.
-- The operating system answers each call as it likes.
pub mod Book
pub mod Rules
pub mod Append
pub mod Compact
use mnemosia.Prelude.{
  ℕ, ◌+◌, ◌*◌, ◌^◌, ltb, Bool, true, false, List, [], ◌∷◌, ◌++◌, Option, none, some, length, take,
  map, nat_eq, if◌then◌else◌,
}
use mnemosia.Prelude.Exec.{Result, ok, err, Exec, pure, modify, ◌>>=◌, ◌>>◌}
use mnemosia.Index.Entry.{
  Entry, Error, failed, Sealer, is_removed, removal, encode_entry, read_entries,
}

-- The bytes of index.base, index.delta and index.base.tmp.
pub record Disk : Type 0 where
  pub base : List ℕ
  pub delta : List ℕ
  pub pending : List ℕ

-- `calls` counts the calls of the sealer and of the operating system.
pub record Store : Type 0 where
  pub disk : Disk
  pub base_bytes : ℕ
  pub delta_bytes : ℕ
  pub written : ℕ
  pub compactions : ℕ
  pub calls : ℕ

-- `OpenStore`, where the files can be opened and sized.
unfoldable pub open_store : Disk → Store
open_store d = record {
  disk = d;
  base_bytes = length d.base;
  delta_bytes = length d.delta;
  written = 0;
  compactions = 0;
  calls = 0;
}

-- What call number n answers: an error, and for a write also how much of it reached the file.
pub record System : Type 0 where
  pub on_call : ℕ → Option Error
  pub on_write : ℕ → Option (ℕ × Error)

abbrev min_compact_bytes : ℕ
min_compact_bytes = 2 ^ 16

-- `float64(deltaBytes) > 0.25*float64(baseBytes)`, which is this test up to 2^53 bytes.
unfoldable pub due_for_compaction : Store → Bool
due_for_compaction s =
    if ltb s.delta_bytes min_compact_bytes then false else ltb s.base_bytes (4 * s.delta_bytes)

call_answer : Option Error → (Disk → Disk) → Store → Result Error (Unit {0}) × Store
call_answer none f s = (ok tt, record s { disk = f s.disk })
call_answer (some e) f s = (err e, s)

write_answer :
    Option (ℕ × Error) → (List ℕ → Disk → Disk) → List ℕ → Store → Result Error (Unit {0}) × Store
write_answer none f bytes s = (ok tt, record s { disk = f bytes s.disk })
write_answer (some (n, e)) f bytes s = (err e, record s { disk = f (take n bytes) s.disk })

abbrev pub to_delta : List ℕ → Disk → Disk
to_delta bytes d = record d { delta = d.delta ++ bytes }

abbrev pub to_pending : List ℕ → Disk → Disk
to_pending bytes d = record d { pending = d.pending ++ bytes }

abbrev pub open_pending : Disk → Disk
open_pending d = record d { pending = [] }

abbrev pub rename_pending : Disk → Disk
rename_pending d = record d { base = d.pending; pending = [] }

abbrev pub truncate_delta : Disk → Disk
truncate_delta d = record d { delta = [] }

module _ (system : System) where
  unfoldable pub call : (Disk → Disk) → Exec Store Error (Unit {0})
  unfolding call_answer
  call f s = call_answer (system.on_call s.calls) f (record s { calls = s.calls + 1 })

  unfoldable pub write : (List ℕ → Disk → Disk) → List ℕ → Exec Store Error (Unit {0})
  unfolding write_answer
  write f bytes s =
      write_answer (system.on_write s.calls) f bytes (record s { calls = s.calls + 1 })

  -- The deferred removal of the new file, whose error nobody sees.
  unfoldable pub remove_pending : Result Error (Unit {0}) × Store → Result Error (Unit {0}) × Store
  remove_pending (r, s) = (r, (call open_pending s).1)

  -- Of the delta, truncate and rewind.
  unfoldable pub finish : ℕ → Exec Store Error (Unit {0})
  finish written = do
    call truncate_delta
    call (λ d. d)
    modify (λ s. record s {
      base_bytes = written;
      delta_bytes = 0;
      written = s.written + written;
      compactions = s.compactions + 1;
    })

module _ (sealer : Sealer) where
  unfoldable pub encode : Entry → Exec Store Error (List ℕ)
  encode e s = (encode_entry sealer s.calls e, record s { calls = s.calls + 1 })

module _ (sealer : Sealer) (system : System) where
  -- The loop of `Append`.
  unfoldable pub append_entries : List Entry → Exec Store Error (Unit {0})
  append_entries [] = pure tt
  append_entries (e ∷ rest) = do
    line ← encode sealer e
    write system to_delta line
    modify (λ s. record s {
      delta_bytes = s.delta_bytes + length line;
      written = s.written + length line;
    })
    append_entries rest

  unfoldable pub append : List Entry → Exec Store Error (Unit {0})
  append [] = pure tt
  append (e ∷ rest) = do append_entries (e ∷ rest); call system (λ d. d)

  unfoldable pub remove : List ℕ → Exec Store Error (Unit {0})
  remove ids = append (map removal ids)

  -- The lines of the new base, and how many bytes were written with those before.
  unfoldable pub write_entries : List Entry → ℕ → Exec Store Error ℕ
  write_entries [] written = pure written
  write_entries (e ∷ rest) written = do
    line ← encode sealer e
    write system to_pending line
    write_entries rest (written + length line)

  -- What `Compact` does once the new file is open: its entries, sync, close, and rename.
  unfoldable pub install : List Entry → Exec Store Error (Unit {0})
  install entries = do
    written ← write_entries entries 0
    call system (λ d. d)
    call system (λ d. d)
    call system rename_pending
    finish system written

  unfoldable pub compact : List Entry → Exec Store Error (Unit {0})
  compact entries = do call system open_pending; λ s. remove_pending system (install entries s)

-- `replay`: a later entry of a record takes the place of the one before.
unfoldable pub put_entry : Entry → List Entry → List Entry
put_entry e [] = e ∷ []
put_entry e (x ∷ out) = let rest = put_entry e out in if nat_eq x.id e.id then e ∷ out else x ∷ rest

unfoldable pub replay : List Entry → List Entry → List Entry
replay [] out = out
replay (e ∷ es) out = replay es (put_entry e out)

unfoldable pub live : List Entry → List Entry
live [] = []
live (e ∷ es) = let rest = live es in if is_removed e then rest else e ∷ rest

-- `Hydrate`, where the two files can be read.
unfoldable pub hydrate : Sealer → Disk → List Entry
hydrate sealer d =
    live (replay (read_entries sealer d.delta) (replay (read_entries sealer d.base) []))

module _ (sealer : Sealer) (system : System) where
  -- `Vault.CompactIndex`
  unfoldable pub compact_index : Exec Store Error (Unit {0})
  compact_index s = compact sealer system (hydrate sealer s.disk) s
