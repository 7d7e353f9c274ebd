-- ===== src/Manifest/Replay.antt =====
-- The catalog in memory and its files: what appending to the log does to both.
use mnemosia.Prelude.{
  ℕ, ◌≡◌, ◌⊎◌, inl, inr, refl, sym, ◌∙◌, ap, subst, List, [], ◌∷◌, ◌++◌, Option, none, some,
  number_keys, ◌==◌, map_get, map_get-map_put, Bool, true, false, take, length, append-nil,
  if◌then◌else◌,
}
use mnemosia.Prelude.Exec.{ok, err, Runs, Runs-bind}
use mnemosia.Manifest.Entry.{Entry, Book, empty_book, put_entry}
use mnemosia.Manifest.Entry.Merge.{
  put_entries, Proper, Same, empty_book-Proper, put_entry-Proper, put_entries-Proper,
}
use mnemosia.Manifest.Entry.Fold.{put_entries-append, Same-put_entries}
use mnemosia.Manifest.Lines.{Codec, log_name, snapshot_name, read_entries}
use mnemosia.Manifest.Lines.Scan.{
  RoundTrip, Short, Holds, Holds-append, read_entries-Holds, encode_entry-Holds,
}
use mnemosia.Manifest.Log.{Disk, FileSystem, to_log, append_line, replay, read_snapshot}
use mnemosia.Manifest.Log.Rules.{OnDisk, Encodes, Runs-call, Runs-write, Runs-encode, Runs-modify}

take_all : (bytes : List ℕ) → take (length bytes) bytes ≡ bytes
take_all [] = refl
take_all (b ∷ bytes) = ap (◌∷◌ b) (take_all bytes)

module _ (codec : Codec) where
  -- A missing snapshot holds no entry.
  unfoldable pub HoldsSnapshot : Option (List ℕ) → List Entry → Type 0
  HoldsSnapshot none es = es ≡ []
  HoldsSnapshot (some bytes) es = Holds codec bytes es

  -- The files are whole lines, and to put their entries in from the start gives the book.
  pub record Mirrors (b : Book) (d : Disk) : Type 0 where
    pub folded : List Entry
    pub later : List Entry
    pub snapshot_holds : HoldsSnapshot d.snapshot folded
    pub log_holds : Holds codec d.log later
    pub same : Same (put_entries later (put_entries folded empty_book)) b

  -- What a book is, whose every entry can be written again.
  pub record Writable (b : Book) : Type 0 where
    pub proper : Proper b
    pub short : (k : ℕ) (e : Entry) → map_get b.entries k ≡ some e → Short codec e

  entry_of : Entry → Option Entry → Entry
  entry_of e none = e
  entry_of e (some f) = f

  Short-either :
      (new : Bool) (e f : Entry) (old : Option Entry)
      → Short codec e
      → ((g : Entry) → old ≡ some g → Short codec g)
      → (if new then some e else old) ≡ some f
      → Short codec f
  unfolding entry_of
  Short-either true e f old s k h = subst (Short codec) (ap (entry_of e) h) s
  Short-either false e f old s k h = k f h

  pub put_entry-Writable :
      (e : Entry) (b : Book) → Short codec e → Writable b → Writable (put_entry e b)
  unfolding put_entry
  put_entry-Writable e b s w = record {
    proper = put_entry-Proper e b w.proper;
    short = λ k f h.
        Short-either (e.id == k) e f (map_get b.entries k) s (w.short k)
          (sym (map_get-map_put b.entries e.id e k) ∙ h);
  }

  read_snapshot-Holds :
      (snapshot : Option (List ℕ)) (es : List Entry)
      → HoldsSnapshot snapshot es
      → read_snapshot codec snapshot ≡ ok (put_entries es empty_book)
  unfolding HoldsSnapshot read_snapshot put_entries
  read_snapshot-Holds none es h = ap (λ es. ok (put_entries es empty_book)) (sym h)
  read_snapshot-Holds (some bytes) es h =
      read_entries-Holds codec snapshot_name bytes es empty_book h

  pub replay-Mirrors :
      (b : Book) (d : Disk) → Mirrors b d → (c : Book) × (replay codec d ≡ ok c) × Same c b
  unfolding replay
  replay-Mirrors b d m = (
    put_entries m.later (put_entries m.folded empty_book),
    ap (λ r. elim r [ ok book ↦ read_entries codec log_name d.log book | err e ↦ err e ])
          (read_snapshot-Holds d.snapshot m.folded m.snapshot_holds)
        ∙ read_entries-Holds codec log_name d.log m.later (put_entries m.folded empty_book)
            m.log_holds,
    m.same,
  )

  -- The files of a write that failed: after those of the book comes a part of the entry's line, or all
  -- of it, or nothing.
  pub record MirrorsCut (e : Entry) (b : Book) (d : Disk) : Type 0 where
    pub whole : Disk
    pub line : List ℕ
    pub much : ℕ
    pub mirrors : Mirrors b whole
    pub its_line : Encodes codec e line ⊎ (much ≡ 0)
    pub is : d ≡ to_log (take much line) whole

  append-Mirrors :
      (e : Entry) (b : Book) (d : Disk) (line : List ℕ)
      → Writable b
      → Holds codec line (e ∷ [])
      → Mirrors b d
      → Mirrors (put_entry e b) (to_log line d)
  unfolding put_entries
  append-Mirrors e b d line w h m = record {
    folded = m.folded;
    later = m.later ++ e ∷ [];
    snapshot_holds = m.snapshot_holds;
    log_holds = Holds-append codec d.log line m.later (e ∷ []) m.log_holds h;
    same =
        subst (λ c. Same c (put_entry e b))
          (sym (put_entries-append m.later (e ∷ []) (put_entries m.folded empty_book)))
          (Same-put_entries (e ∷ []) (put_entries m.later (put_entries m.folded empty_book)) b
            (put_entries-Proper m.later (put_entries m.folded empty_book)
              (put_entries-Proper m.folded empty_book empty_book-Proper))
            w.proper m.same);
  }

module _ (codec : Codec) (files : FileSystem) where
  -- A line that is appended with no error is in the file for good.
  pub append_line-Mirrors :
      (e : Entry) (b : Book)
      → RoundTrip codec
      → Short codec e
      → Writable codec b
      → Runs
          (OnDisk (Mirrors codec b))
          (append_line codec files e)
          (λ _ l. OnDisk (Mirrors codec (put_entry e b)) l)
          (λ _ l. OnDisk (MirrorsCut codec e b) l)
  unfolding append_line
  append_line-Mirrors e b r s w = Runs-bind (Runs-encode codec e untouched) (λ line.
      Runs-bind (Runs-write files to_log line (partly line) (λ d h. written line d h)) (λ _.
        Runs-bind (Runs-call files (λ d. d) cut_there whole_there)
          (λ _. Runs-modify _ (λ l. refl))))
    where
      partly :
          (line : List ℕ) (d : Disk) (n : ℕ)
          → Mirrors codec b d × Encodes codec e line
          → MirrorsCut codec e b (to_log (take n line) d)
      partly line d n h = record {
        whole = d;
        line = line;
        much = n;
        mirrors = h.0;
        its_line = inl h.1;
        is = refl;
      }

      cut_there :
          (d : Disk)
          → Mirrors codec (put_entry e b) d × MirrorsCut codec e b d
          → MirrorsCut codec e b d
      cut_there d h = h.1

      whole_there :
          (d : Disk)
          → Mirrors codec (put_entry e b) d × MirrorsCut codec e b d
          → Mirrors codec (put_entry e b) d
      whole_there d h = h.0

      untouched : (d : Disk) → Mirrors codec b d → MirrorsCut codec e b d
      untouched d h = record {
        whole = d;
        line = [];
        much = 0;
        mirrors = h;
        its_line = inr refl;
        is = ap (λ log. record d { log = log }) (sym (append-nil d.log));
      }

      written :
          (line : List ℕ) (d : Disk)
          → Mirrors codec b d × Encodes codec e line
          → Mirrors codec (put_entry e b) (to_log line d) × MirrorsCut codec e b (to_log line d)
      written line d (h, k) = (
        append-Mirrors codec e b d line w (encode_entry-Holds codec k.call e line r s k.gives) h,
        record {
          whole = d;
          line = line;
          much = length line;
          mirrors = h;
          its_line = inl k;
          is = ap (λ cut. to_log cut d) (sym (take_all line));
        },
      )
