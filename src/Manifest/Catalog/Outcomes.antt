-- ===== src/Manifest/Catalog/Outcomes.antt =====
-- How each operation of the catalog leaves its memory and its files.
use mnemosia.Prelude.{
  ◌≡◌, sym, ap, subst, ◌∙◌, ◌⊎◌, inl, inr, Bool, true, false, number_keys, if◌then◌else◌,
}
use mnemosia.Prelude.Exec.{
  Result, ok, err, Post, Exec, pure, gets, continue, ◌>>=◌, Runs, Keeps, Runs-bind, Runs-pure,
  Runs-gets, Runs-modify, Keeps-pure, Keeps-Runs_to,
}
use mnemosia.Manifest.Entry.{Entry, Book, put_entry, all_entries}
use mnemosia.Manifest.Lines.{Codec, Error}
use mnemosia.Manifest.Lines.Scan.{RoundTrip, Short}
use mnemosia.Manifest.Log
use mnemosia.Manifest.Log.{Disk, Log, FileSystem, append_line, due_for_compaction, replay}
use mnemosia.Manifest.Log.Rules.{OnDisk}
use mnemosia.Manifest.Replay.{
  Mirrors, MirrorsCut, Writable, append_line-Mirrors, put_entry-Writable,
}
use mnemosia.Manifest.Compaction.{compact-Mirrors}
use mnemosia.Manifest.Catalog.{Manifest, put_log, on_log, append_entry, compact, append}

module _ (codec : Codec) where
  -- Memory and files agree, and every entry can be written again.
  pub record Consistent (b : Book) (m : Manifest) : Type 0 where
    pub book : m.book ≡ b
    pub writable : Writable codec b
    pub mirrors : Mirrors codec b m.log.disk

  -- Memory is as it was, and the log ends in a part of the entry's line.
  pub record Torn (e : Entry) (b : Book) (m : Manifest) : Type 0 where
    pub book : m.book ≡ b
    pub writable : Writable codec b
    pub cut : MirrorsCut codec e b m.log.disk

  -- The files have the entry, and memory has not yet.
  record OneBehind (e : Entry) (b : Book) (m : Manifest) : Type 0 where
    book : m.book ≡ b
    writable : Writable codec b
    mirrors : Mirrors codec (put_entry e b) m.log.disk

  -- What a failed append may leave.
  pub Failed : Entry → Book → Manifest → Type 0
  Failed e b m = Consistent (put_entry e b) m ⊎ Torn e b m

module _ (codec : Codec) (files : FileSystem) (r : RoundTrip codec) where
  compacted :
      (b : Book) (m : Manifest) (x : Result Error (Unit {0}) × Log)
      → Consistent codec b m
      → OnDisk (Mirrors codec b) x.1
      → Consistent codec b (put_log m.book x).1
  unfolding put_log
  compacted b m (a, l) c h = record { book = c.book; writable = c.writable; mirrors = h.holds }

  compact-at :
      (b : Book) (m : Manifest)
      → Consistent codec b m
      → Consistent codec b (compact codec files m).1
  unfolding compact on_log
  compact-at b m c =
      compacted b m (Log.compact codec files (all_entries m.book m.book.order) m.log) c (
        subst
          (λ k. OnDisk (Mirrors codec b) (Log.compact codec files (all_entries k k.order) m.log).1)
          (sym c.book)
          ((compact-Mirrors codec files r b c.writable).at m.log (record { holds = c.mirrors })))

  -- With the format's round trip, a compaction leaves memory and files in agreement on the same book,
  -- whichever of its calls fails and however much of a failing write reaches the disk.
  pub compact-Consistent : (b : Book) → Keeps (Consistent codec b) (compact codec files)
  compact-Consistent b = record { at = compact-at b }

  appended_line :
      (e : Entry) (b : Book) (m : Manifest) (x : Result Error (Unit {0}) × Log)
      → Consistent codec b m
      → Post
          (λ _ l. OnDisk (Mirrors codec (put_entry e b)) l)
          (λ _ l. OnDisk (MirrorsCut codec e b) l)
          x
      → Post (λ _ n. OneBehind codec e b n) (λ _ n. Failed codec e b n) (put_log m.book x)
  unfolding put_log Failed
  appended_line e b m (ok a, l) c h = record {
    book = c.book;
    writable = c.writable;
    mirrors = h.holds;
  }
  appended_line e b m (err x, l) c h =
      inr (record { book = c.book; writable = c.writable; cut = h.holds })

  append_entry-Consistent :
      (e : Entry) (b : Book)
      → Short codec e
      → Runs
          (Consistent codec b)
          (append_entry codec files e)
          (λ _ m. Consistent codec (put_entry e b) m)
          (λ _ m. Failed codec e b m)
  unfolding append_entry on_log
  append_entry-Consistent e b s =
      Runs-bind (record { at = λ m c. written m c }) (λ _. Runs-modify _ caught_up)
    where
      written :
          (m : Manifest)
          → Consistent codec b m
          → Post
              (λ _ n. OneBehind codec e b n)
              (λ _ n. Failed codec e b n)
              (on_log (append_line codec files e) m)
      written m c = appended_line e b m (append_line codec files e m.log) c (
          (append_line-Mirrors codec files e b r s c.writable).at m.log
            (record { holds = c.mirrors }))

      caught_up :
          (m : Manifest)
          → OneBehind codec e b m
          → Consistent codec (put_entry e b) (record m { book = put_entry e m.book })
      caught_up m h = record {
        book = ap (put_entry e) h.book;
        writable = put_entry-Writable codec e b s h.writable;
        mirrors = h.mirrors;
      }

  -- With the format's round trip and lines that fit, an append with no error leaves memory and files in
  -- agreement on the book with the entry; after a failed one they agree on that book too, or memory is
  -- as it was and the log is that of the book before, with nothing, a part or all of the line that
  -- was sealed for this entry after it.
  pub append-Consistent :
      (e : Entry) (b : Book)
      → Short codec e
      → Runs
          (Consistent codec b)
          (append codec files e)
          (λ _ m. Consistent codec (put_entry e b) m)
          (λ _ m. Failed codec e b m)
  unfolding append Failed
  append-Consistent e b s =
      Runs-bind (append_entry-Consistent e b s) (λ _. Runs-bind (Runs-gets _) (λ due. folded due))
    where
      folded :
          (due : Bool)
          → Runs
              (Consistent codec (put_entry e b))
              (if due then compact codec files else pure tt)
              (λ _ m. Consistent codec (put_entry e b) m)
              (λ _ m. Failed codec e b m)
      folded true = Keeps-Runs_to (λ m h. inl h) (compact-Consistent (put_entry e b))
      folded false = Runs-pure tt (λ m h. h)

  -- Once the entry is in the log and in memory, the append ends in agreement, whether the compaction
  -- that it may call returns or fails.
  pub kept-Consistent :
      (e : Entry) (b : Book) (m k n : Manifest) (x : Result Error (Unit {0}))
      → Short codec e
      → Consistent codec b m
      → append_entry codec files e m ≡ (ok tt, k)
      → append codec files e m ≡ (x, n)
      → Consistent codec (put_entry e b) n
  unfolding append
  kept-Consistent e b m k n x s c written h =
      let here : Consistent codec (put_entry e b) k =
        subst (Post (λ _ k. Consistent codec (put_entry e b) k) (λ _ k. Failed codec e b k)) written
          ((append_entry-Consistent e b s).at m c) in
      subst (λ r. Consistent codec (put_entry e b) r.1)
        (sym (ap (continue fold_if_due) written) ∙ h)
        ((rest-Keeps (due_for_compaction k.log)).at k here)
    where
      fold_if_due : Unit {0} → Exec Manifest Error (Unit {0})
      fold_if_due _ = do
        due ← gets (λ m. due_for_compaction m.log)
        if due then compact codec files else pure tt

      rest-Keeps :
          (due : Bool)
          → Keeps (Consistent codec (put_entry e b)) (if due then compact codec files else pure tt)
      rest-Keeps true = compact-Consistent (put_entry e b)
      rest-Keeps false = Keeps-pure tt
