-- ===== src/Manifest/Compaction.antt =====
-- What folding the log into a snapshot leaves in the files, at whichever call it stops.
use mnemosia.Prelude.{
  ℕ, ◌+◌, refl, sym, subst, List, [], ◌∷◌, ◌++◌, append-nil, append_assoc, contains, number_keys,
  take, length,
}
use mnemosia.Prelude.Exec.{
  Result, Runs, Keeps, Runs-Keeps, Runs-bind, Runs-pure, Runs-step, Runs-state,
}
use mnemosia.Manifest.Entry.{Entry, Book, empty_book, all_entries, entry_at}
use mnemosia.Manifest.Entry.Merge.{put_entries, Proper, empty_book-Proper, put_entries-Proper}
use mnemosia.Manifest.Entry.Fold.{
  put_entries-all_entries, put_entries_again, Same-put_entries, Same-trans, Same-sym, Within,
  Within-rest, Within-head, entry_at_listed,
}
use mnemosia.Manifest.Lines.{Codec, Error}
use mnemosia.Manifest.Lines.Scan.{RoundTrip, Short, Holds, Holds-append, encode_entry-Holds}
use mnemosia.Manifest.Log.{
  Disk, Log, FileSystem, to_pending, open_pending, rename_pending, truncate_log, write_entries,
  finish, install, remove_pending, compact,
}
use mnemosia.Manifest.Log.Rules.{OnDisk, Encodes, Runs-call, Runs-write, Runs-encode, Runs-modify}
use mnemosia.Manifest.Replay.{Mirrors, Writable, HoldsSnapshot}

module _ (codec : Codec) where
  AllShort : List Entry → Type 0
  AllShort [] = Unit
  AllShort (e ∷ es) = Short codec e × AllShort es

  -- The new file holds these entries, beside files that mirror the book.
  Pending : Book → List Entry → Disk → Type 0
  Pending b es d = Mirrors codec b d × Holds codec d.pending es

  -- The snapshot is the book by itself, whatever the log still holds.
  Folded : Book → Disk → Type 0
  Folded b d = Mirrors codec b d × Mirrors codec b (truncate_log d)

module _ (codec : Codec) (files : FileSystem) (r : RoundTrip codec) where
  Pending-step :
      (b : Book) (done : List Entry) (e : Entry) (line : List ℕ) (d : Disk)
      → Short codec e
      → Pending codec b done d × Encodes codec e line
      → Pending codec b (done ++ e ∷ []) (to_pending line d)
  unfolding Pending
  Pending-step b done e line d s (h, k) = (
    record {
      folded = h.0.folded;
      later = h.0.later;
      snapshot_holds = h.0.snapshot_holds;
      log_holds = h.0.log_holds;
      same = h.0.same;
    },
    Holds-append codec d.pending line done (e ∷ []) h.1
        (encode_entry-Holds codec k.call e line r s k.gives),
  )

  pending_any :
      (b : Book) (d : Disk) (pending : List ℕ)
      → Mirrors codec b d
      → Mirrors codec b (record d { pending = pending })
  pending_any b d pending h = record {
    folded = h.folded;
    later = h.later;
    snapshot_holds = h.snapshot_holds;
    log_holds = h.log_holds;
    same = h.same;
  }

  write_entries-Pending :
      (b : Book) (done es : List Entry) (n : ℕ)
      → AllShort codec es
      → Runs
          (OnDisk (Pending codec b done))
          (write_entries codec files es n)
          (λ _ l. OnDisk (Pending codec b (done ++ es)) l)
          (λ _ l. OnDisk (Mirrors codec b) l)
  unfolding write_entries AllShort Pending
  write_entries-Pending b done [] n s = Runs-pure n (λ l h. record {
    holds = subst (λ es. Pending codec b es l.disk) (sym (append-nil done)) h.holds;
  })
  write_entries-Pending b done (e ∷ es) n s = Runs-bind (Runs-encode codec e (λ d h. h.0)) (λ line.
      Runs-bind
        (Runs-write files to_pending line
          (λ d m h. pending_any b d (d.pending ++ take m line) h.0.0)
          (λ d h. Pending-step b done e line d s.0 h))
        (λ _.
          subst
            (λ all.
              Runs (OnDisk (Pending codec b (done ++ e ∷ [])))
                (write_entries codec files es (n + length line))
                (λ _ l. OnDisk (Pending codec b all) l) (λ _ l. OnDisk (Mirrors codec b) l))
            (append_assoc done (e ∷ []) es)
            (write_entries-Pending b (done ++ e ∷ []) es (n + length line) s.1)))

  -- The rename: the log's lines over the new snapshot land on the same book.
  rename-Folded :
      (b : Book) (d : Disk)
      → Proper b
      → Pending codec b (all_entries b b.order) d
      → Folded codec b (rename_pending d)
  unfolding Pending Folded HoldsSnapshot Holds put_entries
  rename-Folded b d p (m, h) = (
    record {
      folded = all_entries b b.order;
      later = m.later;
      snapshot_holds = h;
      log_holds = m.log_holds;
      same =
          Same-trans (put_entries m.later again) (put_entries m.later b) b
            (Same-put_entries m.later again b
              (put_entries-Proper (all_entries b b.order) empty_book empty_book-Proper) p
              (put_entries-all_entries b p))
            (put_entries_again m.later before b
              (put_entries-Proper m.folded empty_book empty_book-Proper) p
              (Same-sym (put_entries m.later before) b m.same));
    },
    record {
      folded = all_entries b b.order;
      later = [];
      snapshot_holds = h;
      log_holds = refl;
      same = put_entries-all_entries b p;
    },
  )
    where
      again : Book
      again = put_entries (all_entries b b.order) empty_book

      before : Book
      before = put_entries m.folded empty_book

  -- After the rename.
  finish_install :
      (b : Book) (n : ℕ)
      → Runs
          (OnDisk (Folded codec b))
          (finish files n)
          (λ _ l. OnDisk (Mirrors codec b) l)
          (λ _ l. OnDisk (Mirrors codec b) l)
  unfolding finish Folded
  finish_install b n = Runs-bind (Runs-call files truncate_log up emptied) (λ _.
      Runs-bind (Runs-call files (λ d. d) (λ d h. h) same) (λ _.
        Runs-bind (Runs-call files (λ d. d) (λ d h. h) same) (λ _. Runs-modify _ (λ l. refl))))
    where
      up : (d : Disk) → Folded codec b d → Mirrors codec b d
      up d h = h.0

      emptied : (d : Disk) → Folded codec b d → Mirrors codec b (truncate_log d)
      emptied d h = h.1

      same : (d : Disk) → Mirrors codec b d → Mirrors codec b d
      same d h = h

  install-Mirrors :
      (b : Book)
      → Proper b
      → AllShort codec (all_entries b b.order)
      → Runs
          (OnDisk (Pending codec b []))
          (install codec files (all_entries b b.order))
          (λ _ l. OnDisk (Mirrors codec b) l)
          (λ _ l. OnDisk (Mirrors codec b) l)
  unfolding install Folded Pending
  install-Mirrors b p s = Runs-bind (write_entries-Pending b [] (all_entries b b.order) 0 s) (λ n.
      Runs-bind (Runs-call files (λ d. d) up same) (λ _.
        Runs-bind (Runs-call files (λ d. d) up same) (λ _.
          Runs-bind (Runs-call files rename_pending up (λ d h. rename-Folded b d p h))
            (λ _. finish_install b n))))
    where
      up : (d : Disk) → Pending codec b (all_entries b b.order) d → Mirrors codec b d
      up d h = h.0

      same :
          (d : Disk)
          → Pending codec b (all_entries b b.order) d
          → Pending codec b (all_entries b b.order) d
      same d h = h

  all_entries-AllShort :
      (b : Book) (ids : List ℕ)
      → Writable codec b
      → Within b ids
      → AllShort codec (all_entries b ids)
  unfolding all_entries AllShort contains
  all_entries-AllShort b [] w h = tt
  all_entries-AllShort b (id ∷ rest) w h = (
    subst (Short codec) refl
        (w.short id (entry_at b id) (entry_at_listed b id w.proper (Within-head b id rest h))),
    all_entries-AllShort b rest w (Within-rest b id rest h),
  )

  remove_pending-Mirrors :
      (b : Book) (x : Result Error (Unit {0}) × Log)
      → OnDisk (Mirrors codec b) x.1
      → OnDisk (Mirrors codec b) (remove_pending files x).1
  unfolding remove_pending
  remove_pending-Mirrors b (a, l) h =
      (Runs-Keeps (Runs-call files open_pending (λ d h. h) (λ d h. pending_any b d [] h))).at l h

  pub compact-Mirrors :
      (b : Book)
      → Writable codec b
      → Keeps (OnDisk (Mirrors codec b)) (compact codec files (all_entries b b.order))
  unfolding compact Pending Holds
  compact-Mirrors b w = Runs-Keeps (
      Runs-bind (Runs-call files open_pending (λ d h. h) opened) (λ _. Runs-step (λ l h.
        remove_pending-Mirrors b (install codec files (all_entries b b.order) l) (
          Runs-state (install-Mirrors b w.proper (all_entries-AllShort b b.order w (λ k h. h))) l
            h))))
    where
      opened : (d : Disk) → Mirrors codec b d → Pending codec b [] (open_pending d)
      opened d h = (pending_any b d [] h, refl)
