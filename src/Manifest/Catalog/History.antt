-- ===== src/Manifest/Catalog/History.antt =====
-- What holds of a catalog after any operations, from an empty directory on.
use mnemosia.Prelude.{
  ℕ, ◌≡◌, refl, sym, ◌∙◌, ap, subst, [], Option, none, some, number_keys, ◌==◌, map_get,
  map_get-map_put, arith, if◌then◌else◌,
}
use mnemosia.Prelude.Exec.{Result, ok, err, Post, lift, ◌>>=◌}
use mnemosia.Manifest.Entry.{Entry, Book, empty_book, put_entry}
use mnemosia.Manifest.Entry.Merge.{Same, empty_book-Proper, put_entries}
use mnemosia.Manifest.Entry.Fold.{Same-refl}
use mnemosia.Manifest.Lines.{Codec, Error, not_found}
use mnemosia.Manifest.Lines.Scan.{RoundTrip, Short, Holds}
use mnemosia.Manifest.Log.{FileSystem}
use mnemosia.Manifest.Replay.{HoldsSnapshot, replay-Mirrors}
use mnemosia.Manifest.Catalog.{
  Manifest, new_manifest, found, lookup, compact, append_entry, append, remove, marked, load,
  load_book,
}
use mnemosia.Manifest.Catalog.Outcomes.{
  Consistent, Failed, append-Consistent, kept-Consistent, compact-Consistent,
}

-- A catalog that an empty directory's became by appends and removals of entries whose lines fit the
-- reader's buffer, and by compactions with any result. An append, a removal's too, returned with no
-- error, or wrote its entry and then ended with any result of the compaction that it called.
pub data History (codec : Codec) (files : FileSystem) : Manifest → Type 0 where
  opened : History codec files new_manifest
  appended :
      (e : Entry) (m n : Manifest)
      → Short codec e
      → History codec files m
      → append codec files e m ≡ (ok tt, n)
      → History codec files n
  kept :
      (e : Entry) (m k n : Manifest) (x : Result Error (Unit {0}))
      → Short codec e
      → History codec files m
      → append_entry codec files e m ≡ (ok tt, k)
      → append codec files e m ≡ (x, n)
      → History codec files n
  removed :
      (now id : ℕ) (m n : Manifest)
      → ((e : Entry) → lookup id m.book ≡ ok e → Short codec (marked now e))
      → History codec files m
      → remove codec files now id m ≡ (ok tt, n)
      → History codec files n
  compacted :
      (m n : Manifest) (x : Result Error (Unit {0}))
      → History codec files m
      → compact codec files m ≡ (x, n)
      → History codec files n

module _ (codec : Codec) (files : FileSystem) (r : RoundTrip codec) where
  new_manifest-Consistent : Consistent codec empty_book new_manifest
  unfolding Holds HoldsSnapshot put_entries map_get
  new_manifest-Consistent = record {
    book = refl;
    writable = record { proper = empty_book-Proper; short = λ k e h. ground arith };
    mirrors = record {
      folded = [];
      later = [];
      snapshot_holds = refl;
      log_holds = refl;
      same = Same-refl empty_book;
    };
  }

  -- The book of a state is what the state is consistent with.
  own : (b : Book) (m : Manifest) → Consistent codec b m → Consistent codec m.book m
  own b m c = subst (λ b. Consistent codec b m) (sym c.book) c

  pub after_append :
      (e : Entry) (m n : Manifest)
      → Short codec e
      → Consistent codec m.book m
      → append codec files e m ≡ (ok tt, n)
      → Consistent codec (put_entry e m.book) n
  after_append e m n s c h =
      subst (Post (λ _ n. Consistent codec (put_entry e m.book) n) (λ _ n. Failed codec e m.book n))
        h ((append-Consistent codec files r e m.book s).at m c)

  remove_found :
      (now id : ℕ) (m : Manifest) (e : Entry)
      → lookup id m.book ≡ ok e
      → remove codec files now id m ≡ append codec files (marked now e) m
  unfolding remove
  remove_found now id m e h =
      ap (λ x. (lift x >>= λ entry. append codec files (marked now entry)) m) h

  remove_missing :
      (now id : ℕ) (m : Manifest) (x : Error)
      → lookup id m.book ≡ err x
      → remove codec files now id m ≡ (err x, m)
  unfolding remove
  remove_missing now id m x h =
      ap (λ x. (lift x >>= λ entry. append codec files (marked now entry)) m) h

  -- A removal with no error is the append of a marked entry that was there.
  pub removed_entry :
      (now id : ℕ) (m n : Manifest) (x : Result Error Entry)
      → lookup id m.book ≡ x
      → remove codec files now id m ≡ (ok tt, n)
      → (e : Entry) × (lookup id m.book ≡ ok e) × append codec files (marked now e) m ≡ (ok tt, n)
  removed_entry now id m n (ok e) h k = (e, h, sym (remove_found now id m e h) ∙ k)
  removed_entry now id m n (err x) h k =
      ground (arith, ap (λ y. y.0) (sym (remove_missing now id m x h) ∙ k))

  pub History-Consistent : (m : Manifest) → History codec files m → Consistent codec m.book m
  History-Consistent m opened = new_manifest-Consistent
  History-Consistent _ (appended e m n s h k) =
      own (put_entry e m.book) n (after_append e m n s (History-Consistent m h) k)
  History-Consistent _ (kept e m k n x s h w a) =
      own (put_entry e m.book) n
        (kept-Consistent codec files r e m.book m k n x s (History-Consistent m h) w a)
  History-Consistent _ (removed now id m n s h k) =
      let (e, f, a) = removed_entry now id m n (lookup id m.book) refl k in
      own (put_entry (marked now e) m.book) n
        (after_append (marked now e) m n (s e f) (History-Consistent m h) a)
  History-Consistent _ (compacted m n x h k) = own m.book n (
      subst (λ y. Consistent codec m.book y.1) k
        ((compact-Consistent codec files r m.book).at m (History-Consistent m h)))

  -- With the format's round trip and lines that fit: after any appends and removals that returned with
  -- no error, or wrote their entry and then failed in the compaction that they called, and after
  -- compactions with any result, to load the files again gives the same map and the same order as
  -- the memory has. An append whose own write or sync failed is not among them.
  pub load-History :
      (m : Manifest)
      → History codec files m
      → (n : Manifest) × (load codec m.log ≡ ok n) × Same n.book m.book
  unfolding load load_book
  load-History m h =
      let c = History-Consistent m h in
      let (b, reads, same) = replay-Mirrors codec m.book m.log.disk c.mirrors in
      (record { log = m.log; book = b }, ap (load_book m.log) reads, same)

  found_there : (id : ℕ) (e : Entry) (o : Option Entry) → found id o ≡ ok e → o ≡ some e
  unfolding found
  found_there id e none h = ground arith
  found_there id e (some f) h = ground arith

  lookup-put_entry :
      (e : Entry) (b : Book) (j : ℕ)
      → lookup j (put_entry e b) ≡ (if e.id == j then found j (some e) else lookup j b)
  unfolding lookup put_entry
  lookup-put_entry e b j = ground (arith, map_get-map_put b.entries e.id e j)

  -- After an append with no error, of an entry whose lines fit, the entry's record resolves to it
  -- unless it is marked as deleted, and any other record as before.
  pub lookup-append :
      (e : Entry) (m n : Manifest) (j : ℕ)
      → History codec files m
      → Short codec e
      → append codec files e m ≡ (ok tt, n)
      → lookup j n.book
        ≡ (if e.id == j then if e.deleted then err (not_found j) else ok e else lookup j m.book)
  unfolding found
  lookup-append e m n j h s k =
      ap (lookup j) (after_append e m n s (History-Consistent m h) k).book
      ∙ lookup-put_entry e m.book j

  -- After a removal with no error, of an entry whose marker fits, the record resolves no more, and
  -- any other record as before.
  pub lookup-remove :
      (now id : ℕ) (m n : Manifest) (j : ℕ)
      → History codec files m
      → ((e : Entry) → lookup id m.book ≡ ok e → Short codec (marked now e))
      → remove codec files now id m ≡ (ok tt, n)
      → lookup j n.book ≡ (if id == j then err (not_found j) else lookup j m.book)
  unfolding lookup found
  lookup-remove now id m n j h s k =
      let (e, f, a) = removed_entry now id m n (lookup id m.book) refl k in
      let c = History-Consistent m h in
      ap (lookup j) (after_append (marked now e) m n (s e f) c a).book
      ∙ lookup-put_entry (marked now e) m.book j
      ∙ ap (λ i. if i == j then err (not_found j) else lookup j m.book)
          (c.writable.proper.keyed id e (found_there id e (map_get m.book.entries id) f))
