-- ===== src/Manifest/Catalog/Listing.antt =====
-- The catalog's listing and its count, after any operations.
use mnemosia.Prelude.{◌≡◌, refl, sym, subst, length}
use mnemosia.Manifest.Entry.{Entry, empty_book, put_entry}
use mnemosia.Manifest.Entry.Merge.{empty_book-Proper}
use mnemosia.Manifest.Entry.Count.{Ordered, keys, put_entry-Ordered, Ordered-count}
use mnemosia.Manifest.Lines.{Codec}
use mnemosia.Manifest.Lines.Scan.{RoundTrip}
use mnemosia.Manifest.Log.{FileSystem}
use mnemosia.Manifest.Catalog.{Manifest, lookup, marked, len, entries}
use mnemosia.Manifest.Catalog.Outcomes.{Consistent, kept-Consistent, compact-Consistent}
use mnemosia.Manifest.Catalog.History.{
  History, opened, appended, kept, removed, compacted, History-Consistent, after_append,
  removed_entry,
}

empty_book-Ordered : Ordered empty_book
unfolding keys
empty_book-Ordered = record { proper = empty_book-Proper; order = refl }

module _ (codec : Codec) (files : FileSystem) (r : RoundTrip codec) where
  after :
      (e : Entry) (m n : Manifest)
      → Consistent codec (put_entry e m.book) n
      → Ordered m.book
      → Ordered n.book
  after e m n c o = subst Ordered (sym c.book) (put_entry-Ordered e m.book o)

  History-Ordered : (m : Manifest) → History codec files m → Ordered m.book
  History-Ordered m opened = empty_book-Ordered
  History-Ordered _ (appended e m n s h k) =
      after e m n (after_append codec files r e m n s (History-Consistent codec files r m h) k)
        (History-Ordered m h)
  History-Ordered _ (kept e m k n x s h w a) =
      after e m n
        (kept-Consistent codec files r e m.book m k n x s (History-Consistent codec files r m h) w
          a)
        (History-Ordered m h)
  History-Ordered _ (removed now id m n s h k) =
      let (e, f, a) = removed_entry codec files r now id m n (lookup id m.book) refl k in
      after (marked now e) m n
        (after_append codec files r (marked now e) m n (s e f)
          (History-Consistent codec files r m h) a)
        (History-Ordered m h)
  History-Ordered _ (compacted m n x h k) =
      let c =
        subst (λ y. Consistent codec m.book y.1) k
          ((compact-Consistent codec files r m.book).at m (History-Consistent codec files r m h)) in
      subst Ordered (sym c.book) (History-Ordered m h)

  -- With the format's round trip and lines that fit: after any appends and removals that returned with no
  -- error, or wrote their entry and then failed in the compaction that they called, and after compactions
  -- with any result, the catalog counts as many records as it lists.
  pub len-History : (m : Manifest) → History codec files m → len m.book ≡ length (entries m.book)
  unfolding len entries
  len-History m h = Ordered-count m.book (History-Ordered m h)
