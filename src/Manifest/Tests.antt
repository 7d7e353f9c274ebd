-- ===== src/Manifest/Tests.antt =====
-- Runs of manifest/ with a small format, and its theorems at them.
mod SmallCodec
use mnemosia.Prelude.{
  ℕ, ◌+◌, ◌-◌, ◌<◌, ◌≡◌, refl, sym, ◌∙◌, ap, subst, Bool, true, false, ◌&&◌, List, [], ◌∷◌, map_put,
  map_get, number_keys, nat_eq, String, string_keys, ◌==◌, Option, none, some, length, All, arith,
  if◌then◌else◌, Bool-cases, inl, inr,
}
use text.Mathlib.TextEquality.{eq_iff}
use mnemosia.Prelude.Int.{ℤ, pos, negsuc}
use mnemosia.Prelude.Exec.{Result, ok, err, Runs, Keeps}
use mnemosia.Manifest.Log
use mnemosia.Manifest.Log.{
  FileSystem, append_line, install, write_entries, remove_pending, encode, write, call,
  due_for_compaction,
}
use mnemosia.Manifest.Catalog.{
  Manifest, new_manifest, append, append_entry, compact, remove, marked, lookup, load, len, entries,
  on_log,
}
use mnemosia.Manifest.Catalog.Outcomes.{Consistent, Failed, append-Consistent, compact-Consistent}
use mnemosia.Manifest.Catalog.History.{
  History, opened, appended, compacted, load-History, lookup-append, lookup-remove,
}
use mnemosia.Manifest.Catalog.Listing.{len-History}
use mnemosia.Manifest.Entry.{Entry, no_entry, empty_book, put_entry, all_entries, entry_at, seen}
use mnemosia.Manifest.Entry.Merge.{Same}
use mnemosia.Manifest.Lines.{Codec, Error, failed, not_found, encode_entry}
use mnemosia.Manifest.Lines.Scan.{RoundTrip, Short}
use mnemosia.Manifest.Tests.SmallCodec.{
  int_eq0, no_tags, bare, flag, write_out, seal_with, shift, small_codec, small_codec-RoundTrip,
}

-- Record 7, and its line at any call.
abbrev seven : Entry
seven = record no_entry { id = 7; written_at = 50 }

line_of : Result Error (List ℕ) → List ℕ
line_of (ok line) = line
line_of (err e) = []

seven-Short :
    (at : ℕ) (d : Bool) → Short small_codec (record seven { written_at = at; deleted = d })
unfolding encode_entry write_out seal_with shift bare flag line_of
seven-Short at true = record { fits = λ n line h. omega (arith, ap (λ r. length (line_of r)) h) }
seven-Short at false = record { fits = λ n line h. omega (arith, ap (λ r. length (line_of r)) h) }

-- A file system on which call number 8 fails, which is the rename of the compaction below.
abbrev files : FileSystem
files = record {
  on_call = λ n. if nat_eq n 8 then some (failed 28) else none;
  on_write = λ n. none;
}

abbrev one : Manifest
one = (append small_codec files seven new_manifest).1

one-History : History small_codec files one
unfolding append append_entry append_line on_log encode encode_entry write_out bare seal_with shift
    write call due_for_compaction int_eq0 no_tags flag
one-History = appended seven new_manifest one (seven-Short 50 false) opened refl

two : Manifest
two = (compact small_codec files one).1

two-History : History small_codec files two
unfolding two
two-History = compacted one two (compact small_codec files one).0 one-History refl

rename_fails : (compact small_codec files one).0 ≡ err (failed 28)
unfolding Log.compact all_entries entry_at seen put_entry map_get map_put compact install
    write_entries remove_pending append append_entry append_line on_log encode encode_entry
    write_out bare seal_with shift write call due_for_compaction int_eq0 no_tags flag
rename_fails = refl

entry_in : Result Error Entry → Entry
entry_in (ok e) = e
entry_in (err x) = no_entry

found_seven : lookup 7 one.book ≡ ok seven
unfolding lookup put_entry map_put map_get append append_entry append_line on_log encode
    encode_entry write_out bare seal_with shift write call due_for_compaction int_eq0 no_tags flag
found_seven = refl

marked-Short : (e : Entry) → lookup 7 one.book ≡ ok e → Short small_codec (marked 60 e)
unfolding entry_in
marked-Short e h =
    subst (λ e. Short small_codec (marked 60 e)) (ap entry_in (sym found_seven ∙ h))
      (seven-Short 60 true)

gone : Manifest
gone = (remove small_codec files 60 7 one).1

load-History_example : (n : Manifest) × (load small_codec two.log ≡ ok n) × Same n.book two.book
load-History_example = load-History small_codec files small_codec-RoundTrip two two-History

append-Consistent_example :
    Runs
      (Consistent small_codec empty_book)
      (append small_codec files seven)
      (λ _ m. Consistent small_codec (put_entry seven empty_book) m)
      (λ _ m. Failed small_codec seven empty_book m)
append-Consistent_example =
    append-Consistent small_codec files small_codec-RoundTrip seven empty_book
      (seven-Short 50 false)

compact-Consistent_example : Keeps (Consistent small_codec one.book) (compact small_codec files)
compact-Consistent_example = compact-Consistent small_codec files small_codec-RoundTrip one.book

one_appended : append small_codec files seven new_manifest ≡ (ok tt, one)
unfolding append append_entry append_line on_log encode encode_entry write_out bare seal_with shift
    write call due_for_compaction int_eq0 no_tags flag
one_appended = refl

lookup-append_example : lookup 7 one.book ≡ ok seven
lookup-append_example =
    lookup-append small_codec files small_codec-RoundTrip seven new_manifest one 7 opened
      (seven-Short 50 false) one_appended

removal : remove small_codec files 60 7 one ≡ (ok tt, gone)
unfolding gone remove lookup put_entry map_put map_get append append_entry append_line on_log encode
    encode_entry write_out bare seal_with shift write call due_for_compaction int_eq0 no_tags flag
removal = refl

lookup-remove_example : lookup 7 gone.book ≡ err (not_found 7)
lookup-remove_example =
    lookup-remove small_codec files small_codec-RoundTrip 60 7 one gone 7 one-History marked-Short
      removal

abbrev line : List ℕ
line = 33 ∷ 40 ∷ 83 ∷ 33 ∷ 10 ∷ []

len-History_example : len two.book ≡ length (entries two.book)
len-History_example = len-History small_codec files small_codec-RoundTrip two two-History
