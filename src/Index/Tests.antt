-- ===== src/Index/Tests.antt =====
-- Runs of index/ on small vectors, and its theorems at them.
use mnemosia.Prelude.{
  ℕ, ◌+◌, ◌*◌, ◌<◌, ◌^◌, ◌≡◌, refl, ltb, Bool, true, ◌&&◌, List, [], ◌∷◌, ◌++◌, Option, none, some,
  length, take, arith, if◌then◌else◌, ◌≤◌, map_get, map_put,
}
use mnemosia.Prelude.Exec.{Result, ok, err, Post}
use mnemosia.Bytes.{to_bytes, of_bytes, add_bytes}
use mnemosia.Bytes.Little.{to_little, of_little}
use mnemosia.Index.Entry.{
  Entry, failed, Sealer, put_entry, encode_entry, removal, is_removed, read_entries, read_within,
  next_entry, open_entry, decode_entry, read_values,
}
use mnemosia.Index.Entry.RoundTrip.{Fits, AreBytes, IsSound, encode_entry-IsLine}
use mnemosia.Index.Entry.Torn.{Holds, no_entry, one_more}
use mnemosia.Index.Store.{
  Store, System, open_store, hydrate, live, replay, put_entry as put_over, append, append_entries,
  encode, write, compact_index,
}
use mnemosia.Index.Store.Book.{folded, IsDistinct}
use mnemosia.Index.Store.Append.{append-Prefix}
use mnemosia.Index.Live.{
  Index, Refused, foreign_model, wrong_width, new_index, store as put_row, add,
}
use mnemosia.Index.Live.Rows.{position}
use mnemosia.Index.Live.Refines.{IsAligned, Outcome, add-Refines}
use mnemosia.Index.Heap.{push, pop, fix, up, up_loop, down, down_loop, lower_child, less_at}
use mnemosia.Index.Heap.Cells.{Yields, get_elem?, set, swap}
use mnemosia.Index.Search.{
  Scores, search, found, best_of, offer_all, offer, dot, dot_from, row, drain,
}
use mnemosia.Index.Search.Nearest.{Answer, search-Nearest}
use mnemosia.Index.Store.Compact.{Recovers, compact_index-Recovers}

are_bytes : List ℕ → Bool
are_bytes [] = true
are_bytes (b ∷ bytes) = ltb b 256 && are_bytes bytes

are_bytes-AreBytes : (bytes : List ℕ) → are_bytes bytes ≡ true → AreBytes bytes
unfolding are_bytes
are_bytes-AreBytes [] h = tt
are_bytes-AreBytes (b ∷ bytes) h = ground (arith, are_bytes-AreBytes bytes)

-- A cipher that marks what it sealed, and refuses what is no bytes or too long.
sealed_by : List ℕ → Option (List ℕ)
unfolding are_bytes
sealed_by body = if are_bytes body && ltb (length body) (2 ^ 20) then some (7 ∷ body) else none

opened_by : List ℕ → Option (List ℕ)
unfolding are_bytes
opened_by [] = none
opened_by (b ∷ body) = if are_bytes body then some body else none

abbrev cipher : Sealer
cipher = record { seal = λ call body. sealed_by body; unseal = opened_by }

cipher-IsSound : IsSound cipher
unfolding sealed_by opened_by
cipher-IsSound = record {
  opens = λ call body sealed h. opens body sealed h;
  sized = λ call body sealed h below. sized body sealed h;
  bytes = bytes;
}
  where
    opens : (body sealed : List ℕ) → sealed_by body ≡ some sealed → opened_by sealed ≡ some body
    opens body [] h = ground arith
    opens body (b ∷ sealed) h = ground arith

    sized :
        (body sealed : List ℕ)
        → sealed_by body ≡ some sealed
        → (0 < length sealed) × (length sealed < 2 ^ 32)
    sized body [] h = ground arith
    sized body (b ∷ sealed) h = ground arith

    bytes : (sealed body : List ℕ) → opened_by sealed ≡ some body → AreBytes body
    bytes [] body h = ground arith
    bytes (b ∷ sealed) body h = are_bytes-AreBytes body (ground arith)

abbrev old : Entry
old = record { id = 1; model = 109 ∷ []; dim = 2; vector = 10 ∷ 20 ∷ [] }

abbrev other : Entry
other = record { id = 2; model = 109 ∷ []; dim = 2; vector = 30 ∷ 40 ∷ [] }

old-Fits : Fits old
old-Fits = record {
  model = omega arith;
  dim = omega arith;
  vector = refl;
  id = omega arith;
  values = omega arith;
}

other-Fits : Fits other
other-Fits = record {
  model = omega arith;
  dim = omega arith;
  vector = refl;
  id = omega arith;
  values = omega arith;
}

abbrev line : List ℕ
unfolding put_entry to_bytes to_little
line = to_little 4 30 ++ 7 ∷ put_entry old

line_made : encode_entry cipher 0 old ≡ ok line
unfolding encode_entry put_entry to_bytes to_little sealed_by
line_made = refl

delta-Holds : Holds cipher (old ∷ []) line
unfolding line
delta-Holds =
    one_more old [] line []
      (encode_entry-IsLine cipher 0 old line cipher-IsSound old-Fits line_made) no_entry

-- The second write stops after seven bytes.
abbrev failing : System
failing = record {
  on_call = λ n. none;
  on_write = λ n. if ltb n 2 then none else some (7, failed 28);
}

abbrev store : Store
unfolding open_store
store = open_store (record { base = []; delta = line; pending = [] })

append-Prefix_example :
    Post
      (λ _ after.
        hydrate cipher after.disk
        ≡ folded (read_entries cipher []) ((old ∷ []) ++ (other ∷ removal 1 ∷ [])))
      (λ _ after.
        (k : ℕ) × (k ≤ 2)
        × (hydrate cipher after.disk
            ≡ folded (read_entries cipher []) ((old ∷ []) ++ take k (other ∷ removal 1 ∷ []))))
      (append cipher failing (other ∷ removal 1 ∷ []) store)
unfolding open_store removal
append-Prefix_example =
    append-Prefix cipher failing store (old ∷ []) (other ∷ removal 1 ∷ []) cipher-IsSound
      (
        other-Fits,
        (
          record {
            model = omega arith;
            dim = omega arith;
            vector = refl;
            id = omega arith;
            values = tt;
          },
          tt,
        ),
      )
      delta-Holds

compact_index-Recovers_example :
    Recovers cipher (hydrate cipher store.disk) (compact_index cipher failing store).1.disk
    × IsDistinct (hydrate cipher (compact_index cipher failing store).1.disk)
compact_index-Recovers_example = compact_index-Recovers cipher failing store cipher-IsSound

-- The removal did not reach the file.
appended :
    hydrate cipher (append cipher failing (other ∷ removal 1 ∷ []) store).1.disk ≡ old ∷ other ∷ []
unfolding hydrate append live replay read_entries read_within next_entry open_entry decode_entry
    encode_entry put_entry put_over to_bytes of_bytes add_bytes to_little of_little read_values
    removal is_removed sealed_by opened_by append_entries encode write store
appended = refl

-- Two vectors of one model, the first then replaced.
two_rows : Result Refused (Index ℕ)
unfolding add put_row new_index map_get map_put
two_rows = elim (add 7 "m" (1 ∷ 2 ∷ []) (new_index "m" 2)) [
  | ok i ↦ add 9 "m" (3 ∷ 4 ∷ []) i
  | err e ↦ err e
]

abbrev two_rows_index : Index ℕ
two_rows_index = record {
  dim = 2;
  model = "m";
  ids = 7 ∷ 9 ∷ [];
  vectors = 1 ∷ 2 ∷ 3 ∷ 4 ∷ [];
  at = (7, 0) ∷ (9, 1) ∷ [];
}

two_rows_made : two_rows ≡ ok two_rows_index
unfolding two_rows add put_row new_index map_get map_put
two_rows_made = refl

row_replaced :
    add 9 "m" (5 ∷ 6 ∷ []) two_rows_index
    ≡ ok (record two_rows_index { vectors = 1 ∷ 2 ∷ 5 ∷ 6 ∷ [] })
unfolding add put_row map_get
row_replaced = refl

row_foreign : add 9 "n" (5 ∷ 6 ∷ []) two_rows_index ≡ err foreign_model
unfolding add
row_foreign = refl

row_narrow : add 9 "m" (5 ∷ []) two_rows_index ≡ err wrong_width
unfolding add
row_narrow = refl

two_rows_index-IsAligned : IsAligned two_rows_index
unfolding map_get position
two_rows_index-IsAligned = record { sized = refl; placed = λ id. ground arith }

add-Refines_example :
    Outcome 9 "m" (5 ∷ 6 ∷ []) two_rows_index (add 9 "m" (5 ∷ 6 ∷ []) two_rows_index)
add-Refines_example = add-Refines two_rows_index 9 "m" (5 ∷ 6 ∷ []) two_rows_index-IsAligned

-- Whole numbers as scores.
abbrev whole_scores : Scores ℕ
whole_scores = record { nought = 0; plus = λ a b. a + b; times = λ a b. a * b; below = ltb }

-- Four records: with the query (1, 0) their scores are 4, 9, 1 and 9.
abbrev four_rows : Index ℕ
four_rows = record {
  dim = 2;
  model = "m";
  ids = 10 ∷ 11 ∷ 12 ∷ 13 ∷ [];
  vectors = 4 ∷ 0 ∷ 9 ∷ 5 ∷ 1 ∷ 7 ∷ 9 ∷ 2 ∷ [];
  at = (10, 0) ∷ (11, 1) ∷ (12, 2) ∷ (13, 3) ∷ [];
}

best_three :
    search whole_scores 1000 (1 ∷ 0 ∷ []) 3 four_rows
    ≡ some (
        ok (
          record { id = 11; score = 9 }
          ∷ record { id = 13; score = 9 }
          ∷ record { id = 10; score = 4 }
          ∷ []))
unfolding search found best_of offer_all offer dot dot_from row drain push pop fix up up_loop down
    down_loop lower_child less_at swap get_elem? set
best_three = refl

-- No slice is made for more than a thousand matches.
no_room : search whole_scores 1000 (1 ∷ 0 ∷ []) 1000 four_rows ≡ none
unfolding search found
no_room = refl

none_best : search whole_scores 1000 (1 ∷ 0 ∷ []) 0 four_rows ≡ some (ok [])
unfolding search
none_best = refl

wide_query : search whole_scores 1000 (1 ∷ 0 ∷ 2 ∷ []) 3 four_rows ≡ some (err wrong_width)
unfolding search
wide_query = refl

four_rows-IsAligned : IsAligned four_rows
unfolding map_get position
four_rows-IsAligned = record { sized = refl; placed = λ id. ground arith }

search-Nearest_example :
    Yields
      (Answer whole_scores (1 ∷ 0 ∷ []) 3 four_rows)
      (search whole_scores 1000 (1 ∷ 0 ∷ []) 3 four_rows)
search-Nearest_example =
    search-Nearest whole_scores (λ a. a) (λ a b. refl) 1000 (1 ∷ 0 ∷ []) 3 four_rows (omega arith)
      four_rows-IsAligned
