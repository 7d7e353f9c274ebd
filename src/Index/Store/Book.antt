-- ===== src/Index/Store/Book.antt =====
-- The entries that hydration gives, by the record that they belong to.
use mnemosia.Prelude.{
  ℕ, ◌≡◌, refl, ap, ◌∙◌, nat_eq, List, [], ◌∷◌, Option, none, some, if◌then◌else◌, All, arith,
}
use mnemosia.Index.Entry.{Entry, Sealer, is_removed, read_entries}
use mnemosia.Index.Entry.RoundTrip.{Fits, IsSound}
use mnemosia.Index.Entry.Bounds.{read_entries-Fits}
use mnemosia.Index.Store.{Disk, put_entry, replay, live, hydrate}

unfoldable pub find : ℕ → List Entry → Option Entry
find id [] = none
find id (e ∷ es) = let rest = find id es in if nat_eq e.id id then some e else rest

abbrev or_else : Option Entry → Option Entry → Option Entry
or_else (some e) o = some e
or_else none o = o

-- The last entry of a record.
unfoldable pub last : ℕ → List Entry → Option Entry
last id [] = none
last id (e ∷ es) = or_else (last id es) (if nat_eq e.id id then some e else none)

abbrev unless_removed : Option Entry → Option Entry
unless_removed none = none
unless_removed (some e) = if is_removed e then none else some e

-- No record has two entries.
abbrev pub IsDistinct : List Entry → Type 0
IsDistinct [] = Unit
IsDistinct (e ∷ es) = (find e.id es ≡ none) × IsDistinct es

pub find-put_entry :
    (id : ℕ) (e : Entry) (out : List Entry)
    → find id (put_entry e out) ≡ (if nat_eq e.id id then some e else find id out)
unfolding find put_entry
find-put_entry id e [] = ground arith
find-put_entry id e (x ∷ out) = ground (arith, find-put_entry id e out)

pub put_entry-IsDistinct :
    (e : Entry) (out : List Entry) → IsDistinct out → IsDistinct (put_entry e out)
unfolding find put_entry
put_entry-IsDistinct e [] h = (refl, tt)
put_entry-IsDistinct e (x ∷ out) h =
    ground (arith, find-put_entry x.id e out, put_entry-IsDistinct e out h.1)

replay-IsDistinct : (es out : List Entry) → IsDistinct out → IsDistinct (replay es out)
unfolding replay
replay-IsDistinct [] out h = h
replay-IsDistinct (e ∷ es) out h =
    replay-IsDistinct es (put_entry e out) (put_entry-IsDistinct e out h)

find-replay :
    (id : ℕ) (es out : List Entry) → find id (replay es out) ≡ or_else (last id es) (find id out)
unfolding replay last
find-replay id [] out = refl
find-replay id (e ∷ es) out =
    ground (arith, find-replay id es (put_entry e out), find-put_entry id e out)

find-live :
    (id : ℕ) (es : List Entry) → IsDistinct es → find id (live es) ≡ unless_removed (find id es)
unfolding find live
find-live id [] h = refl
find-live id (e ∷ es) h = ground (arith, find-live id es h.1, find-live e.id es h.1)

live-IsDistinct : (es : List Entry) → IsDistinct es → IsDistinct (live es)
unfolding find live
live-IsDistinct [] h = tt
live-IsDistinct (e ∷ es) h = ground (arith, live-IsDistinct es h.1, find-live e.id es h.1)

last-find : (id : ℕ) (es : List Entry) → IsDistinct es → last id es ≡ find id es
unfolding find last
last-find id [] h = refl
last-find id (e ∷ es) h = ground (arith, last-find id es h.1)

unless_removed_twice : (o : Option Entry) → unless_removed (unless_removed o) ≡ unless_removed o
unless_removed_twice none = refl
unless_removed_twice (some e) = ground arith

-- What a base of these entries and a delta of those hold of a record.
abbrev pub folded : List Entry → List Entry → List Entry
folded base delta = live (replay delta (replay base []))

pub folded-IsDistinct : (base delta : List Entry) → IsDistinct (folded base delta)
folded-IsDistinct base delta =
    live-IsDistinct (replay delta (replay base []))
      (replay-IsDistinct delta (replay base []) (replay-IsDistinct base [] tt))

find-folded :
    (id : ℕ) (base delta : List Entry)
    → find id (folded base delta) ≡ unless_removed (or_else (last id delta) (last id base))
unfolding find
find-folded id base delta =
    find-live id (replay delta (replay base []))
      (replay-IsDistinct delta (replay base []) (replay-IsDistinct base [] tt))
    ∙ ap unless_removed (find-replay id delta (replay base []))
    ∙ ground (arith, find-replay id base [])

-- Folding a delta once more over what it was folded into changes no record.
pub folded_again :
    (id : ℕ) (base delta : List Entry)
    → find id (folded (folded base delta) delta) ≡ find id (folded base delta)
folded_again id base delta = ground (
  arith,
  find-folded id (folded base delta) delta,
  find-folded id base delta,
  last-find id (folded base delta) (folded-IsDistinct base delta),
  unless_removed_twice (or_else (last id delta) (last id base)),
)

-- With the delta emptied it is the same.
pub folded_alone :
    (id : ℕ) (base delta : List Entry)
    → find id (folded (folded base delta) []) ≡ find id (folded base delta)
unfolding last
folded_alone id base delta = ground (
  arith,
  find-folded id (folded base delta) [],
  find-folded id base delta,
  last-find id (folded base delta) (folded-IsDistinct base delta),
  unless_removed_twice (or_else (last id delta) (last id base)),
)

put_entry-Fits : (e : Entry) (out : List Entry) → Fits e → All Fits out → All Fits (put_entry e out)
unfolding put_entry
put_entry-Fits e [] one all = (one, tt)
put_entry-Fits e (x ∷ out) one all = ground (arith, put_entry-Fits e out one all.1)

replay-Fits : (es out : List Entry) → All Fits es → All Fits out → All Fits (replay es out)
unfolding replay
replay-Fits [] out h all = all
replay-Fits (e ∷ es) out h all = replay-Fits es (put_entry e out) h.1 (put_entry-Fits e out h.0 all)

live-Fits : (es : List Entry) → All Fits es → All Fits (live es)
unfolding live
live-Fits [] h = tt
live-Fits (e ∷ es) h = ground (arith, live-Fits es h.1)

-- What hydration gives can be written again.
pub hydrate-Fits : (sealer : Sealer) (d : Disk) → IsSound sealer → All Fits (hydrate sealer d)
unfolding hydrate
hydrate-Fits sealer d sound = live-Fits _ (
    replay-Fits (read_entries sealer d.delta) _ (read_entries-Fits sealer sound d.delta)
      (replay-Fits (read_entries sealer d.base) [] (read_entries-Fits sealer sound d.base) tt))
