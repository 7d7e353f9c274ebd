-- ===== src/Manifest/Entry.antt =====
-- manifest/entry.go and the fields `entries` and `order` of manifest/manifest.go.
pub mod Merge
pub mod Fold
pub mod Count
use mnemosia.Prelude.{
  ℕ, ◌+◌, Bool, true, false, not, List, [], ◌∷◌, ◌++◌, Option, none, some, number_keys, map_put,
  map_get, String, if◌then◌else◌,
}
use mnemosia.Prelude.Int.{ℤ, pos}

-- A record id is 16 bytes, here as a number, and a time is in milliseconds.
pub record Entry : Type 0 where
  pub id : ℕ
  pub kind : String
  pub subtype : String
  pub version : ℤ
  pub cid : String
  pub object_ref : String
  pub slab_id : String
  pub bytes : ℤ
  pub tags : List String
  pub written_at : ℕ
  pub deleted : Bool

-- `Entry{}`
abbrev pub no_entry : Entry
no_entry = record {
  id = 0;
  kind = "";
  subtype = "";
  version = pos 0;
  cid = "";
  object_ref = "";
  slab_id = "";
  bytes = pos 0;
  tags = [];
  written_at = 0;
  deleted = false;
}

-- The current entry per record, and the order in which records first appeared.
pub record Book : Type 0 where
  pub entries : List (ℕ × Entry)
  pub order : List ℕ

abbrev pub empty_book : Book
empty_book = record { entries = []; order = [] }

unfoldable pub seen : Book → ℕ → Bool
seen b id = elim (map_get b.entries id) [ none ↦ false | some e ↦ true ]

unfoldable pub put_entry : Entry → Book → Book
put_entry e b = record {
  order = if seen b e.id then b.order else b.order ++ e.id ∷ [];
  entries = map_put b.entries e.id e;
}

-- `m.entries[id]`
unfoldable pub entry_at : Book → ℕ → Entry
entry_at b id = elim (map_get b.entries id) [ none ↦ no_entry | some e ↦ e ]

unfoldable pub all_entries : Book → List ℕ → List Entry
all_entries b [] = []
all_entries b (id ∷ rest) = entry_at b id ∷ all_entries b rest

-- `Entries`
unfoldable pub live_entries : Book → List ℕ → List Entry
live_entries b [] = []
live_entries b (id ∷ rest) =
    let others = live_entries b rest in
    if (entry_at b id).deleted then others else entry_at b id ∷ others

-- `Len`
unfoldable pub count_live : List (ℕ × Entry) → ℕ
count_live [] = 0
count_live ((id, e) ∷ rest) = let live = count_live rest in if e.deleted then live else live + 1
