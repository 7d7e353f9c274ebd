-- ===== src/Local/Slabs.antt =====
-- local/slabs.go: the ledger of slabs. Each function is the effect of one SQL statement on the
-- rows of the table; `pinned_at` is the time of the call in milliseconds, and counters do not wrap.
pub mod Origin
use mnemosia.Prelude.{
  ℕ, ◌+◌, Bool, true, false, List, [], ◌∷◌, ◌==◌, string_keys, leb, if◌then◌else◌,
}
use mnemosia.Sia.Names.{SlabId}

pub data SlabOrigin : Type 0 where
  slab_pinned slab_hydrated : SlabOrigin

unfoldable pub releasable_origin : SlabOrigin → Bool
releasable_origin slab_pinned = true
releasable_origin slab_hydrated = false

pub record TrackedSlab : Type 0 where
  pub slab_id : SlabId
  pub pinned_at : ℕ
  pub records : ℕ
  pub bytes : ℕ
  pub origin : SlabOrigin

abbrev pub Ledger : Type 0
Ledger = List TrackedSlab

-- CASE WHEN slabs.origin = pinned OR excluded.origin = pinned THEN pinned ELSE hydrated
unfoldable pub merge_origin : SlabOrigin → SlabOrigin → SlabOrigin
merge_origin slab_pinned _ = slab_pinned
merge_origin slab_hydrated slab_pinned = slab_pinned
merge_origin slab_hydrated slab_hydrated = slab_hydrated

unfoldable pub track_as : SlabId → ℕ → ℕ → ℕ → SlabOrigin → Ledger → Ledger
unfolding merge_origin
track_as id now records bytes origin [] =
    record { slab_id = id; pinned_at = now; records = records; bytes = bytes; origin = origin } ∷ []
track_as id now records bytes origin (row ∷ rows) =
    if row.slab_id == id
    then record row {
      records = row.records + records;
      bytes = row.bytes + bytes;
      origin = merge_origin row.origin origin;
    }
      ∷ rows
    else row ∷ track_as id now records bytes origin rows

unfoldable pub track_slab : SlabId → ℕ → ℕ → ℕ → Ledger → Ledger
unfolding track_as
track_slab id now records bytes = track_as id now records bytes slab_pinned

unfoldable pub adopt_slab : SlabId → ℕ → ℕ → ℕ → Ledger → Ledger
unfolding track_as
adopt_slab id now records bytes = track_as id now records bytes slab_hydrated

-- ORDER BY pinned_at
unfoldable pub insert_by_age : TrackedSlab → Ledger → Ledger
insert_by_age row [] = row ∷ []
insert_by_age row (other ∷ rows) =
    if leb row.pinned_at other.pinned_at then row ∷ other ∷ rows else other ∷ insert_by_age row rows

unfoldable pub tracked_slabs : Ledger → Ledger
unfolding insert_by_age
tracked_slabs [] = []
tracked_slabs (row ∷ rows) = insert_by_age row (tracked_slabs rows)

take_row : TrackedSlab → TrackedSlab
take_row row = record row { origin = slab_pinned }

-- The rows that change are counted.
unfoldable pub take_slab_ownership : Ledger → Ledger × ℕ
unfolding take_row releasable_origin
take_slab_ownership [] = ([], 0)
take_slab_ownership (row ∷ rows) =
    let (rest, n) = take_slab_ownership rows in
    if releasable_origin row.origin then (row ∷ rest, n) else (take_row row ∷ rest, n + 1)

unfoldable pub forget_slab : SlabId → Ledger → Ledger
forget_slab id [] = []
forget_slab id (row ∷ rows) =
    let rest = forget_slab id rows in if row.slab_id == id then rest else row ∷ rest
