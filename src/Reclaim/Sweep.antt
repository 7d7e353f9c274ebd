-- ===== src/Reclaim/Sweep.antt =====
-- store/reclaim/reclaim.go: `Sweep`, the orphan scan and the methods that they share. Durations
-- are left out of the reports.
pub mod Safety
pub mod Rows
pub mod Order
use mnemosia.Prelude.{
  ℕ, ◌+◌, ◌-◌, false, List, [], ◌∷◌, ◌==◌, leb, string_keys, length, map, if◌then◌else◌,
}
use mnemosia.Prelude.Exec.{ok, Exec, pure, check_none, ◌>>=◌, ◌>>◌}
use mnemosia.Sia.Names.{SlabId, Account}
use mnemosia.Sia.Walk.{walk_objects}
use mnemosia.Local.Slabs
use mnemosia.Local.Slabs.{Ledger, TrackedSlab, tracked_slabs}
use mnemosia.Service.{
  Error, World, Env, Reporting, account, walk, delete_objects, unpin_slab, select_slabs,
  upsert_slab, delete_slab, delete_slab_meta, ask, act, statement, within, report_as,
}
use mnemosia.Reclaim.Plan.{Slab, Live, Plan, plan_sweep, check}

-- The tables `slabs` and `slab_cache`, of the second the slabs that have an entry.
pub record Device : Type 0 where
  pub ledger : Ledger
  pub slab_cache : List SlabId

abbrev pub Method : Type 0 → Type 0
Method A = Exec (World Device) Error A

unfoldable pub without : SlabId → List SlabId → List SlabId
without id [] = []
without id (x ∷ rest) = let kept = without id rest in if x == id then kept else x ∷ kept

abbrev pub forget_row : SlabId → Device → Device
forget_row id d = record d { ledger = Slabs.forget_slab id d.ledger }

abbrev pub forget_meta : SlabId → Device → Device
forget_meta id d = record d { slab_cache = without id d.slab_cache }

unfoldable pub of_row : TrackedSlab → Slab
of_row row = record {
  id = row.slab_id;
  pinned_at = row.pinned_at;
  records = row.records;
  bytes = row.bytes;
  origin = row.origin;
}

-- The ledger as `Tracked` lists it.
unfoldable pub rows_of : Ledger → List Slab
unfolding of_row
rows_of ledger = map of_row (tracked_slabs ledger)

pub record Sweep : Type 0 where
  pub objects_seen : ℕ
  pub objects_deleted : ℕ
  pub unreadable : ℕ
  pub slabs_released : ℕ
  pub slabs_held : ℕ
  pub before : Account
  pub after : Account

-- `Sweep.Freed` and `Repack.Freed`
unfoldable pub freed : Account → Account → ℕ
freed before after =
    if leb before.pinned_data after.pinned_data then 0 else before.pinned_data - after.pinned_data

abbrev no_account : Account
no_account = record { ready = false; pinned_data = 0; pinned_size = 0; max_pinned_data = 0 }

abbrev pub no_sweep : Sweep
no_sweep = record {
  objects_seen = 0;
  objects_deleted = 0;
  unreadable = 0;
  slabs_released = 0;
  slabs_held = 0;
  before = no_account;
  after = no_account;
}

module _ (env : Env) where
  abbrev clock : World Device → ℕ
  clock w = env.now w.calls

  -- `Track`, and `Adopt` below: the row is stamped with the time of the call.
  unfoldable pub track : SlabId → ℕ → ℕ → Method (Unit {0})
  track id records bytes w =
      if id == ""
      then (ok tt, w)
      else statement env (upsert_slab id)
          (λ d. record d { ledger = Slabs.track_slab id (clock w) records bytes d.ledger }) w

  unfoldable pub adopt : SlabId → ℕ → ℕ → Method (Unit {0})
  adopt id records bytes w =
      if id == ""
      then (ok tt, w)
      else statement env (upsert_slab id)
          (λ d. record d { ledger = Slabs.adopt_slab id (clock w) records bytes d.ledger }) w

  unfoldable pub tracked : Method (List Slab)
  tracked = do statement env select_slabs (λ d. d); λ w. (ok (rows_of w.device.ledger), w)

  unfoldable pub unpin : SlabId → Method (Unit {0})
  unpin id = do
    act env (unpin_slab id)
    statement env (delete_slab id) (forget_row id)
    statement env (delete_slab_meta id) (forget_meta id)

  -- The slabs are unpinned in order, and each is counted once it is.
  unfoldable pub release : List SlabId → Exec (Reporting Device Sweep) Error (Unit {0})
  release [] = pure tt
  release (id ∷ rest) = do
    within (unpin id)
    report_as (λ r. record r { slabs_released = r.slabs_released + 1 })
    release rest

  -- What is left of a sweep once its plan is made.
  unfoldable pub carry_out : Plan → Exec (Reporting Device Sweep) Error (Unit {0})
  carry_out plan = do
    report_as (λ r. record r { slabs_held = plan.held_slabs })
    within (act env (delete_objects plan.dead_objects))
    report_as (λ r. record r { objects_deleted = length plan.dead_objects })
    release plan.releasable_slabs
    after ← within (ask account env.on_account)
    report_as (λ r. record r { after = after })

  unfoldable pub survey : Live → List Slab → Exec (Reporting Device Sweep) Error Plan
  survey live rows = do
    within (check_none (check live (length rows)))
    before ← within (ask account env.on_account)
    report_as (λ r. record r { before = before })
    pages ← within (ask walk env.on_walk)
    let found = walk_objects pages
    report_as
        (λ r. record r { objects_seen = length found.0; unreadable = length found.1.unreadable })
    pure (plan_sweep live rows found.0)

  unfoldable pub sweep : Live → Exec (Reporting Device Sweep) Error (Unit {0})
  sweep live = do rows ← within tracked; plan ← survey live rows; carry_out plan
