-- ===== src/Reclaim/Tests.antt =====
-- Runs of store/reclaim on a small vault, and its theorems at them.
use mnemosia.Prelude.{
  ℕ, ◌≡◌, refl, subst, List, [], ◌∷◌, none, some, true, false, All, contains, size, include,
  map_get, map_put, string_keys, number_keys, length, any_of, count_if, ◌==◌, ◌&&◌, not, ◌⊎◌, ◌↔◌,
}
use mnemosia.Prelude.Int.{pos}
use mnemosia.Prelude.Exec.{Result, ok, err}
use mnemosia.Sia.Names.{SlabId, ObjectRef, StoredObject, Account}
use mnemosia.Sia.Walk.{Event, opened, walk_objects}
use mnemosia.Local.Slabs.{Ledger, forget_slab, tracked_slabs, slab_pinned, slab_hydrated}
use mnemosia.Service.{
  Error, Env, missing_objects, account, walk, delete_objects, delete_slab, delete_slab_meta, within,
  report_as, ask, act, select_slabs, unpin_slab,
}
use mnemosia.Reclaim.Plan.{Live, plan_sweep, check, releasable}
use mnemosia.Reclaim.Plan.Members.{
  is_ours, plan_sweep-dead, plan_sweep-releasable, plan_sweep-counts,
}
use mnemosia.Reclaim.Plan.Trust.{IsTrusted, check-none_iff}
use mnemosia.Reclaim.Sweep.{
  Device, no_sweep, sweep, tracked, survey, carry_out, release, unpin, without, rows_of,
}
use mnemosia.Reclaim.Sweep.Safety.{start, IsAllowed, sweep-IsAllowed}
use mnemosia.Reclaim.Sweep.Order.{ObjectsFirst, sweep-ObjectsFirst}
use mnemosia.Reclaim.Sweep.Rows.{lists, Succeeded, sweep_refused, sweep-accounts}
use mnemosia.Reclaim.Orphans.{Orphan, find_orphans, occupied_by, known_slabs, release_orphans}
use mnemosia.Reclaim.Orphans.Empty.{is_occupied, same, find_orphans-lists}
use mnemosia.Reclaim.Orphans.Release.{OrphansOnly, release_orphans-OrphansOnly}
use mnemosia.Reclaim.Repack.{Held, repack}
use mnemosia.Reclaim.Repack.Release.{IsJustified, IsOnOne, OneSlab}
use mnemosia.Reclaim.Repack.Retire
use mnemosia.Reclaim.Repack.Retire.{repack-IsJustified}

-- Slab "a" holds a live object and "c" a dead one; another device pinned "b".
abbrev ledger : Ledger
ledger =
    record { slab_id = "c"; pinned_at = 3; records = 1; bytes = 10; origin = slab_pinned }
    ∷ record { slab_id = "a"; pinned_at = 1; records = 2; bytes = 20; origin = slab_pinned }
    ∷ record { slab_id = "b"; pinned_at = 2; records = 1; bytes = 10; origin = slab_hydrated }
    ∷ []

abbrev device : Device
device = record { ledger = ledger; slab_cache = "a" ∷ "c" ∷ [] }

abbrev live : Live
live = record { objects = 1 ∷ []; slabs = "a" ∷ []; catalogued = pos 1; release_all = false }

-- The catalog counts two records, and the keep-set names one object.
abbrev short : Live
short = record live { catalogued = pos 2 }

abbrev objects : List StoredObject
objects =
    record { ref = 1; slab = "a"; bytes = 10 }
    ∷ record { ref = 2; slab = "c"; bytes = 10 }
    ∷ record { ref = 3; slab = "b"; bytes = 10 }
    ∷ []

abbrev event : ℕ → SlabId → Event
event key slab = record { key = key; deleted = false; body = opened slab 10 }

abbrev quota : Account
quota = record { ready = true; pinned_data = 40; pinned_size = 80; max_pinned_data = 100 }

-- Services that do as they are asked.
abbrev calm : Env
calm = record {
  on_account = λ calls. ok quota;
  on_walk = λ calls. ok ((event 1 "a" ∷ event 2 "c" ∷ event 3 "b" ∷ []) ∷ []);
  on_pinned_slabs = λ calls. ok ("a" ∷ "b" ∷ "c" ∷ "d" ∷ []);
  on_download = λ calls ref. ok (ref ∷ []);
  on_finalize = λ calls payloads. ok ((7, "new" ∷ []) ∷ []);
  on_act = λ calls c. none;
  now = λ calls. length calls;
}

abbrev held : List Held
held = record { id = 5; cid = "cid"; ref = 1; slab_id = "a" } ∷ []

plan_sweep-dead_example : contains (plan_sweep live (rows_of ledger) objects).dead_objects 2 ≡ (
    any_of (λ o. is_ours (rows_of ledger) o.slab && (o.ref == 2)) objects
    && not (contains live.objects 2))
plan_sweep-dead_example = plan_sweep-dead live (rows_of ledger) objects 2

plan_sweep-releasable_example :
    contains (plan_sweep live (rows_of ledger) objects).releasable_slabs "b"
    ≡ (is_ours (rows_of ledger) "b" && not (contains live.slabs "b"))
plan_sweep-releasable_example = plan_sweep-releasable live (rows_of ledger) objects "b"

plan_sweep-counts_example :
    ((plan_sweep live (rows_of ledger) objects).held_slabs
      ≡ count_if (λ s. not (releasable s)) (rows_of ledger))
    × ((plan_sweep live (rows_of ledger) objects).foreign_objects
        ≡ count_if (λ o. not (is_ours (rows_of ledger) o.slab)) objects)
plan_sweep-counts_example = plan_sweep-counts live (rows_of ledger) objects

check-none_iff_example : (check live 2 ≡ none) ↔ IsTrusted live 2
check-none_iff_example = check-none_iff live 2

sweep-IsAllowed_example : All (IsAllowed live ledger) (sweep calm live (start device)).1.world.calls
sweep-IsAllowed_example = sweep-IsAllowed calm live device

sweep-ObjectsFirst_example : ObjectsFirst (sweep calm live (start device)).1.world.calls
sweep-ObjectsFirst_example = sweep-ObjectsFirst calm live device

short_is_refused : check short (length (rows_of ledger)) ≡ some missing_objects
unfolding check size rows_of
short_is_refused = refl

short_sweep : sweep calm short (start device) ≡ (
  err missing_objects,
  record { world = record { device = device; calls = select_slabs ∷ [] }; report = no_sweep },
)
short_sweep = sweep_refused calm short device missing_objects refl short_is_refused

sweep-accounts_example :
    (lists "c" (sweep calm live (start device)).1.world.device.ledger ≡ true)
    ⊎ Succeeded calm (unpin_slab "c") (sweep calm live (start device)).1.world.calls
sweep-accounts_example = sweep-accounts calm live device "c" refl

find_orphans-lists_example :
    any_of
      (λ (o : Orphan). (o.id == "d") && same o.tracked false)
      (find_orphans ("a" ∷ "d" ∷ []) (occupied_by objects []) (known_slabs (rows_of ledger) []))
    ≡ (contains {A = SlabId} ("a" ∷ "d" ∷ []) "d"
        && not (is_occupied objects "d")
        && same (any_of (λ s. s.id == "d") (rows_of ledger)) false)
find_orphans-lists_example = find_orphans-lists ("a" ∷ "d" ∷ []) objects (rows_of ledger) "d" false

release_orphans-OrphansOnly_example :
    OrphansOnly calm (release_orphans calm false (start device)).1.world.calls
release_orphans-OrphansOnly_example = release_orphans-OrphansOnly calm false device

abbrev AllOnOne : Result Error (List (ObjectRef × List SlabId)) → Type 0
AllOnOne (ok objects) = All (λ o. IsOnOne o.1) objects
AllOnOne (err e) = Unit

calm-OneSlab : OneSlab calm
calm-OneSlab = record { each = λ calls payloads objects made. subst AllOnOne made ((refl, tt), tt) }

repack-IsJustified_example :
    IsJustified calm held (repack calm held (Retire.start device)).1.world.calls
repack-IsJustified_example = repack-IsJustified calm held device calm-OneSlab

-- The sweep deletes object 2, unpins slab "c" and leaves the others.
sweep_run : (sweep calm live (start device)).1.world ≡ record {
  device = record {
    ledger =
        record { slab_id = "a"; pinned_at = 1; records = 2; bytes = 20; origin = slab_pinned }
        ∷ record { slab_id = "b"; pinned_at = 2; records = 1; bytes = 10; origin = slab_hydrated }
        ∷ [];
    slab_cache = "a" ∷ [];
  };
  calls =
      account
      ∷ delete_slab_meta "c"
      ∷ delete_slab "c"
      ∷ unpin_slab "c"
      ∷ delete_objects (2 ∷ [])
      ∷ walk
      ∷ account
      ∷ select_slabs
      ∷ [];
}
unfolding sweep tracked survey carry_out release unpin within report_as ask act check size
    plan_sweep rows_of walk_objects forget_slab without tracked_slabs include map_get map_put
sweep_run = refl
