-- ===== src/Reclaim/Plan.antt =====
-- store/reclaim/reclaim.go: `planSweep`, which decides what a sweep destroys, and `Live.Check`.
pub mod Members
pub mod Trust
use mnemosia.Prelude.{
  ℕ, zero, suc, ◌+◌, ◌≡◌, Bool, true, false, not, ◌&&◌, List, [], ◌∷◌, ◌++◌, Option, none, some,
  arith, ◌==◌, contains, include, size, string_keys, number_keys, nat_eq, ltb, if◌then◌else◌,
}
use mnemosia.Prelude.Int.{ℤ, pos, negsuc}
use mnemosia.Sia.Names.{SlabId, ObjectRef, StoredObject}
use mnemosia.Service.{
  Error, negative_catalogue, empty_catalogue, no_objects, missing_objects, no_slabs,
}
use mnemosia.Local.Slabs.{SlabOrigin, releasable_origin}

pub record Slab : Type 0 where
  pub id : SlabId
  pub pinned_at : ℕ
  pub records : ℕ
  pub bytes : ℕ
  pub origin : SlabOrigin

unfoldable pub releasable : Slab → Bool
unfolding releasable_origin
releasable s = releasable_origin s.origin

-- The two sets, each as a list in which a repetition counts once.
pub record Live : Type 0 where
  pub objects : List ObjectRef
  pub slabs : List SlabId
  pub catalogued : ℤ
  pub release_all : Bool

pub record Plan : Type 0 where
  pub dead_objects : List ObjectRef
  pub releasable_slabs : List SlabId
  pub held_slabs : ℕ
  pub foreign_objects : ℕ

abbrev pub empty_plan : Plan
empty_plan = record {
  dead_objects = [];
  releasable_slabs = [];
  held_slabs = 0;
  foreign_objects = 0;
}

-- The first loop: `ours`, and the slabs that another device pinned.
unfoldable pub find_ours : List Slab → List SlabId → ℕ → List SlabId × ℕ
unfolding releasable
find_ours [] ours held = (ours, held)
find_ours (slab ∷ rest) ours held =
    let mine = releasable slab in
    find_ours rest (if mine then include slab.id ours else ours) (if mine then held else held + 1)

unfoldable pub plan_object : Live → List SlabId → StoredObject → Plan → Plan
plan_object live ours object plan =
    if not (contains ours object.slab)
    then record plan { foreign_objects = plan.foreign_objects + 1 }
    else if contains live.objects object.ref
    then plan
    else record plan { dead_objects = plan.dead_objects ++ object.ref ∷ [] }

unfoldable pub plan_objects : Live → List SlabId → List StoredObject → Plan → Plan
unfolding plan_object
plan_objects live ours [] plan = plan
plan_objects live ours (object ∷ rest) plan =
    plan_objects live ours rest (plan_object live ours object plan)

-- The source walks `ours` in no fixed order; here it is the order of insertion.
unfoldable pub plan_slabs : Live → List SlabId → Plan → Plan
plan_slabs live [] plan = plan
plan_slabs live (id ∷ rest) plan = plan_slabs live rest (
    if contains live.slabs id
    then plan
    else record plan { releasable_slabs = plan.releasable_slabs ++ id ∷ [] })

unfoldable pub plan_sweep : Live → List Slab → List StoredObject → Plan
unfolding find_ours plan_objects plan_slabs
plan_sweep live tracked objects =
    let (ours, held) = find_ours tracked [] 0 in
    plan_slabs live ours (plan_objects live ours objects (record empty_plan { held_slabs = held }))

check_nonempty : Live → ℕ → Option Error
check_nonempty l catalogued =
    if nat_eq (size l.objects) 0
    then some no_objects
    else if ltb (size l.objects) catalogued
    then some missing_objects
    else if nat_eq (size l.slabs) 0
    then some no_slabs
    else none

-- Each refusal is an `ErrKeepSetDegenerate` with its own text.
unfoldable pub check : Live → ℕ → Option Error
unfolding check_nonempty
check l pinned = elim l.catalogued [
  | negsuc n ↦ some negative_catalogue
  | pos n ↦
      if nat_eq n 0 && nat_eq pinned 0
      then none
      else if nat_eq n 0 && not l.release_all
      then some empty_catalogue
      else if nat_eq n 0
      then none
      else check_nonempty l n
]
