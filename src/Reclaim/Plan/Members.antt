-- ===== src/Reclaim/Plan/Members.antt =====
-- What `plan_sweep` decides, in terms of the ledger and the walk that it is given.
use mnemosia.Prelude.{
  ℕ, ◌+◌, ◌≡◌, refl, Bool, not, ◌&&◌, ◌||◌, List, [], ◌∷◌, ◌++◌, arith, ◌==◌, contains, include,
  contains-snoc, contains-include, any_of, count_if, string_keys, number_keys, if◌then◌else◌,
}
use text.Mathlib.TextEquality.{eq_iff}
use mnemosia.Sia.Names.{SlabId, ObjectRef, StoredObject}
use mnemosia.Reclaim.Plan.{
  Slab, Live, Plan, empty_plan, releasable, find_ours, plan_object, plan_objects, plan_slabs,
  plan_sweep,
}

-- Some row of the ledger names the slab and is this device's to release.
abbrev pub is_ours : List Slab → SlabId → Bool
is_ours tracked id = any_of (λ s. releasable s && (s.id == id)) tracked

contains-find_ours :
    (tracked : List Slab) (ours : List SlabId) (held : ℕ) (id : SlabId)
    → contains (find_ours tracked ours held).0 id ≡ (contains ours id || is_ours tracked id)
unfolding find_ours
contains-find_ours [] ours held id = ground arith
contains-find_ours (s ∷ rest) ours held id =
    let mine = releasable s in
    ground (
      arith,
      contains-find_ours rest (if mine then include s.id ours else ours)
          (if mine then held else held + 1) id,
      contains-include s.id id ours,
    )

held-find_ours :
    (tracked : List Slab) (ours : List SlabId) (held : ℕ)
    → (find_ours tracked ours held).1 ≡ held + count_if (λ s. not (releasable s)) tracked
unfolding find_ours
held-find_ours [] ours held = omega arith
held-find_ours (s ∷ rest) ours held =
    let mine = releasable s in
    ground (
      arith,
      held-find_ours rest (if mine then include s.id ours else ours)
          (if mine then held else held + 1),
    )

-- The objects on slabs in `ours` with reference `r`.
abbrev on_ours : List SlabId → ObjectRef → List StoredObject → Bool
on_ours ours r objects = any_of (λ o. contains ours o.slab && (o.ref == r)) objects

module _ (live : Live) (ours : List SlabId) where
  dead-plan_objects :
      (objects : List StoredObject) (plan : Plan) (r : ObjectRef)
      → contains (plan_objects live ours objects plan).dead_objects r ≡ (
          contains plan.dead_objects r || (on_ours ours r objects && not (contains live.objects r)))
  unfolding plan_objects
  dead-plan_objects [] plan r = ground arith
  dead-plan_objects (o ∷ rest) plan r = ground (
    arith,
    dead-plan_objects rest (plan_object live ours o plan) r,
    contains-snoc plan.dead_objects o.ref r,
  )

  foreign-plan_objects :
      (objects : List StoredObject) (plan : Plan)
      → (plan_objects live ours objects plan).foreign_objects
        ≡ plan.foreign_objects + count_if (λ o. not (contains ours o.slab)) objects
  unfolding plan_objects
  foreign-plan_objects [] plan = omega arith
  foreign-plan_objects (o ∷ rest) plan =
      ground (arith, foreign-plan_objects rest (plan_object live ours o plan))

  slabs-plan_objects :
      (objects : List StoredObject) (plan : Plan)
      → ((plan_objects live ours objects plan).releasable_slabs ≡ plan.releasable_slabs)
        × ((plan_objects live ours objects plan).held_slabs ≡ plan.held_slabs)
  unfolding plan_objects
  slabs-plan_objects [] plan = (refl, refl)
  slabs-plan_objects (o ∷ rest) plan =
      ground (arith, slabs-plan_objects rest (plan_object live ours o plan))

module _ (live : Live) where
  -- One round of the loop over `ours`.
  abbrev next : SlabId → Plan → Plan
  next x plan =
      if contains live.slabs x
      then plan
      else record plan { releasable_slabs = plan.releasable_slabs ++ x ∷ [] }

  slabs-plan_slabs :
      (ours : List SlabId) (plan : Plan) (id : SlabId)
      → contains (plan_slabs live ours plan).releasable_slabs id
        ≡ (contains plan.releasable_slabs id || (contains ours id && not (contains live.slabs id)))
  unfolding plan_slabs contains
  slabs-plan_slabs [] plan id = ground arith
  slabs-plan_slabs (x ∷ rest) plan id = ground (
    arith,
    slabs-plan_slabs rest (next x plan) id,
    contains-snoc plan.releasable_slabs x id,
    eq_iff x id,
  )

  rest-plan_slabs :
      (ours : List SlabId) (plan : Plan)
      → ((plan_slabs live ours plan).dead_objects ≡ plan.dead_objects)
        × ((plan_slabs live ours plan).held_slabs ≡ plan.held_slabs)
        × ((plan_slabs live ours plan).foreign_objects ≡ plan.foreign_objects)
  unfolding plan_slabs
  rest-plan_slabs [] plan = (refl, refl, refl)
  rest-plan_slabs (x ∷ rest) plan = ground (arith, rest-plan_slabs rest (next x plan))

on_ours-find_ours :
    (tracked : List Slab) (r : ObjectRef) (objects : List StoredObject)
    → on_ours (find_ours tracked [] 0).0 r objects
      ≡ any_of (λ o. is_ours tracked o.slab && (o.ref == r)) objects
unfolding contains
on_ours-find_ours tracked r [] = refl
on_ours-find_ours tracked r (o ∷ rest) =
    ground (arith, on_ours-find_ours tracked r rest, contains-find_ours tracked [] 0 o.slab)

count-find_ours :
    (tracked : List Slab) (objects : List StoredObject)
    → count_if (λ o. not (contains (find_ours tracked [] 0).0 o.slab)) objects
      ≡ count_if (λ o. not (is_ours tracked o.slab)) objects
unfolding contains
count-find_ours tracked [] = refl
count-find_ours tracked (o ∷ rest) =
    ground (arith, count-find_ours tracked rest, contains-find_ours tracked [] 0 o.slab)

module _ (live : Live) (tracked : List Slab) (objects : List StoredObject) where
  abbrev objects_done : Plan
  objects_done =
      plan_objects live (find_ours tracked [] 0).0 objects
        (record empty_plan { held_slabs = (find_ours tracked [] 0).1 })

  -- An object is planned for deletion exactly when the walk found it on a slab that this device
  -- tracks as its own to release and the keep-set does not name it.
  pub plan_sweep-dead :
      (r : ObjectRef)
      → contains (plan_sweep live tracked objects).dead_objects r ≡ (
          any_of (λ o. is_ours tracked o.slab && (o.ref == r)) objects
          && not (contains live.objects r))
  unfolding plan_sweep contains
  plan_sweep-dead r = ground (
    arith,
    rest-plan_slabs live (find_ours tracked [] 0).0 objects_done,
    dead-plan_objects live (find_ours tracked [] 0).0 objects
        (record empty_plan { held_slabs = (find_ours tracked [] 0).1 }) r,
    on_ours-find_ours tracked r objects,
  )

  -- A slab is planned for release exactly when the ledger tracks it as this device's own to
  -- release and the keep-set does not name it.
  pub plan_sweep-releasable :
      (id : SlabId)
      → contains (plan_sweep live tracked objects).releasable_slabs id
        ≡ (is_ours tracked id && not (contains live.slabs id))
  unfolding plan_sweep contains
  plan_sweep-releasable id = ground (
    arith,
    slabs-plan_slabs live (find_ours tracked [] 0).0 objects_done id,
    slabs-plan_objects live (find_ours tracked [] 0).0 objects
        (record empty_plan { held_slabs = (find_ours tracked [] 0).1 }),
    contains-find_ours tracked [] 0 id,
  )

  -- The plan reports as held the rows of the ledger that are not this device's to release, and as
  -- foreign the objects of the walk that sit on no slab which is.
  pub plan_sweep-counts :
      ((plan_sweep live tracked objects).held_slabs ≡ count_if (λ s. not (releasable s)) tracked)
      × ((plan_sweep live tracked objects).foreign_objects
          ≡ count_if (λ o. not (is_ours tracked o.slab)) objects)
  unfolding plan_sweep
  plan_sweep-counts = ground (
    arith,
    rest-plan_slabs live (find_ours tracked [] 0).0 objects_done,
    slabs-plan_objects live (find_ours tracked [] 0).0 objects
        (record empty_plan { held_slabs = (find_ours tracked [] 0).1 }),
    foreign-plan_objects live (find_ours tracked [] 0).0 objects
        (record empty_plan { held_slabs = (find_ours tracked [] 0).1 }),
    count-find_ours tracked objects,
    held-find_ours tracked [] 0,
  )
