-- ===== src/Reclaim/Orphans/Empty.antt =====
-- What the orphan scan finds, and what `release_orphans` asks to be unpinned.
use text.Mathlib.TextEquality.{eq_iff}
use mnemosia.Prelude.{
  ◌≡◌, refl, Bool, true, false, not, ◌&&◌, ◌||◌, List, [], ◌∷◌, arith, any_of, contains,
  contains-include, include, string_keys, ◌==◌, if◌then◌else◌,
}
use mnemosia.Sia.Names.{SlabId, StoredObject}
use mnemosia.Reclaim.Plan.{Slab}
use mnemosia.Reclaim.Orphans.{
  Orphan, Unledgered, occupied_by, known_slabs, find_orphans, find_unledgered,
}

abbrev pub same : Bool → Bool → Bool
same true b = b
same false b = not b

-- Some object of the walk sits on the slab, which is not "".
abbrev pub is_occupied : List StoredObject → SlabId → Bool
is_occupied objects id = not (id == "") && any_of (λ o. o.slab == id) objects

contains-occupied_by_from :
    (objects : List StoredObject) (occupied : List SlabId) (id : SlabId)
    → contains (occupied_by objects occupied) id ≡ (contains occupied id || is_occupied objects id)
unfolding occupied_by
contains-occupied_by_from [] occupied id = ground arith
contains-occupied_by_from (o ∷ rest) occupied id = ground (
  arith,
  contains-occupied_by_from rest (if o.slab == "" then occupied else include o.slab occupied) id,
  contains-include o.slab id occupied,
  eq_iff o.slab id,
  eq_iff o.slab "",
  eq_iff id "",
)

pub contains-occupied_by :
    (objects : List StoredObject) (id : SlabId)
    → contains (occupied_by objects []) id ≡ is_occupied objects id
unfolding contains
contains-occupied_by objects id = contains-occupied_by_from objects [] id

contains-known_slabs :
    (rows : List Slab) (known : List SlabId) (id : SlabId)
    → contains (known_slabs rows known) id ≡ (contains known id || any_of (λ s. s.id == id) rows)
unfolding known_slabs
contains-known_slabs [] known id = ground arith
contains-known_slabs (s ∷ rest) known id =
    ground
      (arith, contains-known_slabs rest (include s.id known) id, contains-include s.id id known)

-- The scan lists the pinned slabs that hold nothing, and says of each whether it is known.
pub find_orphans-lists :
    (pinned : List SlabId) (objects : List StoredObject) (rows : List Slab) (id : SlabId) (b : Bool)
    → any_of
        (λ (o : Orphan). (o.id == id) && same o.tracked b)
        (find_orphans pinned (occupied_by objects []) (known_slabs rows []))
      ≡ (contains pinned id
          && not (is_occupied objects id)
          && same (any_of (λ s. s.id == id) rows) b)
unfolding find_orphans contains
find_orphans-lists [] objects rows id b = refl
find_orphans-lists (x ∷ rest) objects rows id b = ground (
  arith,
  find_orphans-lists rest objects rows id b,
  contains-occupied_by objects x,
  contains-known_slabs rows [] x,
  eq_iff x id,
)

pub find_unledgered-lists :
    (pinned : List SlabId) (objects : List StoredObject) (rows : List Slab) (id : SlabId) (b : Bool)
    → any_of
        (λ (u : Unledgered). (u.id == id) && same u.empty b)
        (find_unledgered pinned (occupied_by objects []) (known_slabs rows []))
      ≡ (contains pinned id
          && not (any_of (λ s. s.id == id) rows)
          && same (not (is_occupied objects id)) b)
unfolding find_unledgered contains
find_unledgered-lists [] objects rows id b = refl
find_unledgered-lists (x ∷ rest) objects rows id b = ground (
  arith,
  find_unledgered-lists rest objects rows id b,
  contains-occupied_by objects x,
  contains-known_slabs rows [] x,
  eq_iff x id,
)
