-- ===== src/Sia/Walk.antt =====
-- sia/objects.go: `WalkObjectsStats`, which folds the indexer's feed of changes into the objects
-- that the account holds. The feed's pages are given up to the first empty one, and each event
-- with what opening its sealed object gives; the cursor that asks for the next page is the
-- feed's own business.
use mnemosia.Prelude.{
  ℕ, ◌+◌, Bool, List, [], ◌∷◌, ◌++◌, Option, none, some, number_keys, contains, map_get, map_put,
  length, if◌then◌else◌,
}
use mnemosia.Sia.Names.{SlabId, ObjectRef, StoredObject}

-- `event.Object`: nil, one that does not open, or one that opens as an object in a slab.
pub data Body : Type 0 where
  missing unopenable : Body
  opened : SlabId → ℕ → Body

pub record Event : Type 0 where
  pub key : ℕ
  pub deleted : Bool
  pub body : Body

pub record WalkStats : Type 0 where
  pub pages : ℕ
  pub events : ℕ
  pub deleted : ℕ
  pub superseded : ℕ
  pub live : ℕ
  pub unreadable : List ObjectRef

-- The variables of the loop. `live` maps a key to its object, or to nothing once it is deleted
-- from the map; `order` holds the keys that were seen, in the order of first sight.
pub record Walking : Type 0 where
  pub stats : WalkStats
  pub live : List (ℕ × Option StoredObject)
  pub order : List ℕ

unfoldable pub see : Event → Walking → Walking
see event w =
    if contains w.order event.key
    then record w { stats = record w.stats { superseded = w.stats.superseded + 1 } }
    else record w { order = w.order ++ event.key ∷ [] }

abbrev drop_object : ℕ → Walking → Walking
drop_object key w = record w { live = map_put w.live key none }

abbrev count_deleted : Walking → Walking
count_deleted w = record w { stats = record w.stats { deleted = w.stats.deleted + 1 } }

-- One event that is not a removal, by what opening its object gave.
unfoldable pub open_body : ℕ → Body → Walking → Walking
open_body key missing w = drop_object key (count_deleted w)
open_body key unopenable w =
    drop_object key
      (record w { stats = record w.stats { unreadable = w.stats.unreadable ++ key ∷ [] } })
open_body key (opened slab bytes) w = record w {
  live = map_put w.live key (some (record { ref = key; slab = slab; bytes = bytes }));
}

unfoldable pub on_event : Event → Walking → Walking
unfolding see open_body
on_event event w =
    let seen = see event w in
    if event.deleted
    then drop_object event.key (count_deleted seen)
    else open_body event.key event.body seen

unfoldable pub on_events : List Event → Walking → Walking
unfolding on_event
on_events [] w = w
on_events (event ∷ rest) w = on_events rest (on_event event w)

unfoldable pub on_pages : List (List Event) → Walking → Walking
unfolding on_events
on_pages [] w = w
on_pages (page ∷ rest) w = on_pages rest (
    on_events page (record w {
      stats = record w.stats { pages = w.stats.pages + 1; events = w.stats.events + length page };
    }))

-- `live[key]`
unfoldable pub live_object : List (ℕ × Option StoredObject) → ℕ → Option StoredObject
live_object m key = elim (map_get m key) [ none ↦ none | some o ↦ o ]

-- The last loop: the objects that `fn` is called with, in order.
unfoldable pub live_objects : List (ℕ × Option StoredObject) → List ℕ → List StoredObject
unfolding live_object
live_objects m [] = []
live_objects m (key ∷ rest) =
    let others = live_objects m rest in
    elim (live_object m key) [ none ↦ others | some o ↦ o ∷ others ]

abbrev pub start_walk : Walking
start_walk = record {
  stats = record { pages = 0; events = 0; deleted = 0; superseded = 0; live = 0; unreadable = [] };
  live = [];
  order = [];
}

unfoldable pub walk_objects : List (List Event) → List StoredObject × WalkStats
unfolding on_pages live_objects
walk_objects pages =
    let w = on_pages pages start_walk in
    let objects = live_objects w.live w.order in (objects, record w.stats { live = length objects })
