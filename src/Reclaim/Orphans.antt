-- ===== src/Reclaim/Orphans.antt =====
-- store/reclaim/reclaim.go: the slabs that the account pays for and that hold nothing, and the
-- objects that cannot be opened.
pub mod Empty
pub mod Release
use mnemosia.Prelude.{
  ℕ, ◌+◌, ltb, Bool, not, ◌||◌, List, [], ◌∷◌, Option, none, some, ◌==◌, nat_eq, string_keys,
  contains, include, size, length, if◌then◌else◌,
}
use mnemosia.Prelude.Exec.{Exec, pure, check_none, ◌>>=◌, ◌>>◌}
use mnemosia.Sia.Names.{SlabId, ObjectRef, StoredObject}
use mnemosia.Sia.Walk.{walk_objects}
use mnemosia.Service.{
  Error, empty_walk, Env, Reporting, account, walk, pinned_slabs, delete_objects, ask, act, within,
  report_as,
}
use mnemosia.Reclaim.Plan.{Slab}
use mnemosia.Reclaim.Sweep.{Device, Method, Sweep, tracked, unpin}

pub record Orphan : Type 0 where
  pub id : SlabId
  pub tracked : Bool

pub record Unledgered : Type 0 where
  pub id : SlabId
  pub empty : Bool

unfoldable pub check_occupancy : ℕ → ℕ → Bool → Option Error
check_occupancy pinned occupied release_all =
    if nat_eq pinned 0 || ltb 0 occupied || release_all then none else some empty_walk

-- The slabs, but for "", that some object sits on.
unfoldable pub occupied_by : List StoredObject → List SlabId → List SlabId
occupied_by [] occupied = occupied
occupied_by (o ∷ rest) occupied =
    occupied_by rest (if o.slab == "" then occupied else include o.slab occupied)

unfoldable pub known_slabs : List Slab → List SlabId → List SlabId
known_slabs [] known = known
known_slabs (s ∷ rest) known = known_slabs rest (include s.id known)

unfoldable pub find_orphans : List SlabId → List SlabId → List SlabId → List Orphan
find_orphans [] occupied known = []
find_orphans (id ∷ rest) occupied known =
    let others = find_orphans rest occupied known in
    if contains occupied id
    then others
    else record { id = id; tracked = contains known id } ∷ others

unfoldable pub find_unledgered : List SlabId → List SlabId → List SlabId → List Unledgered
find_unledgered [] occupied known = []
find_unledgered (id ∷ rest) occupied known =
    let others = find_unledgered rest occupied known in
    if contains known id
    then others
    else record { id = id; empty = not (contains occupied id) } ∷ others

module _ (env : Env) where
  unfoldable pub orphans : Bool → Method (List Orphan)
  orphans release_all = do
    pinned ← ask pinned_slabs env.on_pinned_slabs
    pages ← ask walk env.on_walk
    let occupied = occupied_by (walk_objects pages).0 []
    check_none (check_occupancy (length pinned) (size occupied) release_all)
    rows ← tracked env
    pure (find_orphans pinned occupied (known_slabs rows []))

  unfoldable pub unledgered : Method (List Unledgered)
  unledgered = do
    pinned ← ask pinned_slabs env.on_pinned_slabs
    pages ← ask walk env.on_walk
    rows ← tracked env
    pure (find_unledgered pinned (occupied_by (walk_objects pages).0 []) (known_slabs rows []))

  unfoldable pub unpin_orphans : List Orphan → Exec (Reporting Device Sweep) Error (Unit {0})
  unpin_orphans [] = pure tt
  unpin_orphans (orphan ∷ rest) = do
    within (unpin env orphan.id)
    report_as (λ r. record r { slabs_released = r.slabs_released + 1 })
    unpin_orphans rest

  unfoldable pub release_orphans : Bool → Exec (Reporting Device Sweep) Error (Unit {0})
  release_orphans release_all = do
    before ← within (ask account env.on_account)
    report_as (λ r. record r { before = before })
    found ← within (orphans release_all)
    unpin_orphans found
    after ← within (ask account env.on_account)
    report_as (λ r. record r { after = after })

  delete_unreadable : List ObjectRef → Method (List ObjectRef)
  delete_unreadable [] = pure []
  delete_unreadable refs = do act env (delete_objects refs); pure refs

  unfoldable pub drop_unreadable : Method (List ObjectRef)
  unfolding delete_unreadable
  drop_unreadable = do
    pages ← ask walk env.on_walk
    delete_unreadable (walk_objects pages).1.unreadable
