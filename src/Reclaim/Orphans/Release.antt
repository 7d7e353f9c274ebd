-- ===== src/Reclaim/Orphans/Release.antt =====
-- What `release_orphans` asks to be unpinned, whatever the services answer.
use text.Mathlib.TextEquality.{eq_iff}
use mnemosia.Prelude.{
  ℕ, ◌<◌, ◌↔◌, ◌⊎◌, none, map, sym, subst, ◌≡◌, Bool, true, false, List, [], ◌∷◌, arith, contains,
  string_keys, ==_refl,
}
use mnemosia.Prelude.Exec.{
  Result, ok, err, Keeps, Keeps-bind, Keeps-then, Keeps-check_none, Keeps-pure, Keeps-Runs,
  Keeps-Runs_to, Keeps-Runs_both, Runs, Runs-bind, Runs-pure, Runs-state,
}
use mnemosia.Sia.Names.{SlabId, StoredObject}
use mnemosia.Sia.Walk.{Event, walk_objects}
use mnemosia.Service.{
  Error, Calls, account, walk, pinned_slabs, select_slabs, unpin_slab, delete_objects, delete_slab,
  delete_slab_meta, Env, World, Reporting, ask,
}
use mnemosia.Service.Keeps.{
  OnWorld, Keeps-within, Keeps-ask, Keeps-act, Keeps-statement, Keeps-report_as, Runs-ask,
  Runs-within,
}
use mnemosia.Reclaim.Sweep.{Device, Sweep, tracked, unpin, forget_row, forget_meta}
use mnemosia.Reclaim.Sweep.Safety.{start}
use mnemosia.Reclaim.Orphans.{
  Orphan, check_occupancy, occupied_by, known_slabs, find_orphans, orphans, unpin_orphans,
  release_orphans,
}
use mnemosia.Reclaim.Orphans.Empty.{is_occupied, contains-occupied_by}

abbrev pub Answers : {A : Type 0} → Result Error A → (A → Type 0) → Type 0
Answers (ok a) P = P a
Answers (err e) P = ⊥

-- The last list of pinned slabs names the slab.
abbrev pub IsPinned : Env → SlabId → Calls → Type 0
IsPinned env id [] = ⊥
IsPinned env id (pinned_slabs ∷ earlier) =
    Answers (env.on_pinned_slabs earlier) (λ ids. contains ids id ≡ true)
IsPinned env id (_ ∷ earlier) = IsPinned env id earlier

-- The last walk found no object on the slab.
abbrev pub IsEmpty : Env → SlabId → Calls → Type 0
IsEmpty env id [] = ⊥
IsEmpty env id (walk ∷ earlier) =
    Answers (env.on_walk earlier) (λ pages. is_occupied (walk_objects pages).0 id ≡ false)
IsEmpty env id (_ ∷ earlier) = IsEmpty env id earlier

-- Each call to unpin a slab is for one that the indexer has said to be pinned and to hold nothing,
-- and there is none to delete objects. The latest call is the first.
abbrev pub OrphansOnly : Env → Calls → Type 0
OrphansOnly env [] = Unit
OrphansOnly env (unpin_slab id ∷ earlier) =
    IsPinned env id earlier × IsEmpty env id earlier × OrphansOnly env earlier
OrphansOnly env (delete_objects refs ∷ earlier) = ⊥
OrphansOnly env (_ ∷ earlier) = OrphansOnly env earlier

module _ (env : Env) where
  abbrev Only : World Device → Type 0
  Only w = OrphansOnly env w.calls

  abbrev IsOrphan : SlabId → World Device → Type 0
  IsOrphan id w = IsPinned env id w.calls × IsEmpty env id w.calls

  -- Every slab in the list is an orphan.
  abbrev Found : List SlabId → World Device → Type 0
  Found ids w = Only w × ((id : SlabId) → contains ids id ≡ true → IsOrphan id w)

  abbrev ids_of : List Orphan → List SlabId
  ids_of = map (λ o. o.id)

  orphan-Found :
      (pinned : List SlabId) (objects : List StoredObject) (known : List SlabId) (id : SlabId)
      → contains (ids_of (find_orphans pinned (occupied_by objects []) known)) id ≡ true
      → (contains pinned id ≡ true) × (is_occupied objects id ≡ false)
  unfolding find_orphans contains
  orphan-Found [] objects known id h = ground arith
  orphan-Found (x ∷ rest) objects known id h =
      ground
        (arith, orphan-Found rest objects known id, contains-occupied_by objects x, eq_iff x id)

  -- After the list of the pinned slabs, and after the walk.
  abbrev Listed : List SlabId → World Device → Type 0
  Listed pinned w = Only w × ((id : SlabId) → contains pinned id ≡ true → IsPinned env id w.calls)

  abbrev Walked : List SlabId → List (List Event) → World Device → Type 0
  Walked pinned pages w =
      Listed pinned w
      × ((id : SlabId) → is_occupied (walk_objects pages).0 id ≡ false → IsEmpty env id w.calls)

  answers :
      {A : Type 0} (P : A → Type 0) (r : Result Error A) (a : A) → r ≡ ok a → P a → Answers r P
  answers P r a e p = subst (λ r'. Answers r' P) (sym e) p

  list-Listed :
      Runs Only (ask pinned_slabs env.on_pinned_slabs) (λ pinned w. Listed pinned w) (λ _ w. Only w)
  list-Listed =
      Runs-ask pinned_slabs env.on_pinned_slabs
        (λ w h pinned e. (
          h,
          λ id there.
              answers (λ ids. contains ids id ≡ true) (env.on_pinned_slabs w.calls) pinned e there,
        ))
        (λ w h. h)

  walk-Walked :
      (pinned : List SlabId)
      → Runs
          (Listed pinned)
          (ask walk env.on_walk)
          (λ pages w. Walked pinned pages w)
          (λ _ w. Only w)
  walk-Walked pinned =
      Runs-ask walk env.on_walk
        (λ w h pages e. (
          h,
          λ id free.
              answers (λ p. is_occupied (walk_objects p).0 id ≡ false) (env.on_walk w.calls) pages e
                free,
        ))
        (λ w h. h.0)

  tracked-Walked :
      (pinned : List SlabId) (pages : List (List Event)) → Keeps (Walked pinned pages) (tracked env)
  unfolding tracked
  tracked-Walked pinned pages =
      Keeps-then (Keeps-statement env select_slabs (λ d. d) (λ w h. h) (λ w h. h))
        (record { at = λ s h. h })

  orphans-Found :
      (release_all : Bool)
      → Runs Only (orphans env release_all) (λ found w. Found (ids_of found) w) (λ _ w. Only w)
  unfolding orphans
  orphans-Found release_all = Runs-bind list-Listed λ pinned.
      Runs-bind (walk-Walked pinned) λ pages.
        Runs-bind (Keeps-Runs_to {P' = Only} (λ w h. h.0.0) (Keeps-check_none _)) λ _.
          Runs-bind (Keeps-Runs_to {P' = Only} (λ w h. h.0.0) (tracked-Walked pinned pages)) λ rows.
            Runs-pure _ λ w h. (
              h.0.0,
              λ id there.
                  let both =
                    orphan-Found pinned (walk_objects pages).0 (known_slabs rows []) id there in
                  (h.0.1 id both.0, h.1 id both.1),
            )

  unpin-Found :
      (id : SlabId) (ids : List SlabId) → contains ids id ≡ true → Keeps (Found ids) (unpin env id)
  unfolding unpin
  unpin-Found id ids there =
      Keeps-then
        (Keeps-act env (unpin_slab id) (λ w h. (((h.1 id there).0, (h.1 id there).1, h.0), h.1)))
        (Keeps-then (Keeps-statement env (delete_slab id) (forget_row id) (λ w h. h) (λ w h. h))
          (Keeps-statement env (delete_slab_meta id) (forget_meta id) (λ w h. h) (λ w h. h)))

  unpin_orphans-Found :
      (ids : List SlabId) (found : List Orphan)
      → ((id : SlabId) → contains (ids_of found) id ≡ true → contains ids id ≡ true)
      → Keeps (OnWorld (Found ids)) (unpin_orphans env found)
  unfolding unpin_orphans contains
  unpin_orphans-Found ids [] sub = Keeps-pure tt
  unpin_orphans-Found ids (o ∷ rest) sub =
      Keeps-then (Keeps-within _ (unpin-Found o.id ids (sub o.id (ground (arith, ==_refl o.id))))) (
        Keeps-then (Keeps-report_as _) (unpin_orphans-Found ids rest (λ x e. sub x (ground arith))))

  Found-Only :
      (ids : List SlabId) (s : Reporting Device Sweep) → OnWorld (Found ids) s → OnWorld Only s
  Found-Only ids s h = record { holds = h.holds.0 }

  release_orphans-Only :
      (release_all : Bool)
      → Runs
          (OnWorld Only)
          (release_orphans env release_all)
          (λ _ s. OnWorld Only s)
          (λ _ s. OnWorld Only s)
  unfolding release_orphans
  release_orphans-Only release_all =
      let asked = Keeps-ask {P = Only} account env.on_account (λ w h. h) in
      Runs-bind (Keeps-Runs (Keeps-within _ asked)) λ before.
        Runs-bind (Keeps-Runs (Keeps-report_as _)) λ _.
          Runs-bind (Runs-within _ (orphans-Found release_all)) λ found.
            Runs-bind
              (Keeps-Runs_both (Found-Only (ids_of found))
                (unpin_orphans-Found (ids_of found) found (λ id h. h)))
              λ _. Keeps-Runs (Keeps-bind _ _ (Keeps-within _ asked) (λ after. Keeps-report_as _))

-- Whatever the services answer, `release_orphans` asks the indexer to unpin only slabs that the
-- indexer's list of pinned slabs names and on which its walk found no object, and asks it to delete
-- nothing.
pub release_orphans-OrphansOnly :
    (env : Env) (release_all : Bool) (d : Device)
    → OrphansOnly env (release_orphans env release_all (start d)).1.world.calls
release_orphans-OrphansOnly env release_all d =
    (Runs-state (release_orphans-Only env release_all) (start d) (record { holds = tt })).holds

-- `release_orphans` goes on past an empty walk only with leave, or with nothing pinned.
pub check_occupancy-none_iff :
    (pinned occupied : ℕ) (release_all : Bool)
    → (check_occupancy pinned occupied release_all ≡ none)
      ↔ ((pinned ≡ 0) ⊎ ((0 < occupied) ⊎ (release_all ≡ true)))
unfolding check_occupancy
check_occupancy-none_iff pinned occupied release_all = (λ h. ground arith, λ h. ground arith)
