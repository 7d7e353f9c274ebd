-- ===== src/Reclaim/Sweep/Safety.antt =====
-- What a sweep asks the indexer to destroy, whatever the services answer.
use mnemosia.Prelude.{
  Option, none, some, ◌≡◌, refl, sym, subst, true, false, List, [], ◌∷◌, arith, All, contains,
  string_keys, number_keys, ==_refl,
}
use mnemosia.Prelude.Exec.{
  Post, Exec, Runs, Runs-bind, Runs-state, Keeps, Keeps-bind, Keeps-bind_with, Keeps-Runs,
  Keeps-pure, Keeps-then, Keeps-check_none, ◌>>=◌,
}
use mnemosia.Sia.Names.{SlabId, ObjectRef, StoredObject}
use mnemosia.Sia.Walk.{walk_objects}
use mnemosia.Service.{
  Error, Call, delete_objects, unpin_slab, select_slabs, account, walk, ask, act, delete_slab, Env,
  World, Reporting, begin, within, statement,
}
use mnemosia.Service.Keeps.{OnWorld, Keeps-within, Keeps-report_as, service_rules}
use mnemosia.Local.Slabs.{Ledger}
use mnemosia.Reclaim.Plan.{Slab, Live, Plan, plan_sweep}
use mnemosia.Reclaim.Plan.Members.{is_ours, plan_sweep-dead, plan_sweep-releasable}
use mnemosia.Reclaim.Sweep.{
  Device, Sweep, no_sweep, rows_of, tracked, unpin, release, carry_out, survey, sweep,
}

-- A slab may be unpinned if the ledger tracks it as this device's own and the keep-set does not
-- name it, and an object may be deleted if the keep-set does not name it.
abbrev pub IsAllowed : Live → Ledger → Call → Type 0
IsAllowed live ledger (unpin_slab id) =
    (is_ours (rows_of ledger) id ≡ true) × (contains live.slabs id ≡ false)
IsAllowed live ledger (delete_objects refs) =
    (r : ObjectRef) → contains refs r ≡ true → contains live.objects r ≡ false
IsAllowed live ledger _ = Unit

module _ (env : Env) (live : Live) (ledger : Ledger) where
  abbrev Safe : World Device → Type 0
  Safe w = All (IsAllowed live ledger) w.calls

  abbrev MayRelease : SlabId → Type 0
  MayRelease id = IsAllowed live ledger (unpin_slab id)

  adds :
      (c : Call)
      → IsAllowed live ledger c
      → (w : World Device) → Safe w
      → Safe (record w { calls = c ∷ w.calls })
  adds c a w h = (a, h)

  unpin-Safe : (id : SlabId) → MayRelease id → Keeps Safe (unpin env id)
  unfolding unpin
  unpin-Safe id h = search (service_rules, adds (unpin_slab id) h, adds (delete_slab id) tt)

  release-Safe :
      (ids : List SlabId)
      → ((id : SlabId) → contains ids id ≡ true → MayRelease id)
      → Keeps (OnWorld Safe) (release env ids)
  unfolding release contains
  release-Safe [] h = Keeps-pure tt
  release-Safe (id ∷ rest) h =
      let first : MayRelease id = h id (ground (arith, ==_refl id)) in
      let others = release-Safe rest (λ x e. h x (ground arith)) in
      Keeps-bind _ _ (Keeps-within _ (unpin-Safe id first))
        (λ _. Keeps-bind _ _ (Keeps-report_as _) (λ _. others))

  abbrev PlanIsSafe : Plan → Type 0
  PlanIsSafe plan =
      ((id : SlabId) → contains plan.releasable_slabs id ≡ true → MayRelease id)
      × IsAllowed live ledger (delete_objects plan.dead_objects)

  carry_out-Safe : (plan : Plan) → PlanIsSafe plan → Keeps (OnWorld Safe) (carry_out env plan)
  unfolding carry_out
  carry_out-Safe plan h =
      let told : Keeps Safe (act env (delete_objects plan.dead_objects)) =
        search (service_rules, adds (delete_objects plan.dead_objects) h.1) in
      let asked : Keeps Safe (ask account env.on_account) =
        search (service_rules, adds account tt) in
      Keeps-then (Keeps-report_as _) (
        Keeps-then (Keeps-within _ told) (
          Keeps-then (Keeps-report_as _) (
            Keeps-then (release-Safe plan.releasable_slabs h.0)
              (Keeps-bind _ _ (Keeps-within _ asked) (λ _. Keeps-report_as _)))))

  plan_sweep-IsSafe :
      (objects : List StoredObject) → PlanIsSafe (plan_sweep live (rows_of ledger) objects)
  plan_sweep-IsSafe objects = (
    λ id h. ground (arith, plan_sweep-releasable live (rows_of ledger) objects id),
    λ r h. ground (arith, plan_sweep-dead live (rows_of ledger) objects r),
  )

  survey-Safe :
      Runs
        (OnWorld Safe)
        (survey env live (rows_of ledger))
        (λ plan s. PlanIsSafe plan × OnWorld Safe s)
        (λ _ s. OnWorld Safe s)
  unfolding survey
  survey-Safe =
      let asked : Keeps Safe (ask account env.on_account) =
        search (service_rules, adds account tt) in
      let walked : Keeps Safe (ask walk env.on_walk) = search (service_rules, adds walk tt) in
      Runs-bind (Keeps-Runs (Keeps-within _ (Keeps-check_none _))) λ _.
        Runs-bind (Keeps-Runs (Keeps-within _ asked)) λ before.
          Runs-bind (Keeps-Runs (Keeps-report_as _)) λ _.
            Runs-bind (Keeps-Runs (Keeps-within _ walked)) λ pages.
              Runs-bind (Keeps-Runs (Keeps-report_as _))
                λ _. record { at = λ s h. (plan_sweep-IsSafe (walk_objects pages).0, h) }

abbrev pub start : Device → Reporting Device Sweep
start d = record { world = begin d; report = no_sweep }

module _ (env : Env) (live : Live) (d : Device) where
  abbrev IsStart : Reporting Device Sweep → Type 0
  IsStart s = s ≡ start d

  abbrev HasRows : List Slab → Reporting Device Sweep → Type 0
  HasRows rows s = (rows ≡ rows_of d.ledger) × OnWorld (Safe env live d.ledger) s

  tracked-start :
      (o : Option Error)
      → env.on_act [] select_slabs ≡ o
      → Post HasRows (λ _ s. OnWorld (Safe env live d.ledger) s) (within (tracked env) (start d))
  unfolding tracked statement within
  tracked-start none e = ground arith
  tracked-start (some x) e = ground arith

  abbrev IsSafe : Reporting Device Sweep → Type 0
  IsSafe = OnWorld (Safe env live d.ledger)

  tracked-Runs : Runs IsStart (within (tracked env)) HasRows (λ _ s. IsSafe s)
  tracked-Runs = record {
    at = λ s h.
        subst (λ s'. Post HasRows (λ _ s''. IsSafe s'') (within (tracked env) s')) (sym h)
          (tracked-start (env.on_act [] select_slabs) refl);
  }

  abbrev plan_and_carry : List Slab → Exec (Reporting Device Sweep) Error (Unit {0})
  plan_and_carry rows = survey env live rows >>= λ plan. carry_out env plan

  plan_and_carry-Safe :
      (rows : List Slab)
      → Runs (HasRows rows) (plan_and_carry rows) (λ _ s. IsSafe s) (λ _ s. IsSafe s)
  plan_and_carry-Safe rows = record {
    at = λ s h.
        subst (λ r. Post (λ _ s'. IsSafe s') (λ _ s'. IsSafe s') (plan_and_carry r s)) (sym h.0)
          ((Keeps-Runs (
              Keeps-bind_with _ _ (survey-Safe env live d.ledger)
                (carry_out-Safe env live d.ledger))).at
            s h.1);
  }

  sweep-Runs : Runs IsStart (sweep env live) (λ _ s. IsSafe s) (λ _ s. IsSafe s)
  unfolding sweep
  sweep-Runs =
      Runs-bind {m = within (tracked env)} {f = plan_and_carry} tracked-Runs plan_and_carry-Safe

-- Whatever the services answer, a sweep asks the indexer to unpin only slabs that the ledger
-- tracked as this device's own when it began and that the keep-set does not name, and to delete
-- only objects that the keep-set does not name.
pub sweep-IsAllowed :
    (env : Env) (live : Live) (d : Device)
    → All (IsAllowed live d.ledger) (sweep env live (start d)).1.world.calls
sweep-IsAllowed env live d = (Runs-state (sweep-Runs env live d) (start d) refl).holds
