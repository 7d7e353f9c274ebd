-- ===== src/Reclaim/Sweep/Order.antt =====
-- In what order a sweep destroys, and what it does to the ledger, whatever the services answer.
use mnemosia.Prelude.{List, [], ◌∷◌, All, string_keys}
use mnemosia.Prelude.Exec.{
  Keeps, Keeps-bind, Keeps-then, Keeps-check_none, Keeps-Runs, Keeps-Runs_to, Runs, Runs-bind,
  Runs-state, Keeps-pure,
}
use mnemosia.Sia.Names.{SlabId}
use mnemosia.Service.{
  Call, Calls, account, walk, select_slabs, delete_objects, unpin_slab, Env, World, Reporting, ask,
  act, statement,
}
use mnemosia.Service.Keeps.{
  OnWorld, Keeps-within, Keeps-report_as, Runs-act, Runs-within, service_rules,
}
use mnemosia.Reclaim.Plan.{Slab, Live, Plan}
use mnemosia.Reclaim.Sweep.{Device, Sweep, tracked, unpin, release, carry_out, survey, sweep}
use mnemosia.Reclaim.Sweep.Safety.{start}

-- Neither an object nor a slab is touched by the call.
abbrev pub IsReading : Call → Type 0
IsReading (unpin_slab id) = ⊥
IsReading (delete_objects refs) = ⊥
IsReading _ = Unit

abbrev pub IsNoUnpin : Call → Type 0
IsNoUnpin (unpin_slab id) = ⊥
IsNoUnpin _ = Unit

-- No call to delete objects comes after one to unpin a slab. The latest call is the first.
abbrev pub ObjectsFirst : Calls → Type 0
ObjectsFirst [] = Unit
ObjectsFirst (delete_objects refs ∷ earlier) = All IsNoUnpin earlier × ObjectsFirst earlier
ObjectsFirst (_ ∷ earlier) = ObjectsFirst earlier

abbrev Quiet : World Device → Type 0
Quiet w = All IsNoUnpin w.calls × ObjectsFirst w.calls

abbrev InOrder : World Device → Type 0
InOrder w = ObjectsFirst w.calls

reads :
    (c : Call)
    → IsReading c
    → (w : World Device) → Quiet w
    → Quiet (record w { calls = c ∷ w.calls })
reads (unpin_slab id) h w k = absurd h
reads (delete_objects refs) h w k = absurd h
reads _ h w k = ((tt, k.0), k.1)

module _ (env : Env) where
  tracked-Quiet : Keeps Quiet (tracked env)
  unfolding tracked
  tracked-Quiet =
      let told : Keeps Quiet (statement env select_slabs (λ d. d)) =
        search (service_rules, reads select_slabs tt) in
      Keeps-then told (record { at = λ s h. h })

  unpin-InOrder : (id : SlabId) → Keeps InOrder (unpin env id)
  unfolding unpin
  unpin-InOrder id = search service_rules

  release-InOrder : (ids : List SlabId) → Keeps (OnWorld InOrder) (release env ids)
  unfolding release
  release-InOrder [] = Keeps-pure tt
  release-InOrder (id ∷ rest) =
      Keeps-then (Keeps-within _ (unpin-InOrder id))
        (Keeps-then (Keeps-report_as _) (release-InOrder rest))

  to_order : (s : Reporting Device Sweep) → OnWorld Quiet s → OnWorld InOrder s
  to_order s h = record { holds = h.holds.1 }

  carry_out-InOrder :
      (plan : Plan)
      → Runs
          (OnWorld Quiet)
          (carry_out env plan)
          (λ _ s. OnWorld InOrder s)
          (λ _ s. OnWorld InOrder s)
  unfolding carry_out
  carry_out-InOrder plan =
      let last : Keeps InOrder (ask account env.on_account) = search service_rules in
      let rest = Keeps-Runs (
        Keeps-then (Keeps-report_as {P = InOrder} _) (
          Keeps-then (release-InOrder plan.releasable_slabs)
            (Keeps-bind _ _ (Keeps-within _ last) (λ _. Keeps-report_as _)))) in
      let told : Runs Quiet (act env (delete_objects plan.dead_objects)) (λ _ w. InOrder w)
          (λ _ w. InOrder w) =
        Runs-act env (delete_objects plan.dead_objects) (λ w h. h) in
      Runs-bind (Keeps-Runs_to to_order (Keeps-report_as _))
        λ _. Runs-bind (Runs-within _ told) (λ _. rest)

  survey-Quiet : (live : Live) (rows : List Slab) → Keeps (OnWorld Quiet) (survey env live rows)
  unfolding survey
  survey-Quiet live rows =
      let asked : Keeps Quiet (ask account env.on_account) =
        search (service_rules, reads account tt) in
      let walked : Keeps Quiet (ask walk env.on_walk) = search (service_rules, reads walk tt) in
      Keeps-then (Keeps-within _ (Keeps-check_none _)) (
        Keeps-bind _ _ (Keeps-within _ asked) λ before. Keeps-then (Keeps-report_as _) (
          Keeps-bind _ _ (Keeps-within _ walked)
            λ pages. Keeps-then (Keeps-report_as _) (Keeps-pure _)))

  sweep-InOrder :
      (live : Live)
      → Runs (OnWorld Quiet) (sweep env live) (λ _ s. OnWorld InOrder s) (λ _ s. OnWorld InOrder s)
  unfolding sweep
  sweep-InOrder live =
      Runs-bind (Keeps-Runs_to to_order (Keeps-within _ tracked-Quiet))
        λ rows. Runs-bind (Keeps-Runs_to to_order (survey-Quiet live rows)) carry_out-InOrder

-- Whatever the services answer, a sweep makes no call to delete objects once it has made one to
-- unpin a slab.
pub sweep-ObjectsFirst :
    (env : Env) (live : Live) (d : Device) → ObjectsFirst (sweep env live (start d)).1.world.calls
sweep-ObjectsFirst env live d =
    (Runs-state (sweep-InOrder env live) (start d) (record { holds = (tt, tt) })).holds
