-- ===== src/Reclaim/Sweep/Rows.antt =====
-- What a sweep does to the ledger, and when it stops before it has asked anything.
use mnemosia.Prelude.{
  ◌≡◌, refl, subst, ◌⊎◌, inl, inr, List, [], ◌∷◌, none, some, Bool, true, arith, any_of, ◌==◌,
  string_keys, length,
}
use mnemosia.Prelude.Exec.{
  err, Keeps, Runs-Keeps, Keeps-bind, Keeps-then, Keeps-check_none, Keeps-pure, Runs, Runs-bind,
  Keeps-Runs,
}
use text.Mathlib.TextEquality.{eq_iff}
use mnemosia.Sia.Names.{SlabId}
use mnemosia.Local.Slabs.{Ledger, forget_slab}
use mnemosia.Service.{
  Error, Call, Calls, account, walk, select_slabs, delete_objects, unpin_slab, delete_slab,
  delete_slab_meta, Env, World, act, statement, within, begin,
}
use mnemosia.Service.Keeps.{
  OnWorld, Keeps-within, Keeps-ask, Keeps-act, Keeps-statement, Runs-statement, Keeps-report_as,
}
use mnemosia.Reclaim.Plan.{Slab, Live, Plan, check}
use mnemosia.Reclaim.Sweep.{
  Device, no_sweep, forget_row, forget_meta, rows_of, tracked, unpin, release, carry_out, survey,
  sweep,
}
use mnemosia.Reclaim.Sweep.Safety.{start}

-- A keep-set that `check` refuses ends the sweep with that error when it has read the ledger and
-- done nothing else: no call of the indexer, no change of a table, an empty report.
pub sweep_refused :
    (env : Env) (live : Live) (d : Device) (e : Error)
    → env.on_act [] select_slabs ≡ none
    → check live (length (rows_of d.ledger)) ≡ some e
    → sweep env live (start d) ≡ (
      err e,
      record { world = record { device = d; calls = select_slabs ∷ [] }; report = no_sweep },
    )
unfolding sweep survey tracked statement within
sweep_refused env live d e h k = ground arith

-- Whether a row of the ledger names the slab.
abbrev pub lists : SlabId → Ledger → Bool
lists id ledger = any_of (λ row. row.slab_id == id) ledger

-- An earlier call was this one, and it was answered with no error.
abbrev pub Succeeded : Env → Call → Calls → Type 0
Succeeded env c [] = ⊥
Succeeded env c (c' ∷ earlier) =
    ((c' ≡ c) × (env.on_act earlier c' ≡ none)) ⊎ Succeeded env c earlier

lists-forget_slab :
    (id j : SlabId) (ledger : Ledger)
    → lists id ledger ≡ true
    → (lists id (forget_slab j ledger) ≡ true) ⊎ (j ≡ id)
unfolding forget_slab
lists-forget_slab id j [] h = ground arith
lists-forget_slab id j (row ∷ rows) h =
    ground (arith, eq_iff row.slab_id id, eq_iff row.slab_id j, lists-forget_slab id j rows)

module _ (env : Env) (start_ledger : Ledger) where
  -- A row that was there is there, or its slab was unpinned with success.
  abbrev Accounted : World Device → Type 0
  Accounted w =
      (id : SlabId)
      → lists id start_ledger ≡ true
      → (lists id w.device.ledger ≡ true) ⊎ Succeeded env (unpin_slab id) w.calls

  later : (c : Call) (w : World Device) → Accounted w → Accounted (record w { calls = c ∷ w.calls })
  later c w h id there = elim (h id there) [ inl kept ↦ inl kept | inr gone ↦ inr (inr gone) ]

  forgotten :
      (id : SlabId) (w : World Device)
      → Accounted w
      → Succeeded env (unpin_slab id) w.calls
      → (c : Call)
      → Accounted (record {
        device = record w.device { ledger = forget_slab id w.device.ledger };
        calls = c ∷ w.calls;
      })
  forgotten id w h done c j there = elim (h j there) [
    | inr gone ↦ inr (inr gone)
    | inl kept ↦ elim (lists-forget_slab j id w.device.ledger kept) [
      | inl still ↦ inl still
      | inr same ↦ inr (inr (subst (λ x. Succeeded env (unpin_slab x) w.calls) same done))
    ]
  ]

  unpin-Accounted :
      (id : SlabId) → Runs Accounted (unpin env id) (λ _ w. Accounted w) (λ _ w. Accounted w)
  unfolding unpin act
  unpin-Accounted id =
      let last =
        Keeps-statement {P = Accounted} env (delete_slab_meta id) (forget_meta id)
          (later (delete_slab_meta id)) (later (delete_slab_meta id)) in
      Runs-bind
        (Runs-statement env (unpin_slab id) (λ d. d)
          (λ w h done. (later (unpin_slab id) w h, inl (refl, done))) (later (unpin_slab id)))
        λ _.
          Runs-bind
            (Runs-statement {P = λ w. Accounted w × Succeeded env (unpin_slab id) w.calls} env
              (delete_slab id) (forget_row id) (λ w h _. forgotten id w h.0 h.1 (delete_slab id))
              (λ w h. later (delete_slab id) w h.0))
            λ _. Keeps-Runs last

-- An invariant that any call and the unpinning of a slab keep is kept by a sweep.
module _ (env : Env) (P : World Device → Type 0)
    (add : (c : Call) (w : World Device) → P w → P (record w { calls = c ∷ w.calls }))
    (unpins : (id : SlabId) → Keeps P (unpin env id)) where
  release-Keeps : (ids : List SlabId) → Keeps (OnWorld P) (release env ids)
  unfolding release
  release-Keeps [] = Keeps-pure tt
  release-Keeps (id ∷ rest) =
      Keeps-then (Keeps-within _ (unpins id)) (Keeps-then (Keeps-report_as _) (release-Keeps rest))

  carry_out-Keeps : (plan : Plan) → Keeps (OnWorld P) (carry_out env plan)
  unfolding carry_out
  carry_out-Keeps plan =
      let told = Keeps-act {P = P} env (delete_objects plan.dead_objects) (add _) in
      let asked = Keeps-ask {P = P} account env.on_account (add _) in
      Keeps-then (Keeps-report_as _) (
        Keeps-then (Keeps-within _ told) (
          Keeps-then (Keeps-report_as _) (
            Keeps-then (release-Keeps plan.releasable_slabs)
              (Keeps-bind _ _ (Keeps-within _ asked) (λ _. Keeps-report_as _)))))

  survey-Keeps : (live : Live) (rows : List Slab) → Keeps (OnWorld P) (survey env live rows)
  unfolding survey
  survey-Keeps live rows =
      let asked = Keeps-ask {P = P} account env.on_account (add _) in
      let walked = Keeps-ask {P = P} walk env.on_walk (add _) in
      Keeps-then (Keeps-within _ (Keeps-check_none _)) (
        Keeps-bind _ _ (Keeps-within _ asked) λ before. Keeps-then (Keeps-report_as _) (
          Keeps-bind _ _ (Keeps-within _ walked)
            λ pages. Keeps-then (Keeps-report_as _) (Keeps-pure _)))

  tracked-Keeps : Keeps P (tracked env)
  unfolding tracked
  tracked-Keeps =
      Keeps-then (Keeps-statement env select_slabs (λ d. d) (add _) (add _))
        (record { at = λ s h. h })

  pub sweep-Keeps : (live : Live) → Keeps (OnWorld P) (sweep env live)
  unfolding sweep
  sweep-Keeps live =
      Keeps-bind _ _ (Keeps-within _ tracked-Keeps)
        λ rows. Keeps-bind _ _ (survey-Keeps live rows) carry_out-Keeps

Accounted-start : (env : Env) (d : Device) → Accounted env d.ledger (begin d)
Accounted-start env d id there = inl there

-- Whatever the services answer, a slab that the ledger named when a sweep began is named by it
-- still when the sweep ends, or the indexer has been asked to unpin it and has answered with no
-- error.
pub sweep-accounts :
    (env : Env) (live : Live) (d : Device) (id : SlabId)
    → lists id d.ledger ≡ true
    → let w = (sweep env live (start d)).1.world in
      (lists id w.device.ledger ≡ true) ⊎ Succeeded env (unpin_slab id) w.calls
sweep-accounts env live d =
    ((sweep-Keeps env (Accounted env d.ledger) (later env d.ledger)
        (λ id. Runs-Keeps (unpin-Accounted env d.ledger id)) live).at
      (start d) (record { holds = Accounted-start env d })).holds
