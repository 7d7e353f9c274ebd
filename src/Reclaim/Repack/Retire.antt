-- ===== src/Reclaim/Repack/Retire.antt =====
-- The end of a repack: the caller is told of the new locations, and the old ones are released.
use mnemosia.Prelude.{
  ℕ, ◌≡◌, refl, sym, subst, inl, List, [], ◌∷◌, map, Bool, true, false, arith, contains,
  string_keys, ==_refl, if◌then◌else◌, length, ◌==◌,
}
use mnemosia.Prelude.Exec.{
  Result, ok, pure, Keeps, Keeps-bind, Keeps-then, Keeps-check_none, Keeps-pure, Keeps-Runs_to,
  Runs, Runs-bind, Keeps-Runs_both, ◌>>=◌, ◌>>◌, Runs-state,
}
use mnemosia.Sia.Names.{SlabId, ObjectRef}
use mnemosia.Store.{Flush, bytes_of}
use mnemosia.Service.{
  Error, account, callback, upsert_slab, delete_objects, unpin_slab, delete_slab, delete_slab_meta,
  Env, World, Reporting, ask, act, within, report_as, begin,
}
use mnemosia.Service.Keeps.{
  OnWorld, Keeps-within, Keeps-ask, Keeps-act, Keeps-statement, Keeps-report_as, Runs-within,
  Runs-statement,
}
use mnemosia.Reclaim.Sweep.{Device, track, unpin, forget_row, forget_meta}
use mnemosia.Reclaim.Repack.{
  Held, Repack, no_repack, sources, track_all, unpin_sources, retire, settle, move_records,
  repack_held, repack,
}
use mnemosia.Reclaim.Repack.Release.{
  Catalogued, IsJustified, Justified, Before, Written, OneSlab, plain-Written, PinsOnly-NotPinned,
}
use mnemosia.Reclaim.Repack.Order.{justified, rewrite-Written}

module _ (env : Env) (held : List Held) (ids : List SlabId) where
  abbrev Wrote : World Device → Type 0
  Wrote = Written env held ids

  -- The caller has catalogued the new locations.
  abbrev Ready : World Device → Type 0
  Ready w = Wrote w × Catalogued env w.calls

  track-Written : (id : SlabId) (records bytes : ℕ) → Keeps Wrote (track env id records bytes)
  unfolding track
  track-Written id records bytes = record {
    at = λ w h.
        either (id == "") (ok tt, w) _ h ((Keeps-statement env (upsert_slab id) _ add add).at w h);
  }
    where
      add : (w : World Device) → Wrote w → Wrote (record w { calls = upsert_slab id ∷ w.calls })
      add = plain-Written env held ids (upsert_slab id) tt

      either :
          (b : Bool) (x y : Result Error (Unit {0}) × World Device)
          → Wrote x.1
          → Wrote y.1
          → Wrote (if b then x else y).1
      either true x y hx hy = hx
      either false x y hx hy = hy

  track_all-Written :
      (slabs : List SlabId) (records bytes : ℕ) → Keeps Wrote (track_all env slabs records bytes)
  unfolding track_all
  track_all-Written [] records bytes = Keeps-pure tt
  track_all-Written (id ∷ rest) records bytes =
      Keeps-then (track-Written id records bytes) (track_all-Written rest records bytes)

  unpin-Ready :
      (id : SlabId)
      → contains (sources held []) id ≡ true
      → contains ids id ≡ false
      → Keeps Ready (unpin env id)
  unfolding unpin
  unpin-Ready id there kept =
      Keeps-then
        (Keeps-act env (unpin_slab id) (λ w h.
          (((tt, h.0.0), (there, PinsOnly-NotPinned ids id w.calls kept h.0.0, h.1, h.0.1)), h.1)))
        (Keeps-then
          (Keeps-statement env (delete_slab id) (forget_row id) (λ w h. (((tt, h.0.0), h.0.1), h.1))
            (λ w h. (((tt, h.0.0), h.0.1), h.1)))
          (Keeps-statement env (delete_slab_meta id) (forget_meta id)
            (λ w h. (((tt, h.0.0), h.0.1), h.1)) (λ w h. (((tt, h.0.0), h.0.1), h.1))))

  unpin_sources-Ready :
      (from : List SlabId)
      → ((id : SlabId) → contains from id ≡ true → contains (sources held []) id ≡ true)
      → Keeps Ready (unpin_sources env ids from)
  unfolding unpin_sources contains
  unpin_sources-Ready [] sub = Keeps-pure tt
  unpin_sources-Ready (id ∷ rest) sub =
      Keeps-then (one (contains ids id) refl)
        (unpin_sources-Ready rest (λ x e. sub x (ground arith)))
    where
      one : (b : Bool) → contains ids id ≡ b → Keeps Ready (if b then pure tt else unpin env id)
      one true e = Keeps-pure tt
      one false e = unpin-Ready id (sub id (ground (arith, ==_refl id))) e

  retire-Ready :
      (written : Flush)
      → written.slabs ≡ ids
      → Keeps Ready (retire env held (sources held []) written)
  unfolding retire
  retire-Ready written e =
      Keeps-then
        (Keeps-act env (delete_objects (map (λ h. h.ref) held))
          (λ w h. (((tt, h.0.0), (refl, h.1, h.0.1)), h.1)))
        (subst (λ s. Keeps Ready (unpin_sources env s (sources held []))) (sym e)
          (unpin_sources-Ready (sources held []) (λ id h. h)))

module _ (env : Env) (held : List Held) (flush : Flush) where
  Ready-Justified :
      (s : Reporting Device Repack)
      → OnWorld (Ready env held flush.slabs) s
      → OnWorld (Justified env held) s
  Ready-Justified s h = record { holds = h.holds.0.1 }

  Written-Justified :
      (s : Reporting Device Repack)
      → OnWorld (Wrote env held flush.slabs) s
      → OnWorld (Justified env held) s
  Written-Justified s h = record { holds = h.holds.1 }

  -- The call of the caller's function: from here on the new locations are catalogued.
  told :
      (refs : List ObjectRef)
      → Runs
          (Wrote env held flush.slabs)
          (act env (callback refs))
          (λ _ w. Ready env held flush.slabs w)
          (λ _ w. Justified env held w)
  unfolding act
  told refs =
      Runs-statement env (callback refs) (λ d. d) (λ w h done. (((tt, h.0), h.1), inl done))
        (λ w h. h.1)

  settle-Ready :
      Runs
        (OnWorld (Wrote env held flush.slabs))
        (settle env held flush)
        (λ _ s. OnWorld (Ready env held flush.slabs) s)
        (λ _ s. OnWorld (Justified env held) s)
  unfolding settle
  settle-Ready = Runs-bind (Keeps-Runs_to Written-Justified (Keeps-check_none _)) λ _.
      Runs-bind (Keeps-Runs_to Written-Justified (Keeps-report_as _)) λ _.
        Runs-bind
          (Keeps-Runs_to Written-Justified (
            Keeps-within _ (
              track_all-Written env held flush.slabs flush.slabs (length held)
                (bytes_of flush.written))))
          λ _. Runs-within _ (told (map (λ m. m.to) (move_records held flush.written)))

  finish-Ready : Keeps (OnWorld (Ready env held flush.slabs)) (do
    within (retire env held (sources held []) flush)
    after ← within (ask account env.on_account)
    report_as {R = Repack} (λ r. record r { after = after }))
  finish-Ready = Keeps-then (Keeps-within _ (retire-Ready env held flush.slabs flush refl)) (
      Keeps-bind _ _
        (Keeps-within _ (Keeps-ask account env.on_account (λ w h. (((tt, h.0.0), h.0.1), h.1))))
        (λ after. Keeps-report_as _))

module _ (env : Env) (held : List Held) where
  repack_held-Justified :
      OneSlab env
      → Runs
          (OnWorld (Before env held))
          (repack_held env held (sources held []))
          (λ _ s. OnWorld (Justified env held) s)
          (λ _ s. OnWorld (Justified env held) s)
  unfolding repack_held
  repack_held-Justified one =
      Runs-bind (Keeps-Runs_to (justified env held) (Keeps-report_as _)) λ _.
        Runs-bind (rewrite-Written env held one (sources held [])) λ flush.
          Runs-bind (settle-Ready env held flush)
            λ _. Keeps-Runs_both (Ready-Justified env held flush) (finish-Ready env held flush)

abbrev pub start : Device → Reporting Device Repack
start d = record { world = begin d; report = no_repack }

-- Where all slices of an object of a packed upload lie on one slab, as `slabOf` of sia/upload.go
-- says of them, and whatever else the services answer: a repack asks the indexer to delete only the
-- objects that its records were at, and to unpin only slabs that they were on and that it has not
-- pinned anew, and it asks for either only after the caller has been told of the new locations and
-- has answered with no error.
pub repack-IsJustified :
    (env : Env) (held : List Held) (d : Device)
    → OneSlab env
    → IsJustified env held (repack env held (start d)).1.world.calls
unfolding repack
repack-IsJustified env [] d one = tt
repack-IsJustified env (h ∷ held) d one =
    (Runs-state (repack_held-Justified env (h ∷ held) one) (start d)
      (record { holds = (tt, tt) })).holds
