-- ===== src/Reclaim/Repack/Order.antt =====
-- A repack, phase by phase: what it destroys comes last.
use mnemosia.Prelude.{List, [], ◌∷◌, string_keys}
use mnemosia.Prelude.Exec.{
  Keeps, Keeps-bind, Keeps-then, Keeps-check_none, Keeps-pure, Keeps-Runs, Runs-error,
  Keeps-Runs_to, Runs, Runs-bind, Runs-pure,
}
use mnemosia.Sia.Names.{SlabId}
use mnemosia.Service.{account, download, select_slabs, Env, Reporting}
use mnemosia.Service.Keeps.{
  OnWorld, Keeps-within, Keeps-ask, Keeps-statement, Keeps-report_as, Runs-within,
}
use mnemosia.Reclaim.Sweep.{Device, tracked}
use mnemosia.Reclaim.Repack.{Held, Repack, owns_all, read_all, rewrite}
use mnemosia.Reclaim.Repack.Release.{
  Justified, Before, Written, plain-Before, OneSlab, put_batch-Written,
}

module _ (env : Env) (held : List Held) where
  tracked-Before : Keeps (Before {D = Device} env held) (tracked env)
  unfolding tracked
  tracked-Before =
      let add = plain-Before {D = Device} env held select_slabs tt in
      Keeps-then (Keeps-statement env select_slabs (λ d. d) add add) (record { at = λ s h. h })

  owns_all-Before : (ids : List SlabId) → Keeps (Before {D = Device} env held) (owns_all env ids)
  unfolding owns_all
  owns_all-Before [] = Keeps-pure tt
  owns_all-Before (id ∷ ids) = Keeps-bind _ _ tracked-Before (λ rows. Keeps-check_none _)

  read_all-Before : (items : List Held) → Keeps (Before {D = Device} env held) (read_all env items)
  unfolding read_all
  read_all-Before [] = Keeps-pure []
  read_all-Before (item ∷ rest) =
      Keeps-bind _ _
        (Keeps-ask (download item.ref) _
          (plain-Before {D = Device} env held (download item.ref) tt))
        λ payload. Keeps-bind _ _ (read_all-Before rest) (λ blobs. Keeps-pure _)

  pub justified :
      (s : Reporting Device Repack) → OnWorld (Before env held) s → OnWorld (Justified env held) s
  justified s h = record { holds = h.holds.1 }

  pub rewrite-Written :
      OneSlab env
      → (from : List SlabId)
      → Runs
          (OnWorld (Before env held))
          (rewrite env held from)
          (λ flush s. OnWorld (Written env held flush.slabs) s)
          (λ _ s. OnWorld (Justified env held) s)
  unfolding rewrite
  rewrite-Written one from =
      let asked =
        Keeps-ask {P = Before {D = Device} env held} account env.on_account
          (plain-Before env held account tt) in
      Runs-bind (Keeps-Runs_to justified (Keeps-within _ (owns_all-Before from))) λ _.
        Runs-bind (Keeps-Runs_to justified (Keeps-within _ asked)) λ before.
          Runs-bind (Keeps-Runs_to justified (Keeps-report_as _)) λ _.
            Runs-bind (Keeps-Runs_to justified (Keeps-within _ (read_all-Before held))) λ blobs.
              Runs-bind (Runs-within _ (put_batch-Written env held one blobs)) λ flush.
                Runs-bind
                  (Runs-error (λ s h. record { holds = h.holds.1 })
                    (Keeps-Runs (Keeps-report_as _)))
                  λ _. Runs-pure flush (λ s h. h)
