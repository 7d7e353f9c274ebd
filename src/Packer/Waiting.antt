-- ===== src/Packer/Waiting.antt =====
-- What a flush may do to a record that waits.
use mnemosia.Prelude.{
  ℕ, ◌≡◌, ◌≤◌, refl, ◌∙◌, ap, ◌⊎◌, inl, inr, Bool, Bool-cases, true, false, length, List, [], ◌∷◌,
  Option, none, map, String, number_keys, contains, arith,
}
use mnemosia.Prelude.Exec.{
  Result, ok, err, Runs, Keeps, Keeps-bind, Keeps-then, Keeps-pure, Keeps-fail, Keeps-if, Runs-bind,
  Keeps-Runs, Runs-Keeps, Keeps-Runs_both,
}
use mnemosia.Sia.Names.{SlabId}
use mnemosia.Sia.Upload.{Placement, upload_packed, pin_sliced, pin_batch, slabs}
use mnemosia.Store.{Blob, Flush, put_batch, file_placements}
use mnemosia.Service
use mnemosia.Service.{
  Error, offline, begin, Call, Calls, World, Env, account, walk, pinned_slabs, delete_objects,
  unpin_slab, download, finalize_upload, pin_slabs, pin_objects, callback, of_flush, select_slabs,
  upsert_slab, delete_slab, delete_slab_meta, insert_queued, select_queue, of_vault, statement, act,
  ask,
}
use mnemosia.Service.Keeps.{Keeps-statement, Keeps-act, Keeps-ask, Runs-statement}
use mnemosia.Local.Queue.Members.{drops, execute, queued_after, contains-execute}
use mnemosia.Local.Queue
use mnemosia.Local.Queue.{QueueRows, QueuedBlob, ids_of, set_claims, claimable, queue_state}
use mnemosia.Packer.Cadence.{Reason, claim_timeout_of}
use mnemosia.Packer.{
  Device, Packer, on_queue, blobs_of, refresh, claim, put_or_release, release_after, notify,
  flush_claimed, flush,
}

-- After the first n calls the packer's callback was told of a flush with this record, and answered
-- with no error. The latest call is the first.
abbrev pub Told : Env → ℕ → ℕ → Calls → Type 0
Told env id n [] = ⊥
Told env id n (of_flush ids ∷ earlier) =
    ((contains ids id ≡ true) × (n ≤ length earlier) × (env.on_act earlier (of_flush ids) ≡ none))
    ⊎ Told env id n earlier
Told env id n (_ ∷ earlier) = Told env id n earlier

-- The record is queued, or since then the callback was told of it.
pub record Safe (env : Env) (id n : ℕ) (w : World Device) : Type 0 where
  pub either : (contains (ids_of w.device.queue) id ≡ true) ⊎ Told env id n w.calls
  pub since : n ≤ length w.calls

Told-later :
    (env : Env) (id n : ℕ) (c : Call) (calls : Calls)
    → Told env id n calls
    → Told env id n (c ∷ calls)
Told-later env id n (of_flush ids) calls h = inr h
Told-later env id n (callback refs) calls h = h
Told-later env id n account calls h = h
Told-later env id n walk calls h = h
Told-later env id n pinned_slabs calls h = h
Told-later env id n (delete_objects refs) calls h = h
Told-later env id n (unpin_slab s) calls h = h
Told-later env id n (download ref) calls h = h
Told-later env id n (finalize_upload ps) calls h = h
Told-later env id n (pin_slabs ids) calls h = h
Told-later env id n (pin_objects ids) calls h = h
Told-later env id n select_slabs calls h = h
Told-later env id n (upsert_slab s) calls h = h
Told-later env id n (delete_slab s) calls h = h
Told-later env id n (delete_slab_meta s) calls h = h
Told-later env id n (insert_queued k) calls h = h
Told-later env id n Service.claim_queued calls h = h
Told-later env id n select_queue calls h = h
Told-later env id n (Service.release_queued ids) calls h = h
Told-later env id n (Service.drop_queued ids) calls h = h
Told-later env id n (of_vault c) calls h = h

ids_of-set_claims :
    (claim : Option (ℕ × String)) (ids : List ℕ) (queue : QueueRows)
    → ids_of (set_claims claim ids queue) ≡ ids_of queue
unfolding ids_of set_claims
ids_of-set_claims claim ids [] = refl
ids_of-set_claims claim ids (q ∷ rest) = ground (arith, ids_of-set_claims claim ids rest)

module _ (env : Env) (id n : ℕ) where
  -- Any call, after which the record is queued if it was.
  pub kept_call :
      (c : Call) (w : World Device) (d : Device)
      → (contains (ids_of w.device.queue) id ≡ true → contains (ids_of d.queue) id ≡ true)
      → Safe env id n w
      → Safe env id n (record { device = d; calls = c ∷ w.calls })
  kept_call c w d kept h = elim h.either [
    | inl here ↦ record { either = inl (kept here); since = omega (arith, h.since) }
    | inr told ↦ record {
      either = inr (Told-later env id n c w.calls told);
      since = omega (arith, h.since);
    }
  ]

  any_call :
      (c : Call) (w : World Device) (d : Device)
      → ids_of d.queue ≡ ids_of w.device.queue
      → Safe env id n w
      → Safe env id n (record { device = d; calls = c ∷ w.calls })
  any_call c w d same = kept_call c w d (λ here. ap (λ ids. contains ids id) same ∙ here)

  same_call :
      (c : Call) (w : World Device)
      → Safe env id n w
      → Safe env id n (record w { calls = c ∷ w.calls })
  same_call c w h = any_call c w w.device refl h

  Keeps-claims :
      (c : Call) (f : QueueRows → QueueRows)
      → ((queue : QueueRows) → ids_of (f queue) ≡ ids_of queue)
      → Keeps (Safe env id n) (statement env c (on_queue f))
  Keeps-claims c f same =
      Keeps-statement env c (on_queue f) (same_call c)
        (λ w h. any_call c w (on_queue f w.device) (same w.device.queue) h)

  act-Safe : (c : Call) → Keeps (Safe env id n) (act env c)
  act-Safe c = Keeps-act env c (same_call c)

  upload_packed-Safe :
      (payloads : List (List ℕ)) → Keeps (Safe env id n) (upload_packed {D = Device} env payloads)
  unfolding upload_packed
  upload_packed-Safe [] = Keeps-pure []
  upload_packed-Safe (p ∷ payloads) =
      Keeps-bind _ _ (Keeps-ask _ _ (same_call (finalize_upload (p ∷ payloads))))
        λ objects. Keeps-if _ (Keeps-pure _) (Keeps-fail _)

  pin_sliced-Safe : (ids : List SlabId) → Keeps (Safe env id n) (pin_sliced {D = Device} env ids)
  unfolding pin_sliced
  pin_sliced-Safe [] = Keeps-pure tt
  pin_sliced-Safe (s ∷ rest) = act-Safe _

  pin_batch-Safe :
      (batch : List Placement) → Keeps (Safe env id n) (pin_batch {D = Device} env batch)
  unfolding pin_batch
  pin_batch-Safe [] = Keeps-pure tt
  pin_batch-Safe (p ∷ batch) = Keeps-then (pin_sliced-Safe _) (act-Safe _)

  put_batch-Safe : (blobs : List Blob) → Keeps (Safe env id n) (put_batch env blobs)
  unfolding put_batch
  put_batch-Safe [] = Keeps-pure _
  put_batch-Safe (b ∷ blobs) =
      Keeps-bind _ _ (upload_packed-Safe (map (λ x. x.payload) (b ∷ blobs))) λ batch.
        Keeps-then (pin_batch-Safe batch)
          (Keeps-pure (record { written = file_placements (b ∷ blobs) batch; slabs = slabs batch }))

  claim-Safe : (owner : String) (timeout : ℕ) → Keeps (Safe env id n) (claim env owner timeout)
  unfolding claim Queue.claim_queued
  claim-Safe owner timeout = record {
    at = λ w h.
        (Keeps-then
            (Keeps-claims Service.claim_queued
              (Queue.claim_queued owner (env.now w.calls) timeout 0)
              (λ queue. ids_of-set_claims _ _ queue))
            (Keeps-pure (claimable (env.now w.calls) timeout 0 w.device.queue))).at
          w h;
  }

  release_after-Safe :
      (ids : List ℕ) (x : Result Error Flush × World Device)
      → Safe env id n x.1
      → Safe env id n (release_after env ids x).1
  unfolding release_after Queue.release_queued
  release_after-Safe ids (ok flushed, w) h = h
  release_after-Safe ids (err e, w) h =
      (Keeps-claims (Service.release_queued ids) (set_claims none ids)
          (ids_of-set_claims none ids)).at
        w h

  put_or_release-Safe :
      (claimed : List QueuedBlob) → Keeps (Safe env id n) (put_or_release env claimed)
  unfolding put_or_release
  put_or_release-Safe claimed = record {
    at = λ w h.
        release_after-Safe (ids_of claimed) (put_batch env (blobs_of claimed) w)
          ((put_batch-Safe (blobs_of claimed)).at w h);
  }

  -- The callback was told of the record.
  record Done (w : World Device) : Type 0 where
    told : Told env id n w.calls
    since : n ≤ length w.calls

  Done-Safe : (w : World Device) → Done w → Safe env id n w
  Done-Safe w h = record { either = inr h.told; since = h.since }

  Done-statement : (c : Call) (f : Device → Device) → Keeps Done (statement env c f)
  Done-statement c f =
      Keeps-statement env c f (λ w h. later w h w.device) (λ w h. later w h (f w.device))
    where
      later :
          (w : World Device)
          → Done w
          → (d : Device) → Done (record { device = d; calls = c ∷ w.calls })
      later w h d = record {
        told = Told-later env id n c w.calls h.told;
        since = omega (arith, h.since);
      }

  notify-Done :
      (has_callback : Bool) (ids : List ℕ)
      → has_callback ≡ true
      → contains ids id ≡ true
      → Runs (Safe env id n) (notify env has_callback ids) (λ _ w. Done w) (λ _ w. Safe env id n w)
  unfolding notify act
  notify-Done true ids h its =
      Runs-statement env (of_flush ids) (λ d. d)
        (λ w s e. record { told = inl (its, s.since, e); since = omega (arith, s.since) })
        (same_call (of_flush ids))
  notify-Done false ids h its = ground (arith, h)

  notify-Safe :
      (has_callback : Bool) (ids : List ℕ) → Keeps (Safe env id n) (notify env has_callback ids)
  unfolding notify
  notify-Safe true ids = act-Safe (of_flush ids)
  notify-Safe false ids = Keeps-pure tt

  -- Other records are dropped.
  drop-Safe :
      (ids : List ℕ)
      → contains ids id ≡ false
      → Keeps
          (Safe env id n)
          (statement env (Service.drop_queued ids) (on_queue (Queue.drop_queued ids)))
  unfolding execute queued_after
  drop-Safe ids others =
      Keeps-statement env (Service.drop_queued ids) (on_queue (Queue.drop_queued ids))
        (same_call (Service.drop_queued ids))
        (λ w h.
          kept_call (Service.drop_queued ids) w (on_queue (Queue.drop_queued ids) w.device)
            (λ here. ground (arith, contains-execute (drops ids) w.device.queue id, here, others))
            h)

  refresh-Safe : Keeps (Safe env id n) (refresh env)
  unfolding refresh
  refresh-Safe =
      Keeps-statement env select_queue (λ d. record d { state = queue_state d.queue })
        (same_call select_queue)
        (λ w h.
          any_call select_queue w (record w.device { state = queue_state w.device.queue }) refl h)

  flush_claimed-Safe :
      (p : Packer) (reason : Reason) (claimed : List QueuedBlob)
      → p.has_callback ≡ true
      → Keeps (Safe env id n) (flush_claimed env p reason claimed)
  unfolding flush_claimed refresh
  flush_claimed-Safe p reason [] h = Keeps-pure none
  flush_claimed-Safe p reason (q ∷ claimed) h =
      elim (Bool-cases (contains (ids_of (q ∷ claimed)) id)) [
        | inl its ↦ Runs-Keeps (
            Runs-bind (Keeps-Runs (put_or_release-Safe (q ∷ claimed))) λ flushed.
              Runs-bind (notify-Done p.has_callback (ids_of (q ∷ claimed)) h its) λ _.
                Keeps-Runs_both Done-Safe (
                  Keeps-then (Done-statement _ _) (Keeps-then (Done-statement _ _) (Keeps-pure _))))
        | inr others ↦ Keeps-bind _ _ (put_or_release-Safe (q ∷ claimed)) λ flushed.
            Keeps-then (notify-Safe p.has_callback (ids_of (q ∷ claimed))) (
              Keeps-then (drop-Safe (ids_of (q ∷ claimed)) others)
                (Keeps-then refresh-Safe (Keeps-pure _)))
      ]

  pub flush-Safe :
      (p : Packer) (reason : Reason)
      → p.has_callback ≡ true
      → Keeps (Safe env id n) (flush env p reason)
  unfolding flush
  flush-Safe p reason h =
      Keeps-if p.online
        (Keeps-bind _ _ (claim-Safe p.owner (claim_timeout_of p.policy))
          λ claimed. flush_claimed-Safe p reason claimed h)
        (Keeps-fail offline)

-- Whatever the services answer, where a callback is set, a record that is queued before a flush is
-- queued after it, or in the flush the callback was told of it and answered with no error.
pub flush-IsSafe :
    (env : Env) (p : Packer) (reason : Reason) (d : Device) (id : ℕ)
    → p.has_callback ≡ true
    → contains (ids_of d.queue) id ≡ true
    → Safe env id 0 (flush env p reason (begin d)).1
flush-IsSafe env p reason d id h here =
    (flush-Safe env id 0 p reason h).at (begin d)
      (record { either = inl here; since = omega arith })
