-- ===== src/Packer.antt =====
-- store/packer/packer.go: queueing sealed records and flushing them as one batch. The records that
-- a flush returns beside an error are left out.
pub mod Cadence
pub mod Waiting
pub mod Timer
mod Tests
use mnemosia.Prelude.{
  ℕ, ◌+◌, Bool, true, false, List, [], ◌∷◌, Option, none, some, map, length, String, if◌then◌else◌,
}
use mnemosia.Prelude.Exec.{Result, ok, err, Exec, pure, fail, lift, gets, modify, ◌>>=◌, ◌>>◌}
use mnemosia.Store.{Blob, Flush, put_batch}
use mnemosia.Service
use mnemosia.Service.{
  Error, offline, World, Env, of_flush, insert_queued, select_queue, statement, act,
}
use mnemosia.Local.Queue
use mnemosia.Local.Queue.{QueuedBlob, QueueRows, ids_of, queue_state, claimable, enqueue}
use mnemosia.Packer.Cadence.{Policy, Reason, QueueState, due, claim_timeout_of, manual}

-- The table, and the packer's own tally of it.
pub record Device : Type 0 where
  pub queue : QueueRows
  pub state : QueueState

-- Whether there is a store, and whether a callback is set.
pub record Packer : Type 0 where
  pub online : Bool
  pub has_callback : Bool
  pub policy : Policy
  pub owner : String

pub record Delivery : Type 0 where
  pub reason : Reason
  pub records : List QueuedBlob
  pub flush : Flush

abbrev pub Method : Type 0 → Type 0
Method A = Exec (World Device) Error A

abbrev pub on_queue : (QueueRows → QueueRows) → Device → Device
on_queue f d = record d { queue = f d.queue }

unfoldable pub blobs_of : List QueuedBlob → List Blob
blobs_of [] = []
blobs_of (q ∷ rest) = record { cid = q.cid; payload = q.payload } ∷ blobs_of rest

unfoldable pub tally : ℕ → ℕ → QueueState → QueueState
tally size since s = record {
  records = s.records + 1;
  bytes = s.bytes + size;
  oldest = elim s.oldest [ none ↦ some since | some t ↦ some t ];
  newest = some since;
}

-- `OnFlush`
unfoldable pub on_flush : Packer → Packer
on_flush p = record p { has_callback = true }

-- `Due`
unfoldable pub due_now : Packer → Device → ℕ → Option Reason
due_now p d now = due p.policy d.state now

module _ (env : Env) where
  unfoldable pub refresh : Method (Unit {0})
  refresh = statement env select_queue (λ d. record d { state = queue_state d.queue })

  -- `New`, with the queue at hand; the token is what `newOwner` answers.
  unfoldable pub new_packer : Bool → Policy → Result Error String → Method Packer
  new_packer online policy token = do
    owner ← lift token
    refresh
    pure (record { online = online; has_callback = false; policy = policy; owner = owner })

  -- `ClaimQueued` with no limit: what is open, in order, and claimed from now on.
  unfoldable pub claim : String → ℕ → Method (List QueuedBlob)
  claim owner timeout = do
    claimed ← gets (λ w. claimable (env.now w.calls) timeout 0 w.device.queue)
    now ← gets (λ w. env.now w.calls)
    statement env Service.claim_queued (on_queue (Queue.claim_queued owner now timeout 0))
    pure claimed

  -- A release that fails too is joined to the error; the first error stands for both.
  pub release_after : List ℕ → Result Error Flush × World Device → Result Error Flush × World Device
  release_after ids (ok flushed, w) = (ok flushed, w)
  release_after ids (err e, w) = (
    err e,
    (statement env (Service.release_queued ids) (on_queue (Queue.release_queued ids)) w).1,
  )

  unfoldable pub put_or_release : List QueuedBlob → Method Flush
  unfolding release_after
  put_or_release claimed w = release_after (ids_of claimed) (put_batch env (blobs_of claimed) w)

  unfoldable pub notify : Bool → List ℕ → Method (Unit {0})
  notify true ids = act env (of_flush ids)
  notify false ids = pure tt

  unfoldable pub flush_claimed : Packer → Reason → List QueuedBlob → Method (Option Delivery)
  flush_claimed p reason [] = pure none
  flush_claimed p reason claimed = do
    flushed ← put_or_release claimed
    notify p.has_callback (ids_of claimed)
    statement env (Service.drop_queued (ids_of claimed))
        (on_queue (Queue.drop_queued (ids_of claimed)))
    refresh
    pure (some (record { reason = reason; records = claimed; flush = flushed }))

  unfoldable pub flush : Packer → Reason → Method (Option Delivery)
  flush p reason =
      if p.online
      then (do claimed ← claim p.owner (claim_timeout_of p.policy); flush_claimed p reason claimed)
      else fail offline

  unfoldable pub flush_due : Packer → Option Reason → Method (Option Delivery)
  flush_due p none = pure none
  flush_due p (some reason) = if p.online then flush p reason else pure none

  -- A record with no time of its own is queued at the time of the call.
  unfoldable pub add : Packer → ℕ → String → Blob → Option ℕ → Method (Option Delivery)
  add p id kind blob since = do
    at ← gets (λ w. elim since [ none ↦ env.now w.calls | some t ↦ t ])
    statement env (insert_queued id) (on_queue (enqueue id kind blob.cid blob.payload at))
    modify (λ w. record w {
      device = record w.device { state = tally (length blob.payload) at w.device.state };
    })
    reason ← gets (λ w. due p.policy w.device.state (env.now w.calls))
    flush_due p reason
