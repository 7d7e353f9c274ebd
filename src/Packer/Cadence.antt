-- ===== src/Packer/Cadence.antt =====
-- store/packer/policy.go: when a queue becomes a flush. Times and durations are in milliseconds, a
-- duration that is not positive is 0, and a time that is not set is `none`.
pub mod Deadlines
use mnemosia.Prelude.{
  ℕ, ◌-◌, ◌/◌, ◌*◌, ◌≤◌, ltb, leb, min, max, nat_eq, Bool, true, false, ◌&&◌, ◌||◌, not, Option,
  none, some, arith, if◌then◌else◌, ◌≡◌, refl,
}

pub record Policy : Type 0 where
  pub idle_after : ℕ
  pub max_age : ℕ
  pub max_bytes : ℕ
  pub max_records : ℕ
  pub claim_timeout : ℕ

abbrev second : ℕ
second = 1000

abbrev minute : ℕ
minute = 60000

abbrev pub default_claim_timeout : ℕ
default_claim_timeout = 10 * 60000

unfoldable pub default_policy : ℕ → Policy
default_policy slab_bytes = record {
  idle_after = 5 * minute;
  max_age = 60 * minute;
  max_bytes = slab_bytes;
  max_records = 100000;
  claim_timeout = default_claim_timeout;
}

unfoldable pub immediate : ℕ → Policy
immediate slab_bytes = record {
  idle_after = 0;
  max_age = 0;
  max_bytes = slab_bytes;
  max_records = 1;
  claim_timeout = default_claim_timeout;
}

pub data Reason : Type 0 where
  idle age bytes records manual : Reason

-- `local.QueueState`
pub record QueueState : Type 0 where
  pub records : ℕ
  pub bytes : ℕ
  pub oldest : Option ℕ
  pub newest : Option ℕ

-- `!t.IsZero() && now.Sub(t) >= d`, where a time after now is a negative difference.
unfoldable pub elapsed : Option ℕ → ℕ → ℕ → Bool
elapsed none now d = false
elapsed (some t) now d = leb t now && leb d (now - t)

unfoldable pub due : Policy → QueueState → ℕ → Option Reason
due p state now =
    if nat_eq state.records 0
    then none
    else if ltb 0 p.max_records && leb p.max_records state.records
    then some records
    else if ltb 0 p.max_bytes && leb p.max_bytes state.bytes
    then some bytes
    else if ltb 0 p.max_age && elapsed state.oldest now p.max_age
    then some age
    else if ltb 0 p.idle_after && elapsed state.newest now p.idle_after
    then some idle
    else none

unfoldable pub claim_timeout_of : Policy → ℕ
claim_timeout_of p = if ltb 0 p.claim_timeout then p.claim_timeout else default_claim_timeout

unfoldable pub shortest : Policy → ℕ
shortest p =
    if nat_eq p.idle_after 0 || (ltb 0 p.max_age && ltb p.max_age p.idle_after)
    then p.max_age
    else p.idle_after

unfoldable pub tick : Policy → ℕ
tick p = if nat_eq (shortest p) 0 then minute else min (max (shortest p / 10) second) minute
