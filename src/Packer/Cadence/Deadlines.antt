-- ===== src/Packer/Cadence/Deadlines.antt =====
-- When a queue is due, and how late a deadline may be noticed.
use mnemosia.Prelude.{
  ℕ, ◌+◌, ◌*◌, ◌≤◌, ◌<◌, ◌≡◌, ◌≢◌, ◌⊎◌, refl, sym, subst, min, max, ◌/◌, if◌then◌else◌, nat_eq,
  Bool-cases, inl, inr, ◌↔◌, ltb, leb, ◌&&◌, Bool, true, false, true, Option, none, some, arith,
}
use mnemosia.Packer.Cadence.{Policy, QueueState, elapsed, due, shortest, tick}

-- A positive bound or deadline of the policy is reached.
pub data Reached (p : Policy) (s : QueueState) (now : ℕ) : Type 0 where
  by_records : 0 < p.max_records → p.max_records ≤ s.records → Reached p s now
  by_bytes : 0 < p.max_bytes → p.max_bytes ≤ s.bytes → Reached p s now
  by_age : (t : ℕ) → 0 < p.max_age → s.oldest ≡ some t → t + p.max_age ≤ now → Reached p s now
  by_idle :
      (t : ℕ) → 0 < p.idle_after → s.newest ≡ some t → t + p.idle_after ≤ now → Reached p s now

elapsed_since :
    (since : Option ℕ) (t now d : ℕ) → since ≡ some t → t + d ≤ now → elapsed since now d ≡ true
unfolding elapsed
elapsed_since since t now d h k = ground (arith, h)

due_at_bound :
    (p : Policy) (s : QueueState) (now : ℕ) → 0 < s.records → Reached p s now → due p s now ≢ none
unfolding due
due_at_bound p s now r (by_records h k) = ground arith
due_at_bound p s now r (by_bytes h k) = ground arith
due_at_bound p s now r (by_age t h e k) = ground (arith, elapsed_since s.oldest t now p.max_age e k)
due_at_bound p s now r (by_idle t h e k) =
    ground (arith, elapsed_since s.newest t now p.idle_after e k)

timed :
    (since : Option ℕ) (now d : ℕ)
    → elapsed since now d ≡ true
    → (t : ℕ) × (since ≡ some t) × t + d ≤ now
unfolding elapsed
timed none now d h = ground arith
timed (some t) now d h = (t, refl, ground arith)

bound_of_due :
    (p : Policy) (s : QueueState) (now : ℕ) (by_count by_size old quiet : Bool)
    → (ltb 0 p.max_records && leb p.max_records s.records) ≡ by_count
    → (ltb 0 p.max_bytes && leb p.max_bytes s.bytes) ≡ by_size
    → (ltb 0 p.max_age && elapsed s.oldest now p.max_age) ≡ old
    → (ltb 0 p.idle_after && elapsed s.newest now p.idle_after) ≡ quiet
    → due p s now ≢ none
    → Reached p s now
unfolding due
bound_of_due p s now true by_size old quiet a b c d h = by_records (ground arith) (ground arith)
bound_of_due p s now false true old quiet a b c d h = by_bytes (ground arith) (ground arith)
bound_of_due p s now false false true quiet a b c d h =
    let (t, e, k) = timed s.oldest now p.max_age (ground arith) in by_age t (ground arith) e k
bound_of_due p s now false false false true a b c d h =
    let (t, e, k) = timed s.newest now p.idle_after (ground arith) in by_idle t (ground arith) e k
bound_of_due p s now false false false false a b c d h = elim (h (ground (arith, a, b, c, d))) [ ]

waiting_if_due : (p : Policy) (s : QueueState) (now : ℕ) → due p s now ≢ none → 0 < s.records
unfolding due
waiting_if_due p s now h = elim (Bool-cases (nat_eq s.records 0)) [
  | inl e ↦ elim (h (ground (arith, e))) [ ]
  | inr e ↦ ground (arith, e)
]

-- A queue is due exactly when it is not empty and a positive bound or deadline of the policy is
-- reached.
pub due-Reached :
    (p : Policy) (s : QueueState) (now : ℕ)
    → (due p s now ≢ none) ↔ ((0 < s.records) × Reached p s now)
due-Reached p s now = (
  λ h. (waiting_if_due p s now h, bound_of_due p s now _ _ _ _ refl refl refl refl h),
  λ (r, k). due_at_bound p s now r k,
)

-- A deadline that is not set is 0; the soonest of those that are, and 0 where none is.
abbrev pub soonest : Policy → ℕ
soonest p =
    if nat_eq p.idle_after 0
    then p.max_age
    else if nat_eq p.max_age 0
    then p.idle_after
    else min p.idle_after p.max_age

shortest-soonest : (p : Policy) → shortest p ≡ soonest p
unfolding shortest
shortest-soonest p = ground arith

abbrev Paced : ℕ → ℕ → Type 0
Paced d t = (1000 ≤ t) × (t ≤ 60000) × ((d < 10000) ⊎ (10 * t ≤ d)) × ((0 < d) ⊎ (t ≡ 60000))

Paced-tenth : (d : ℕ) → Paced d (if nat_eq d 0 then 60000 else min (max (d / 10) 1000) 60000)
Paced-tenth d = elim (Bool-cases (nat_eq d 0)) [
  | inl none_set ↦ rw none_set (omega arith, omega arith, ground (arith, none_set), inr refl)
  | inr set ↦ rw set (omega arith, omega arith, omega arith, ground (arith, set))
]

-- The deadlines are looked at every second to every minute, and at least ten times before the
-- sooner of those that are set, unless that is less than ten seconds; if none is set, every minute.
pub tick-bounds :
    (p : Policy)
    → (1000 ≤ tick p)
      × (tick p ≤ 60000)
      × ((soonest p < 10000) ⊎ (10 * tick p ≤ soonest p))
      × ((0 < soonest p) ⊎ (tick p ≡ 60000))
unfolding tick
tick-bounds p =
    subst (λ d. Paced (soonest p) (if nat_eq d 0 then 60000 else min (max (d / 10) 1000) 60000))
      (sym (shortest-soonest p)) (Paced-tenth (soonest p))
