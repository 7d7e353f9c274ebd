-- ===== src/Local/Queue.antt =====
-- local/queue.go: the table `queue`, one function for each statement on it. Times are in
-- milliseconds.
pub mod Members
use mnemosia.Prelude.{
  ℕ, ◌+◌, ltb, leb, min, max, nat_eq, Bool, true, false, ◌||◌, List, [], ◌∷◌, ◌++◌, Option, none,
  some, String, ◌==◌, number_keys, contains, length, take, if◌then◌else◌,
}
use mnemosia.Packer.Cadence.{QueueState}

pub record QueuedBlob : Type 0 where
  pub id : ℕ
  pub kind : String
  pub cid : String
  pub payload : List ℕ
  pub queued_at : ℕ
  pub seq : ℕ
  pub claim : Option (ℕ × String)

abbrev pub QueueRows : Type 0
QueueRows = List QueuedBlob

unfoldable pub ids_of : QueueRows → List ℕ
ids_of [] = []
ids_of (q ∷ rest) = q.id ∷ ids_of rest

-- `COALESCE(MAX(seq), 0)`
unfoldable pub last_seq : QueueRows → ℕ
last_seq [] = 0
last_seq (q ∷ rest) = max q.seq (last_seq rest)

-- The conflicting row keeps its kind, its place and its claim.
unfoldable pub upsert : QueuedBlob → QueueRows → QueueRows
upsert blob [] = blob ∷ []
upsert blob (q ∷ rest) =
    let others = upsert blob rest in
    if q.id == blob.id
    then record q { payload = blob.payload; cid = blob.cid; queued_at = blob.queued_at } ∷ rest
    else q ∷ others

unfoldable pub enqueue : ℕ → String → String → List ℕ → ℕ → QueueRows → QueueRows
enqueue id kind cid payload queued_at queue =
    upsert
      (record {
        id = id;
        kind = kind;
        cid = cid;
        payload = payload;
        queued_at = queued_at;
        seq = last_seq queue + 1;
        claim = none;
      })
      queue

bound : (ℕ → ℕ → ℕ) → ℕ → Option ℕ → Option ℕ
bound f t none = some t
bound f t (some u) = some (f t u)

unfoldable pub queue_state : QueueRows → QueueState
unfolding bound
queue_state [] = record { records = 0; bytes = 0; oldest = none; newest = none }
queue_state (q ∷ rest) =
    let others = queue_state rest in
    record {
      records = others.records + 1;
      bytes = length q.payload + others.bytes;
      oldest = bound min q.queued_at others.oldest;
      newest = bound max q.queued_at others.newest;
    }

-- No grace at all where `stale_after` is 0.
unfoldable pub is_open : ℕ → ℕ → Option (ℕ × String) → Bool
is_open now stale_after none = true
is_open now stale_after (some (at, by)) = nat_eq stale_after 0 || ltb (at + stale_after) now

unfoldable pub insert_by_seq : QueuedBlob → QueueRows → QueueRows
insert_by_seq q [] = q ∷ []
insert_by_seq q (r ∷ rest) =
    let later = insert_by_seq q rest in if leb q.seq r.seq then q ∷ r ∷ rest else r ∷ later

-- The rows that may be taken, in order of arrival.
unfoldable pub open_rows : ℕ → ℕ → QueueRows → QueueRows
open_rows now stale_after [] = []
open_rows now stale_after (q ∷ rest) =
    let others = open_rows now stale_after rest in
    if is_open now stale_after q.claim then insert_by_seq q others else others

-- A limit of 0 is no limit.
unfoldable pub claimable : ℕ → ℕ → ℕ → QueueRows → QueueRows
claimable now stale_after limit queue =
    let rows = open_rows now stale_after queue in if nat_eq limit 0 then rows else take limit rows

unfoldable pub set_claims : Option (ℕ × String) → List ℕ → QueueRows → QueueRows
set_claims claim ids [] = []
set_claims claim ids (q ∷ rest) =
    (if contains ids q.id then record q { claim = claim } else q) ∷ set_claims claim ids rest

-- `ClaimQueued`'s statement
unfoldable pub claim_queued : String → ℕ → ℕ → ℕ → QueueRows → QueueRows
claim_queued owner now stale_after limit queue =
    set_claims (some (now, owner)) (ids_of (claimable now stale_after limit queue)) queue

unfoldable pub release_queued : List ℕ → QueueRows → QueueRows
release_queued ids queue = set_claims none ids queue

unfoldable pub drop_queued : List ℕ → QueueRows → QueueRows
drop_queued ids [] = []
drop_queued ids (q ∷ rest) =
    let kept = drop_queued ids rest in if contains ids q.id then kept else q ∷ kept
