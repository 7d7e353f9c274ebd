-- ===== src/Local/Queue/Members.antt =====
-- Which records the statements on the queue leave in it.
use mnemosia.Prelude.{
  ℕ, ◌≡◌, refl, Bool, ◌||◌, ◌&&◌, not, List, [], ◌∷◌, Option, none, String, nat_eq_iff, number_keys,
  ◌==◌, contains, arith,
}
use mnemosia.Local.Queue.{
  QueuedBlob, QueueRows, ids_of, upsert, enqueue, set_claims, claim_queued, release_queued,
  drop_queued,
}

-- The statements on the table, but for the one that reads it.
pub data Statement : Type 0 where
  enqueues : ℕ → String → String → List ℕ → ℕ → Statement
  claims : String → ℕ → ℕ → ℕ → Statement
  releases drops : List ℕ → Statement

unfoldable pub execute : Statement → QueueRows → QueueRows
execute (enqueues id kind cid payload at) queue = enqueue id kind cid payload at queue
execute (claims owner now stale_after limit) queue = claim_queued owner now stale_after limit queue
execute (releases ids) queue = release_queued ids queue
execute (drops ids) queue = drop_queued ids queue

-- Whether the record is queued after the statement, by whether it was.
unfoldable pub queued_after : Statement → ℕ → Bool → Bool
queued_after (enqueues id kind cid payload at) k was = id == k || was
queued_after (claims owner now stale_after limit) k was = was
queued_after (releases ids) k was = was
queued_after (drops ids) k was = was && not (contains ids k)

contains-upsert :
    (blob : QueuedBlob) (queue : QueueRows) (k : ℕ)
    → contains (ids_of (upsert blob queue)) k ≡ (blob.id == k || contains (ids_of queue) k)
unfolding upsert ids_of contains
contains-upsert blob [] k = refl
contains-upsert blob (q ∷ queue) k = ground (
  arith,
  contains-upsert blob queue k,
  nat_eq_iff q.id blob.id,
  nat_eq_iff q.id k,
  nat_eq_iff blob.id k,
)

contains-set_claims :
    (claim : Option (ℕ × String)) (ids : List ℕ) (queue : QueueRows) (k : ℕ)
    → contains (ids_of (set_claims claim ids queue)) k ≡ contains (ids_of queue) k
unfolding set_claims ids_of contains
contains-set_claims claim ids [] k = refl
contains-set_claims claim ids (q ∷ queue) k = ground (arith, contains-set_claims claim ids queue k)

contains-drop_queued :
    (ids : List ℕ) (queue : QueueRows) (k : ℕ)
    → contains (ids_of (drop_queued ids queue)) k
      ≡ (contains (ids_of queue) k && not (contains ids k))
unfolding drop_queued ids_of contains
contains-drop_queued ids [] k = refl
contains-drop_queued ids (q ∷ queue) k =
    ground (arith, contains-drop_queued ids queue k, nat_eq_iff q.id k)

-- After a statement a record is queued exactly if the statement enqueued it, or it was queued
-- before and the statement did not drop it: claims and releases leave every record.
pub contains-execute :
    (s : Statement) (queue : QueueRows) (k : ℕ)
    → contains (ids_of (execute s queue)) k ≡ queued_after s k (contains (ids_of queue) k)
unfolding execute queued_after enqueue claim_queued release_queued
contains-execute (enqueues id kind cid payload at) queue k = contains-upsert _ queue k
contains-execute (claims owner now stale_after limit) queue k = contains-set_claims _ _ queue k
contains-execute (releases ids) queue k = contains-set_claims none ids queue k
contains-execute (drops ids) queue k = contains-drop_queued ids queue k
