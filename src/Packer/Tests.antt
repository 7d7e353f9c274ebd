-- ===== src/Packer/Tests.antt =====
-- Runs of store/packer and local/queue.go, and their theorems at them.
use mnemosia.Prelude.{
  ◌<◌, ◌↔◌, ◌*◌, ◌≤◌, ◌≡◌, ◌≢◌, ◌⊎◌, refl, true, false, [], ◌∷◌, none, some, number_keys,
  string_keys, contains, arith,
}
use mnemosia.Prelude.Exec.{ok, err}
use mnemosia.Service.{Env, failed, begin, select_queue, statement}
use mnemosia.Local.Queue.{QueueRows, ids_of, queue_state}
use mnemosia.Local.Queue.Members.{drops, execute, queued_after, contains-execute}
use mnemosia.Packer.Cadence.{Policy, default_policy, manual, due, tick}
use mnemosia.Packer.Cadence.Deadlines.{Reached, by_age, due-Reached, soonest, tick-bounds}
use mnemosia.Packer.{Device, Packer, new_packer, on_flush, refresh, flush}
use mnemosia.Packer.Waiting.{Safe, flush-IsSafe}
use mnemosia.Packer.Timer.{
  Open, starts, stops, cancels, ticks, adds, flushes, start, stop, happen, happen_all,
}
use mnemosia.Packer.Timer.Lasting.{added-IsSafe}

abbrev two_rows : QueueRows
two_rows =
    record {
      id = 4;
      kind = "chunk";
      cid = "x";
      payload = 1 ∷ 2 ∷ [];
      queued_at = 10;
      seq = 1;
      claim = none;
    }
    ∷ record {
      id = 5;
      kind = "chunk";
      cid = "y";
      payload = 3 ∷ [];
      queued_at = 20;
      seq = 2;
      claim = none;
    }
    ∷ []

-- No call fails, and two payloads make two objects on slab "s".
abbrev env : Env
env = record {
  on_account = λ calls. err (failed 1);
  on_walk = λ calls. ok [];
  on_pinned_slabs = λ calls. ok [];
  on_download = λ calls ref. err (failed 1);
  on_finalize = λ calls payloads. ok ((1, "s" ∷ []) ∷ (2, "s" ∷ []) ∷ []);
  on_act = λ calls c. none;
  now = λ calls. 100;
}

abbrev device : Device
device = record {
  queue = two_rows;
  state = record { records = 2; bytes = 3; oldest = some 10; newest = some 20 };
}

abbrev packer : Packer
packer = record { online = true; has_callback = true; policy = default_policy 100; owner = "me" }

queued : contains (ids_of two_rows) 4 ≡ true
unfolding contains ids_of
queued = refl

still_queued : Safe env 4 0 (flush env packer manual (begin device)).1
still_queued = flush-IsSafe env packer manual device 4 refl queued

contains-execute_example :
    contains (ids_of (execute (drops (4 ∷ [])) two_rows)) 5
    ≡ queued_after (drops (4 ∷ [])) 5 (contains (ids_of two_rows) 5)
contains-execute_example = contains-execute (drops (4 ∷ [])) two_rows 5

hourly : Policy
hourly = default_policy 100

reached : Reached hourly device.state 3600010
unfolding hourly default_policy
reached = by_age 10 (omega arith) refl (omega arith)

due-Reached_example :
    (due hourly device.state 3600010 ≢ none)
    ↔ ((0 < device.state.records) × Reached hourly device.state 3600010)
due-Reached_example = due-Reached hourly device.state 3600010

is_due : due hourly device.state 3600010 ≢ none
is_due = (due-Reached hourly device.state 3600010).1 (omega arith, reached)

tick-bounds_example :
    (1000 ≤ tick hourly)
    × (tick hourly ≤ 60000)
    × ((soonest hourly < 10000) ⊎ (10 * tick hourly ≤ soonest hourly))
    × ((0 < soonest hourly) ⊎ (tick hourly ≡ 60000))
tick-bounds_example = tick-bounds hourly

-- A vault that is open, with its ticker.
abbrev quiet : Open
quiet = record { world = begin device; started = true; alive = true; reported = [] }

-- After the context has ended the ticker does not start again, until `Stop` is called.
start_again : (happen_all env packer (cancels ∷ starts ∷ []) quiet).alive ≡ false
unfolding happen_all happen start
start_again = refl

stopped_and_started : (happen_all env packer (cancels ∷ stops ∷ starts ∷ []) quiet).alive ≡ true
unfolding happen_all happen start stop
stopped_and_started = refl

added-IsSafe_example :
    Safe env 6 0
      (happen_all env packer
        (adds 6 "chunk" (record { cid = "z"; payload = 9 ∷ [] }) none
          ∷ ticks 3600200
          ∷ stops
          ∷ flushes
          ∷ [])
        quiet).world
added-IsSafe_example =
    added-IsSafe env packer 6 "chunk" (record { cid = "z"; payload = 9 ∷ [] }) none quiet
      (ticks 3600200 ∷ stops ∷ flushes ∷ []) refl refl

-- A packer that is built over a queue has its tally, and is told nothing until a callback is set.
built :
    new_packer env true (default_policy 100) (ok "me") (
      begin
        (record device { state = record { records = 0; bytes = 0; oldest = none; newest = none } }))
    ≡ (
      ok (record packer { has_callback = false }),
      record { device = device; calls = select_queue ∷ [] },
    )
unfolding new_packer refresh queue_state statement
built = refl

callback_set : on_flush (record packer { has_callback = false }) ≡ packer
unfolding on_flush
callback_set = refl
