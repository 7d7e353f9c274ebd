-- ===== src/Packer/Timer/Lasting.antt =====
-- What becomes of a record that was added, whatever happens later.
use mnemosia.Prelude.{
  ℕ, ◌≡◌, ◌≤◌, sym, subst, inl, Bool, true, false, ◌||◌, List, [], ◌∷◌, Option, none, some, String,
  length, number_keys, contains, nat_eq, arith, if◌then◌else◌,
}
use mnemosia.Prelude.Exec.{
  Result, ok, err, gets, modify, ◌>>=◌, ◌>>◌, continue, Keeps, Keeps-then, Keeps-pure, Keeps-if,
}
use mnemosia.Store.{Blob}
use mnemosia.Service.{Error, World, Env, insert_queued, statement}
use mnemosia.Service.Keeps.{Keeps-statement, statement-done}
use mnemosia.Local.Queue.{QueueRows, ids_of, enqueue}
use mnemosia.Local.Queue.Members.{enqueues, contains-execute, execute, queued_after}
use mnemosia.Packer.{
  Device, Packer, Delivery, Method, on_queue, tally, due_now, flush, flush_due, add,
}
use mnemosia.Packer.Cadence.{Reason, due, manual}
use mnemosia.Packer.Waiting.{Safe, kept_call, flush-Safe}
use mnemosia.Packer.Timer.{
  Open, Event, starts, stops, cancels, flushes, adds, ticks, start, stop, after_call, after_flush,
  fire, happen, happen_all,
}

module _ (env : Env) (id n : ℕ) (p : Packer) (told : p.has_callback ≡ true) where
  queued-enqueue :
      (k : ℕ) (kind cid : String) (payload : List ℕ) (at : ℕ) (queue : QueueRows)
      → contains (ids_of (enqueue k kind cid payload at queue)) id
        ≡ (nat_eq k id || contains (ids_of queue) id)
  unfolding execute queued_after
  queued-enqueue k kind cid payload at queue =
      contains-execute (enqueues k kind cid payload at) queue id

  enqueue-Safe :
      (k : ℕ) (kind : String) (blob : Blob) (at : ℕ)
      → Keeps
          (Safe env id n)
          (statement env (insert_queued k) (on_queue (enqueue k kind blob.cid blob.payload at)))
  enqueue-Safe k kind blob at =
      Keeps-statement env (insert_queued k) (on_queue (enqueue k kind blob.cid blob.payload at))
        (λ w h. kept_call env id n (insert_queued k) w w.device (λ here. here) h)
        (λ w h.
          kept_call env id n (insert_queued k) w
            (on_queue (enqueue k kind blob.cid blob.payload at) w.device)
            (λ here.
              ground (arith, queued-enqueue k kind blob.cid blob.payload at w.device.queue, here))
            h)

  -- What `Add` does once the record is queued.
  settle : Blob → ℕ → Method (Option Delivery)
  settle blob at = do
    modify (λ w. record w {
      device = record w.device { state = tally (length blob.payload) at w.device.state };
    })
    reason ← gets (λ w. due p.policy w.device.state (env.now w.calls))
    flush_due env p reason

  flush_due-Safe : (reason : Option Reason) → Keeps (Safe env id n) (flush_due env p reason)
  unfolding flush_due
  flush_due-Safe none = Keeps-pure none
  flush_due-Safe (some reason) =
      Keeps-if p.online (flush-Safe env id n p reason told) (Keeps-pure none)

  settle-Safe : (blob : Blob) (at : ℕ) → Keeps (Safe env id n) (settle blob at)
  unfolding settle
  settle-Safe blob at = record {
    at = λ w h.
        (flush_due-Safe
            (due p.policy (tally (length blob.payload) at w.device.state) (env.now w.calls))).at
          _ (record { either = h.either; since = h.since });
  }

  add-Safe :
      (k : ℕ) (kind : String) (blob : Blob) (since : Option ℕ)
      → Keeps (Safe env id n) (add env p k kind blob since)
  unfolding add settle
  add-Safe k kind blob since = record {
    at = λ w h.
        let at : ℕ = elim since [ none ↦ env.now w.calls | some t ↦ t ] in
        (Keeps-then (enqueue-Safe k kind blob at) (settle-Safe blob at)).at w h;
  }

  -- A record that is added, where the statement that queues it succeeds.
  added-Safe :
      (kind : String) (blob : Blob) (since : Option ℕ) (w : World Device)
      → n ≤ length w.calls
      → env.on_act w.calls (insert_queued id) ≡ none
      → Safe env id n (add env p id kind blob since w).1
  unfolding add settle
  added-Safe kind blob since w before accepted =
      let at : ℕ = elim since [ none ↦ env.now w.calls | some t ↦ t ] in
      let queue : QueueRows → QueueRows = enqueue id kind blob.cid blob.payload at in
      let here : contains (ids_of (queue w.device.queue)) id ≡ true =
        ground (arith, queued-enqueue id kind blob.cid blob.payload at w.device.queue) in
      subst (λ r. Safe env id n (continue (λ _. settle blob at) r).1)
        (sym (statement-done env (insert_queued id) (on_queue queue) w accepted))
        ((settle-Safe blob at).at _ (record { either = inl here; since = omega (arith, before) }))

  after_flush-Safe :
      (o : Open) (x : Result Error (Option Delivery) × World Device)
      → Safe env id n x.1
      → Safe env id n (after_flush o x).world
  unfolding after_flush
  after_flush-Safe o (ok delivery, w) h = h
  after_flush-Safe o (err e, w) h = h

  after_call-Safe :
      (o : Open) (x : Result Error (Option Delivery) × World Device)
      → Safe env id n x.1
      → Safe env id n (after_call o x).world
  unfolding after_call
  after_call-Safe o (r, w) h = h

  fire-Safe :
      (reason : Option Reason) (o : Open)
      → Safe env id n o.world
      → Safe env id n (fire env p reason o).world
  unfolding fire
  fire-Safe none o h = h
  fire-Safe (some reason) o h =
      after_flush-Safe o (flush env p reason o.world)
        ((flush-Safe env id n p reason told).at o.world h)

  either_way :
      (b : Bool) (fired o : Open)
      → Safe env id n fired.world
      → Safe env id n o.world
      → Safe env id n (if b then fired else o).world
  either_way true fired o h k = h
  either_way false fired o h k = k

  start_world : (o : Open) → (start p o).world ≡ o.world
  unfolding start
  start_world o = ground arith

  happen-Safe :
      (e : Event) (o : Open) → Safe env id n o.world → Safe env id n (happen env p e o).world
  unfolding happen stop
  happen-Safe starts o h = subst (Safe env id n) (sym (start_world o)) h
  happen-Safe stops o h = h
  happen-Safe cancels o h = h
  happen-Safe flushes o h =
      after_call-Safe o (flush env p manual o.world)
        ((flush-Safe env id n p manual told).at o.world h)
  happen-Safe (adds k kind blob since) o h =
      after_call-Safe o (add env p k kind blob since o.world)
        ((add-Safe k kind blob since).at o.world h)
  happen-Safe (ticks now) o h =
      let reason = due_now p o.world.device now in
      either_way o.alive (fire env p reason o) o (fire-Safe reason o h) h

  happen_all-Safe :
      (events : List Event) (o : Open)
      → Safe env id n o.world
      → Safe env id n (happen_all env p events o).world
  unfolding happen_all
  happen_all-Safe [] o h = h
  happen_all-Safe (e ∷ events) o h = happen_all-Safe events (happen env p e o) (happen-Safe e o h)

-- A record that `Add` is given, where the statement that queues it succeeds and a callback is set, is
-- queued, or in that call or later the callback was told of a flush with this record and answered
-- with no error: whether `Add` returns or fails in its flush, and after any sequence of further
-- calls of `Add`, `Flush`, `Start` and `Stop`, of ticks of the ticker and of the end of its
-- context, whatever the services answer.
pub added-IsSafe :
    (env : Env) (p : Packer) (id : ℕ) (kind : String) (blob : Blob) (since : Option ℕ) (o : Open)
    (later : List Event)
    → p.has_callback ≡ true
    → env.on_act o.world.calls (insert_queued id) ≡ none
    → Safe env id
        (length o.world.calls)
        (happen_all env p (adds id kind blob since ∷ later) o).world
unfolding happen_all happen
added-IsSafe env p id kind blob since o later told accepted =
    let n = length o.world.calls in
    happen_all-Safe env id n p told later (happen env p (adds id kind blob since) o) (
      after_call-Safe env id n p told o (add env p id kind blob since o.world)
        (added-Safe env id n p told kind blob since o.world (omega arith) accepted))
