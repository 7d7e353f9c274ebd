-- ===== src/Packer/Timer.antt =====
-- store/packer/timer.go: a packer that is open, with its ticker. `Add`, `Flush` and what the ticker does
-- at a tick are one step each, though the program may run them side by side.
pub mod Lasting
use mnemosia.Prelude.{
  ℕ, Bool, true, false, not, ◌||◌, List, [], ◌∷◌, ◌++◌, Option, none, some, String, if◌then◌else◌,
}
use mnemosia.Prelude.Exec.{Result, ok, err}
use mnemosia.Store.{Blob}
use mnemosia.Service.{Error, World, Env}
use mnemosia.Packer.{Device, Packer, Delivery, Method, due_now, flush, add}
use mnemosia.Packer.Cadence.{Reason, manual}

-- `started` is whether `stop` is set, `alive` whether the goroutine still runs, and `reported` what
-- `onError` was told, the latest last.
pub record Open : Type 0 where
  pub world : World Device
  pub started : Bool
  pub alive : Bool
  pub reported : List Error

pub data Event : Type 0 where
  starts stops cancels flushes : Event
  adds : ℕ → String → Blob → Option ℕ → Event
  ticks : ℕ → Event

-- `Start`; after a cancelled context the ticker is still set, so it does nothing.
unfoldable pub start : Packer → Open → Open
start p o = if o.started || not p.online then o else record o { started = true; alive = true }

-- `Stop`
unfoldable pub stop : Open → Open
stop o = record o { started = false; alive = false }

unfoldable pub after_call : Open → Result Error (Option Delivery) × World Device → Open
after_call o (r, w) = record o { world = w }

unfoldable pub after_flush : Open → Result Error (Option Delivery) × World Device → Open
after_flush o (ok delivery, w) = record o { world = w }
after_flush o (err e, w) = record o { world = w; reported = o.reported ++ e ∷ [] }

module _ (env : Env) (p : Packer) where
  -- `Due`, and the flush where it is due.
  unfoldable pub fire : Option Reason → Open → Open
  fire none o = o
  fire (some reason) o = after_flush o (flush env p reason o.world)

  unfoldable pub happen : Event → Open → Open
  happen starts o = start p o
  happen stops o = stop o
  happen cancels o = record o { alive = false }
  happen flushes o = after_call o (flush env p manual o.world)
  happen (adds id kind blob since) o = after_call o (add env p id kind blob since o.world)
  happen (ticks now) o =
      let fired = fire (due_now p o.world.device now) o in if o.alive then fired else o

  unfoldable pub happen_all : List Event → Open → Open
  happen_all [] o = o
  happen_all (e ∷ events) o = happen_all events (happen e o)
