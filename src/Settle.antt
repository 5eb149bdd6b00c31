-- ===== src/Settle.antt =====
-- harness/src/settle.ts: how one module's promise ends. The event loop is the list of events that
-- it delivers while the race is open. At its end nothing is pending, the loop drains, and
-- "beforeExit" fires; but after `stays_open` a handle is open for ever, and only a timer can end it.
pub mod Laws
use supabase_lab.Common.{
  ℕ, zero, suc, String, Option, none, some, Bool, true, false, List, [], ◌∷◌, if◌then◌else◌, show,
  ◌<>◌,
}

-- `throw`n values: an `Error` with its message, or anything else with its `String(e)`
pub data Thrown : Type 0 where
  error_object other_value : String → Thrown

pub data Outcome (T : Type 0) : Type 0 where
  settled : T → Outcome T
  threw : Thrown → Outcome T
  drained : Outcome T
  timeout : ℕ → Outcome T

-- `deadline`: the timer of `timeoutMs` is due; `unrelated`: anything that another handle delivers;
-- `stays_open`: from here on a handle keeps the loop alive and delivers nothing more to the module
pub data Event (T : Type 0) : Type 0 where
  resolves : T → Event T
  rejects : Thrown → Event T
  deadline : Event T
  unrelated : Event T
  stays_open : Event T

-- `work()` throws, returns a plain value, or a promise
pub data Work (T : Type 0) : Type 0 where
  throws : Thrown → Work T
  returns : T → Work T
  promises : List (Event T) → Work T

-- `wake` is set while a module is pending
pub record DrainWatch : Type 0 where
  pub wake : Bool

unfoldable pub arm : DrainWatch → DrainWatch
arm w = record w { wake = true }

unfoldable pub disarm : DrainWatch → DrainWatch
disarm w = record w { wake = false }

-- The "beforeExit" listener: whether a pending module is woken. If none is, the process ends.
unfoldable pub on_drain : DrainWatch → DrainWatch × Bool
on_drain w = (record w { wake = false }, w.wake)

-- `timeoutMs && timeoutMs > 0`
unfoldable pub timer_of : Option ℕ → Option ℕ
timer_of none = none
timer_of (some zero) = none
timer_of (some (suc ms)) = some (suc ms)

module _ {T : Type 0} where
  unfoldable pub on_deadline : Option ℕ → Option (Outcome T) → Option (Outcome T)
  on_deadline none later = later
  on_deadline (some ms) later = some (timeout ms)

  -- `Promise.race`; `none` is a caller that is never resumed, in a process that exits or that a
  -- handle keeps alive for ever
  unfoldable pub race : Option ℕ → DrainWatch → List (Event T) → Option (Outcome T)
  unfolding on_deadline on_drain
  race timer w [] = if (on_drain w).1 then some drained else none
  race timer w (resolves v ∷ es) = some (settled v)
  race timer w (rejects e ∷ es) = some (threw e)
  race timer w (deadline ∷ es) = on_deadline timer (race timer w es)
  race timer w (unrelated ∷ es) = race timer w es
  race timer w (stays_open ∷ es) = on_deadline timer none

  unfoldable pub settle_module : Work T → DrainWatch → Option ℕ → Option (Outcome T) × DrainWatch
  unfolding race arm disarm timer_of
  settle_module (throws e) watch timeout_ms = (some (threw e), watch)
  settle_module (returns v) watch timeout_ms =
      (race (timer_of timeout_ms) (arm watch) (resolves v ∷ []), disarm (arm watch))
  settle_module (promises es) watch timeout_ms =
      (race (timer_of timeout_ms) (arm watch) es, disarm (arm watch))

unfoldable pub drained_detail : String
drained_detail =
    "module promise never settled: the event loop drained with nothing pending, so nothing could resolve it"

unfoldable pub timeout_detail : ℕ → String
unfolding show
timeout_detail ms =
    "module did not settle within its timeoutMs (" <> show ms <> " ms) and was abandoned"
