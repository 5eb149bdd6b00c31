-- ===== src/HostPause.antt =====
-- harness/src/host-pause.ts: time in which the host was suspended. Wall clock readings are in
-- milliseconds (`Date.now()`), monotonic ones in microseconds (`performance.now()` has fractions).
pub mod Laws
use supabase_lab.Common.{
  ℕ, zero, suc, ◌+◌, ◌-◌, ◌*◌, ◌/◌, String, Option, none, some, Bool, List, [], or_else, truthy,
  ltb, set_key, show, ◌<>◌, if◌then◌else◌,
}
use supabase_lab.Types.{TestResult, num}

abbrev pub pause_slack_ms : ℕ
pause_slack_ms = 2000

-- `Math.round(us / 1000)`
abbrev pub round_ms : ℕ → ℕ
round_ms us = (us + 500) / 1000

unfoldable pub suspended_ms : (wall0 wall1 mono0 mono1 : ℕ) → ℕ
suspended_ms wall0 wall1 mono0 mono1 =
    if ltb (1000 * pause_slack_ms + (1000 * wall0 + mono1)) (1000 * wall1 + mono0)
    then round_ms (1000 * wall1 + mono0 - (1000 * wall0 + mono1))
    else 0

unfoldable pub suspension_note : ℕ → String
unfolding show
suspension_note s =
    "host suspended " <> show s <> " s during this test: timings that span it are not measurements"

unfoldable pub note_detail : Option String → String → String
note_detail detail note = if truthy detail then or_else detail "" <> " (" <> note <> ")" else note

unfoldable pub with_host_suspension : TestResult → ℕ → TestResult
unfolding note_detail set_key
with_host_suspension r zero = r
with_host_suspension r (suc ms) =
    let s = round_ms (suc ms) in
    record r {
      detail = some (note_detail r.detail (suspension_note s));
      measurements = some (set_key "host_suspended_s" (num s) (or_else r.measurements []));
    }
