-- ===== src/Sampler.antt =====
-- harness/src/sampler.ts: probes of several paths sampled while an operation runs. Times are
-- milliseconds of the wall clock after the start of sampling.
pub mod Invariant
pub mod Trace
pub mod Recovery
pub mod Completeness
pub mod Windows
use Prim.Native.String
use Prim.Native.Nat.{min, max}
use supabase_lab.Common.{
  take_text, ℕ, zero, suc, ◌+◌, ◌-◌, String, Option, none, some, Bool, true, false, not, ◌&&◌, ◌||◌,
  List, [], ◌∷◌, ◌++◌, map, some_of, every, includes, str_eq, or_else, leb, ltb, if◌then◌else◌,
  show, ◌<>◌,
}
use supabase_lab.HostPause.{pause_slack_ms}
use supabase_lab.Settle.{Thrown, error_object, other_value}

pub record ProbeOutcome : Type 0 where
  pub succeeded : Bool
  pub error : Option String

pub record PathWindow : Type 0 where
  pub name : String
  pub healthy_at_start : Bool
  pub samples : ℕ
  pub failures : ℕ
  pub first_fail_ms : Option ℕ
  pub recovered_ms : Option ℕ
  pub window_ms : Option ℕ
  pub modes : List String
  pub paused_ms : ℕ

pub record SampleOptions : Type 0 where
  pub interval_ms : ℕ
  pub max_wait_ms : ℕ
  pub settle_ms : ℕ
  pub sample_deadline_ms : Option ℕ

pub record PathState : Type 0 where
  pub name : String
  pub healthy_at_start : Option Bool
  pub samples : ℕ
  pub failures : ℕ
  pub first_fail_ms : Option ℕ
  pub pending_recovery_ms : Option ℕ
  pub recovered_ms : Option ℕ
  pub modes : List String
  pub down : Bool

pub record Pause : Type 0 where
  pub from_ms : ℕ
  pub to_ms : ℕ

-- What one `probe.run()` does before its deadline: resolves, rejects, or neither.
pub data Reply : Type 0 where
  answered : ProbeOutcome → Reply
  rejected : Thrown → Reply
  unanswered : Reply

thrown_text : Thrown → String
thrown_text (error_object message) = message
thrown_text (other_value shown) = shown

deadline_error : ℕ → String
unfolding show
deadline_error ms = "probe did not answer within " <> show ms <> " ms"

-- `withDeadline`, and the `catch` around it
unfoldable pub outcome_of : SampleOptions → Reply → ProbeOutcome
unfolding thrown_text deadline_error
outcome_of opts (answered outcome) = outcome
outcome_of opts (rejected e) = record { succeeded = false; error = some (thrown_text e) }
outcome_of opts unanswered = record {
  succeeded = false;
  error = some (deadline_error (or_else opts.sample_deadline_ms 30000));
}

unfoldable pub mode_of : ProbeOutcome → String
unfolding take_text
mode_of outcome = take_text 80 (or_else outcome.error "unknown")

unfoldable pub add_mode : String → List String → List String
add_mode mode modes = if includes str_eq mode modes then modes else modes ++ mode ∷ []

unfoldable pub count_sample : ProbeOutcome → PathState → PathState
count_sample outcome s = record s {
  samples = s.samples + 1;
  healthy_at_start = some (or_else s.healthy_at_start outcome.succeeded);
}

unfoldable pub on_failure : ℕ → ProbeOutcome → PathState → PathState
unfolding add_mode
on_failure at outcome s = record s {
  failures = s.failures + 1;
  down = true;
  pending_recovery_ms = none;
  first_fail_ms = some (or_else s.first_fail_ms at);
  modes = add_mode (mode_of outcome) s.modes;
}

-- a success while a recovery is awaited: the candidate, if any, is believed once it has settled
unfoldable pub on_recovery : ℕ → ℕ → Option ℕ → PathState → PathState
on_recovery settle at none s = record s { down = false; pending_recovery_ms = some at }
on_recovery settle at (some since) s =
    if leb (since + settle) at
    then record s { down = false; recovered_ms = some since }
    else record s { down = false }

unfoldable pub on_success : ℕ → ℕ → Option ℕ → Option ℕ → PathState → PathState
unfolding on_recovery
on_success settle at none recovered s = s
on_success settle at (some failed) (some recovered) s = record s { down = false }
on_success settle at (some failed) none s = on_recovery settle at s.pending_recovery_ms s

-- one round of a path's loop
unfoldable pub sample : ℕ → ℕ × ProbeOutcome → PathState → PathState
unfolding count_sample on_failure on_success
sample settle (at, outcome) s =
    let t = count_sample outcome s in
    if outcome.succeeded
    then on_success settle at t.first_fail_ms t.recovered_ms t
    else on_failure at outcome t

unfoldable pub start : String → PathState
start name = record {
  name = name;
  healthy_at_start = none;
  samples = 0;
  failures = 0;
  first_fail_ms = none;
  pending_recovery_ms = none;
  recovered_ms = none;
  modes = [];
  down = false;
}

unfoldable pub sample_all : ℕ → List (ℕ × ProbeOutcome) → PathState → PathState
unfolding sample
sample_all settle [] s = s
sample_all settle (x ∷ xs) s = sample_all settle xs (sample settle x s)

-- the rounds that a path's loop makes before `maxWaitMs` ends it
unfoldable pub in_time : SampleOptions → List (ℕ × Reply) → List (ℕ × ProbeOutcome)
unfolding outcome_of
in_time opts [] = []
in_time opts ((at, reply) ∷ rest) =
    let later = in_time opts rest in
    if ltb at opts.max_wait_ms then (at, outcome_of opts reply) ∷ later else []

unfoldable pub path_loop : SampleOptions → String → List (ℕ × Reply) → PathState
unfolding sample_all in_time start
path_loop opts name replies = sample_all opts.settle_ms (in_time opts replies) (start name)

-- the watchdog: a wake-up that is late by more than the slack is a pause
unfoldable pub watch : SampleOptions → ℕ → List ℕ → List Pause
watch opts last [] = []
watch opts last (wall ∷ walls) =
    let later = watch opts wall walls in
    if ltb (last + opts.interval_ms + pause_slack_ms) wall
    then record { from_ms = last; to_ms = wall } ∷ later
    else later

unfoldable pub overlap : Pause → ℕ → ℕ → ℕ
overlap p from to = min p.to_ms to - max p.from_ms from

unfoldable pub overlaps : List Pause → ℕ → ℕ → ℕ
unfolding overlap
overlaps [] from to = 0
overlaps (p ∷ ps) from to = overlap p from to + overlaps ps from to

unfoldable pub window_of : Option ℕ → Option ℕ → Option ℕ
window_of (some failed) (some recovered) = some (recovered - failed)
window_of _ _ = none

unfoldable pub finalise : PathState → List Pause → ℕ → PathWindow
unfolding overlaps window_of
finalise s pauses end_ms = record {
  name = s.name;
  healthy_at_start = or_else s.healthy_at_start false;
  samples = s.samples;
  failures = s.failures;
  first_fail_ms = s.first_fail_ms;
  recovered_ms = s.recovered_ms;
  window_ms = window_of s.first_fail_ms s.recovered_ms;
  modes = s.modes;
  paused_ms = overlaps pauses 0 (or_else s.recovered_ms end_ms);
}

unfoldable pub has_failed : PathState → Bool
has_failed s = elim s.first_fail_ms [ none ↦ false | some _ ↦ true ]

unfoldable pub has_recovered : PathState → Bool
has_recovered s = elim s.recovered_ms [ none ↦ false | some _ ↦ true ]

unfoldable pub all_settled : List PathState → Bool
unfolding has_failed has_recovered
all_settled states = every (λ s. not (has_failed s) || has_recovered s) states

-- the watchdog's early exit
unfoldable pub may_stop : List PathState → Bool
unfolding all_settled
may_stop states = some_of has_failed states && all_settled states
