-- ===== src/Run.antt =====
-- harness/src/run.ts, the loop of `main` over the planned modules. What a module does, and the
-- clock readings around it, are given as an `Execution`.
pub mod Totality
pub mod Account
use supabase_lab.Common.{
  ℕ, zero, suc, ◌+◌, ◌-◌, ◌/◌, String, Option, none, some, Bool, true, false, List, [], ◌∷◌, ◌++◌,
  map, if◌then◌else◌, ◌<>◌,
}
use supabase_lab.Types.{TestResult, TestModule, fail, skip, pass, status_eq}
use supabase_lab.HostPause.{round_ms, suspended_ms, with_host_suspension}
use supabase_lab.Settle.{
  Thrown, error_object, other_value, Outcome, settled, threw, drained, timeout, Work, DrainWatch,
  settle_module, drained_detail, timeout_detail,
}

-- `TestResult | TestResult[]`
pub data Returned : Type 0 where
  single : TestResult → Returned
  several : List TestResult → Returned

pub record Execution : Type 0 where
  pub work : Work Returned
  pub wall0 : ℕ
  pub wall1 : ℕ
  pub mono0 : ℕ
  pub mono1 : ℕ
  -- the reading of the monotonic clock when the k-th result is stamped
  pub mono_at : ℕ → ℕ

pub record RunState : Type 0 where
  pub results : List TestResult
  pub unsettled : List String
  pub watch : DrainWatch

unfoldable pub message_of : Thrown → String
message_of (error_object message) = message
message_of (other_value shown) = shown

unfoldable pub as_list : Returned → List TestResult
as_list (single r) = r ∷ []
as_list (several rs) = rs

unfoldable pub suspended : Execution → ℕ
unfolding suspended_ms
suspended x = suspended_ms x.wall0 x.wall1 x.mono0 x.mono1

-- one result as the loop records it: stamped, with its duration
unfoldable pub stamp : Execution → ℕ → TestResult → TestResult
unfolding suspended with_host_suspension
stamp x k raw = record (with_host_suspension raw (suspended x)) {
  duration_ms = some (round_ms (x.mono_at k - x.mono0));
}

unfoldable pub stamp_all : Execution → ℕ → List TestResult → List TestResult
unfolding stamp
stamp_all x k [] = []
stamp_all x k (raw ∷ raws) = stamp x k raw ∷ stamp_all x (suc k) raws

unfoldable pub failed_result : TestModule → String → TestResult
failed_result m detail = record {
  id = m.id;
  title = m.title;
  status = fail;
  detail = some detail;
  measurements = none;
  evidence = none;
  duration_ms = none;
}

unfoldable pub outcome_results : TestModule → Execution → Outcome Returned → List TestResult
unfolding as_list stamp_all stamp failed_result message_of drained_detail timeout_detail
outcome_results m x (settled value) = stamp_all x 0 (as_list value)
outcome_results m x (threw e) = stamp x 0 (failed_result m ("test threw: " <> message_of e)) ∷ []
outcome_results m x drained = stamp x 0 (failed_result m drained_detail) ∷ []
outcome_results m x (timeout ms) = stamp x 0 (failed_result m (timeout_detail ms)) ∷ []

unfoldable pub outcome_unsettled : TestModule → Outcome Returned → List String
outcome_unsettled m (settled value) = []
outcome_unsettled m (threw e) = []
outcome_unsettled m drained = m.id ∷ []
outcome_unsettled m (timeout ms) = m.id ∷ []

unfoldable pub record_outcome :
    TestModule → Execution → Option (Outcome Returned) × DrainWatch → RunState → Option RunState
unfolding outcome_results outcome_unsettled
record_outcome m x (none, watch) st = none
record_outcome m x (some outcome, watch) st = some (record {
  results = st.results ++ outcome_results m x outcome;
  unsettled = st.unsettled ++ outcome_unsettled m outcome;
  watch = watch;
})

-- one round of the loop; `none` if it is never left
unfoldable pub run_module : TestModule → Execution → RunState → Option RunState
unfolding record_outcome settle_module
run_module m x st = record_outcome m x (settle_module x.work st.watch m.timeout_ms) st

infixl 5 ◌>>=◌
abbrev ◌>>=◌ {ℓ κ} : {A : Type ℓ} {B : Type κ} → Option A → (A → Option B) → Option B
none >>= k = none
some a >>= k = k a

unfoldable pub run_all : List (TestModule × Execution) → RunState → Option RunState
unfolding run_module
run_all [] st = some st
run_all ((m, x) ∷ more) st = do st' ← run_module m x st; run_all more st'

-- `results = [...skipped]`, nothing unsettled, no module pending
unfoldable pub initial : List TestResult → RunState
initial skipped = record { results = skipped; unsettled = []; watch = record { wake = false } }

-- A measured failure is data and exits 0; a module that never settled exits 2.
unfoldable pub exit_code : RunState → ℕ
exit_code st = elim st.unsettled [ [] ↦ 0 | _ ∷ _ ↦ 2 ]
