-- ===== src/Examples/Running.antt =====
-- harness/src/settle.ts, host-pause.ts and the loop of run.ts on three modules: one returns, one
-- throws, one drops its promise.
use supabase_lab.Common.{
  ℕ, ◌+◌, ◌≡◌, refl, ◌↔◌, ◌≢◌, inr, String, Option, none, some, List, [], ◌∷◌, ◌++◌, All, map,
  or_else,
}
use supabase_lab.Types.{TestModule, TestResult, num, local, pass}
use supabase_lab.Settle.{
  Outcome, resolves, deadline, unrelated, Work, throws, promises, error_object,
}
use supabase_lab.Run.{Returned, single, Execution, RunState, initial, run_all, exit_code}
use supabase_lab.Run.Totality.{idle, EndsWith, CanFinish, run_all-total}
use supabase_lab.Run.Account.{Records, IsHung, run_all-Records, exit_code-run_all}

abbrev plain : String → TestModule
plain id = record {
  id = id;
  title = "a module";
  vantage = local;
  requires = none;
  destructive = none;
  experiment = none;
  timeout_ms = none;
}

abbrev passed : TestResult
passed = record {
  id = "A01";
  title = "a module";
  status = pass;
  detail = none;
  measurements = some (("ms", num 7) ∷ []);
  evidence = none;
  duration_ms = none;
}

abbrev doing : Work Returned → Execution
doing work = record {
  work = work;
  wall0 = 0;
  wall1 = 70000;
  mono0 = 0;
  mono1 = 5000000;
  mono_at = λ k. 5000400 + k;
}

abbrev runs : List (TestModule × Execution)
runs =
    (plain "A01", doing (promises (unrelated ∷ resolves (single passed) ∷ [])))
    ∷ (plain "B02", doing (throws (error_object "no route")))
    ∷ (plain "C03", doing (promises (deadline ∷ unrelated ∷ [])))
    ∷ []

final : Option RunState
unfolding run_all initial
final = run_all runs (initial [])

statuses : Option RunState → List (String × ℕ)
unfolding exit_code
statuses none = []
statuses (some st) =
    map (λ r. (r.id, or_else r.duration_ms 0)) st.results ++ ("exit", exit_code st) ∷ []

three_results : statuses final ≡ ("A01", 5000) ∷ ("B02", 5000) ∷ ("C03", 5000) ∷ ("exit", 2) ∷ []
unfolding statuses final
three_results = refl

all_finish : All CanFinish runs
all_finish = (inr (tt, (tt, tt)), (tt, (inr (tt, (tt, tt)), tt)))

abbrev end_state : RunState
end_state =
    (run_all-total runs (record { results = []; unsettled = []; watch = idle }) refl all_finish).0

run_all-Records_example :
    All (λ (m, x). (o : Outcome Returned) × EndsWith m x o × Records end_state.results m o) runs
run_all-Records_example =
    run_all-Records runs (record { results = []; unsettled = []; watch = idle }) end_state refl
      (run_all-total runs (record { results = []; unsettled = []; watch = idle }) refl all_finish).1

exit_code-run_all_example :
    ((exit_code end_state ≡ 0) ↔ All (λ (m, x). ¬ IsHung m x) runs)
    × (exit_code end_state ≢ 0 → exit_code end_state ≡ 2)
unfolding initial
exit_code-run_all_example =
    exit_code-run_all runs [] end_state
      (run_all-total runs (record { results = []; unsettled = []; watch = idle }) refl all_finish).1
