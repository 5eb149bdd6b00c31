-- ===== src/Run/Totality.antt =====
-- One round of the run loop, and the run of all planned modules.
use mathlib.Core.Option.{some-injective}
use mathlib.Core.List.{append_assoc, append-nil}
use supabase_lab.Common.{
  sym, ap, ◌≡◌, refl, ◌∙◌, Option, none, some, false, List, [], ◌∷◌, ◌++◌, arith, All, Option-cases,
  inl, inr,
}
use supabase_lab.Types.{TestResult, TestModule}
use supabase_lab.Settle.{Outcome, DrainWatch, settle_module}
use supabase_lab.Settle.Laws.{CanEnd, settle_module-total, settle_module-watch}
use supabase_lab.Run.{
  Returned, Execution, RunState, outcome_results, outcome_unsettled, record_outcome, run_module,
  run_all,
}

-- no module is pending
abbrev pub idle : DrainWatch
idle = record { wake = false }

-- `o` is how the run of the module ends
abbrev pub EndsWith : TestModule → Execution → Outcome Returned → Type 0
EndsWith m x o = (settle_module x.work idle m.timeout_ms).0 ≡ some o

abbrev pub after_outcome : TestModule → Execution → Outcome Returned → RunState → RunState
after_outcome m x o st = record {
  results = st.results ++ outcome_results m x o;
  unsettled = st.unsettled ++ outcome_unsettled m o;
  watch = idle;
}

record_outcome_lem :
    (m : TestModule) (x : Execution) (r : Option (Outcome Returned) × DrainWatch) (st : RunState)
    (o : Outcome Returned)
    → r.0 ≡ some o
    → r.1 ≡ idle
    → record_outcome m x r st ≡ some (after_outcome m x o st)
unfolding record_outcome
record_outcome_lem m x (none, w) st o e k = cc
record_outcome_lem m x (some o', w) st o e k = ground arith

record_outcome-lost :
    (m : TestModule) (x : Execution) (r : Option (Outcome Returned) × DrainWatch) (st : RunState)
    → r.0 ≡ none
    → record_outcome m x r st ≡ none
unfolding record_outcome
record_outcome-lost m x (none, w) st e = refl
record_outcome-lost m x (some o', w) st e = cc e

run_module_lem :
    (m : TestModule) (x : Execution) (st : RunState) (o : Outcome Returned)
    → st.watch ≡ idle
    → EndsWith m x o
    → run_module m x st ≡ some (after_outcome m x o st)
unfolding run_module
run_module_lem m x st o h ends = simp h (
    record_outcome_lem m x (settle_module x.work idle m.timeout_ms) st o ends
      (settle_module-watch x.work idle m.timeout_ms refl))

run_module-lost :
    (m : TestModule) (x : Execution) (st : RunState)
    → st.watch ≡ idle
    → (settle_module x.work idle m.timeout_ms).0 ≡ none
    → run_module m x st ≡ none
unfolding run_module
run_module-lost m x st h lost =
    simp h (record_outcome-lost m x (settle_module x.work idle m.timeout_ms) st lost)

-- a run that ends goes through the outcome of its first module
pub run_all-first :
    (m : TestModule) (x : Execution) (more : List (TestModule × Execution)) (st st' : RunState)
    → st.watch ≡ idle
    → run_all ((m, x) ∷ more) st ≡ some st'
    → (o : Outcome Returned) × EndsWith m x o × (run_all more (after_outcome m x o st) ≡ some st')
unfolding run_all
run_all-first m x more st st' h e = elim (Option-cases (settle_module x.work idle m.timeout_ms).0) [
  | inl lost ↦ let dead = run_module-lost m x st h lost in let k = rw dead at e in cc k
  | inr (o, ends) ↦ let step = run_module_lem m x st o h ends in (o, ends, rw step at e)
]

-- the module has a positive `timeoutMs`, or leaves no handle open for ever
abbrev pub CanFinish : TestModule × Execution → Type 0
CanFinish (m, x) = CanEnd m.timeout_ms x.work

pub run_all-total :
    (runs : List (TestModule × Execution)) (st : RunState)
    → st.watch ≡ idle
    → All CanFinish runs
    → (st' : RunState) × (run_all runs st ≡ some st')
      × (st'.watch ≡ idle)
      × ((added : List TestResult) × (st'.results ≡ st.results ++ added))
unfolding run_all
run_all-total [] st h can = (st, refl, h, ([], rw append-nil))
run_all-total ((m, x) ∷ more) st h can =
    let (o, ends) = settle_module-total x.work idle m.timeout_ms can.0 in
    let step = run_module_lem m x st o h ends in
    let (st', done, idle', (added, same)) =
      run_all-total more (after_outcome m x o st) refl can.1 in
    (
      st',
      rw step done,
      idle',
      (
        outcome_results m x o ++ added,
        same ∙ append_assoc st.results (outcome_results m x o) added,
      ),
    )

-- What was recorded stays in front of what a run adds.
pub run_all-keeps :
    (runs : List (TestModule × Execution)) (st st' : RunState)
    → st.watch ≡ idle
    → run_all runs st ≡ some st'
    → (added : List TestResult) × (st'.results ≡ st.results ++ added)
unfolding run_all
run_all-keeps [] st st' h e =
    ([], ap (λ (s : RunState). s.results) (some-injective st' st (sym e)) ∙ (rw append-nil))
run_all-keeps ((m, x) ∷ more) st st' h e =
    let (o, ends, rest) = run_all-first m x more st st' h e in
    let (added, same) = run_all-keeps more (after_outcome m x o st) st' refl rest in
    (outcome_results m x o ++ added, same ∙ append_assoc st.results (outcome_results m x o) added)
