-- ===== src/Run/Account.antt =====
-- What the artifact says of each module, and the exit code.
use supabase_lab.Common.{
  ℕ, zero, suc, ◌≡◌, refl, ap, ◌↔◌, ◌⊎◌, ◌≢◌, inl, inr, String, some, List, [], ◌∷◌, ◌++◌, Memᴰ,
  arith, All,
}
use mathlib.Core.List.Memᴰ
use mathlib.Core.List.{append-nil}
use supabase_lab.Types.{TestResult, TestModule, fail}
use supabase_lab.HostPause.{with_host_suspension}
use supabase_lab.Settle.{Outcome, settled, threw, drained, timeout}
use supabase_lab.Run.{
  Returned, Execution, RunState, suspended, stamp, as_list, failed_result, outcome_results,
  outcome_unsettled, stamp_all, run_all, initial, exit_code,
}
use supabase_lab.Run.Totality.{idle, EndsWith, after_outcome, run_all-first, run_all-keeps}

-- The results hold what the module returned, or one failure under its id if it did not return.
abbrev pub Records : List TestResult → TestModule → Outcome Returned → Type 0
Records rs m (settled value) =
    (raw : TestResult)
    → Memᴰ raw (as_list value)
    → (r : TestResult) × Memᴰ r rs
      × (r.id ≡ raw.id)
      × (r.title ≡ raw.title)
      × (r.status ≡ raw.status)
Records rs m _ = (r : TestResult) × Memᴰ r rs × (r.id ≡ m.id) × (r.status ≡ fail)

stamp_keeps :
    (x : Execution) (k : ℕ) (raw : TestResult)
    → ((stamp x k raw).id ≡ raw.id)
      × ((stamp x k raw).title ≡ raw.title)
      × ((stamp x k raw).status ≡ raw.status)
unfolding stamp with_host_suspension
stamp_keeps x k raw =
    elim (suspended x)
      as (λ ms.
        ((with_host_suspension raw ms).id ≡ raw.id)
        × ((with_host_suspension raw ms).title ≡ raw.title)
        × ((with_host_suspension raw ms).status ≡ raw.status)) [
          | zero ↦ (refl, refl, refl)
          | suc ms ↦ (refl, refl, refl)
        ]

mem-stamp_all :
    (x : Execution) (k : ℕ) (raws : List TestResult) (raw : TestResult)
    → Memᴰ raw raws
    → (j : ℕ) × Memᴰ (stamp x j raw) (stamp_all x k raws)
unfolding stamp_all
mem-stamp_all x k [] raw m = elim m [ ]
mem-stamp_all x k (r ∷ rs) raw (Memᴰ.head e) = (k, Memᴰ.head (ap (stamp x k) e))
mem-stamp_all x k (r ∷ rs) raw (Memᴰ.tail m) =
    let (j, found) = mem-stamp_all x (suc k) rs raw m in (j, Memᴰ.tail found)

Records-outcome_results :
    (m : TestModule) (x : Execution) (o : Outcome Returned) → Records (outcome_results m x o) m o
unfolding outcome_results failed_result
Records-outcome_results m x (settled value) = λ raw listed.
    let (j, found) = mem-stamp_all x 0 (as_list value) raw listed in
    let (id, title, status) = stamp_keeps x j raw in (stamp x j raw, found, id, title, status)
Records-outcome_results m x (threw e) =
    let (id, title, status) = stamp_keeps x 0 (failed_result m _) in
    (stamp x 0 _, Memᴰ.head refl, id, status)
Records-outcome_results m x drained =
    let (id, title, status) = stamp_keeps x 0 (failed_result m _) in
    (stamp x 0 _, Memᴰ.head refl, id, status)
Records-outcome_results m x (timeout ms) =
    let (id, title, status) = stamp_keeps x 0 (failed_result m _) in
    (stamp x 0 _, Memᴰ.head refl, id, status)

Records-mono :
    {rs rs' : List TestResult} (m : TestModule) (o : Outcome Returned)
    → ((r : TestResult) → Memᴰ r rs → Memᴰ r rs')
    → Records rs m o
    → Records rs' m o
Records-mono m (settled value) h k = λ raw listed.
    let (r, found, id, title, status) = k raw listed in (r, h r found, id, title, status)
Records-mono m (threw e) h (r, found, id, status) = (r, h r found, id, status)
Records-mono m drained h (r, found, id, status) = (r, h r found, id, status)
Records-mono m (timeout ms) h (r, found, id, status) = (r, h r found, id, status)

-- Every module of the run is accounted for in the final results: each result that it returned is
-- there under its id and title with its status, and a module that threw, drained or timed out is
-- there as one failure under its own id.
pub run_all-Records :
    (runs : List (TestModule × Execution)) (st st' : RunState)
    → st.watch ≡ idle
    → run_all runs st ≡ some st'
    → All (λ (m, x). (o : Outcome Returned) × EndsWith m x o × Records st'.results m o) runs
unfolding run_all
run_all-Records [] st st' h e = tt
run_all-Records ((m, x) ∷ more) st st' h e =
    let (o, ends, rest) = run_all-first m x more st st' h e in
    let (added, same) = run_all-keeps more (after_outcome m x o st) st' refl rest in
    (
      (
        o,
        ends,
        Records-mono m o
            (λ r found. rw same (Memᴰ.append_left added (Memᴰ.append_right st.results found)))
            (Records-outcome_results m x o),
      ),
      run_all-Records more (after_outcome m x o st) st' refl rest,
    )

-- The module neither returned nor threw: its promise was dropped, or its deadline passed.
abbrev pub IsHung : TestModule → Execution → Type 0
IsHung m x = EndsWith m x drained ⊎ ((ms : ℕ) × EndsWith m x (timeout ms))

unsettled-nil :
    (m : TestModule) (x : Execution) (o : Outcome Returned) (ids : List String)
    → EndsWith m x o
    → (ids ++ outcome_unsettled m o ≡ []) ↔ ((ids ≡ []) × ¬ IsHung m x)
unfolding outcome_unsettled
unsettled-nil m x (settled value) ids e =
    rw (append-nil ids)
      (λ h. (h, λ hung. elim hung [ inl d ↦ cc (e, d) | inr (ms, d) ↦ cc (e, d) ]), λ (h, _). h)
unsettled-nil m x (threw t) ids e =
    rw (append-nil ids)
      (λ h. (h, λ hung. elim hung [ inl d ↦ cc (e, d) | inr (ms, d) ↦ cc (e, d) ]), λ (h, _). h)
unsettled-nil m x drained [] e = (λ h. cc, λ (_, calm). absurd (calm (inl e)))
unsettled-nil m x drained (i ∷ ids) e = (λ h. cc, λ (h, _). cc)
unsettled-nil m x (timeout ms) [] e = (λ h. cc, λ (_, calm). absurd (calm (inr (ms, e))))
unsettled-nil m x (timeout ms) (i ∷ ids) e = (λ h. cc, λ (h, _). cc)

run_all-unsettled :
    (runs : List (TestModule × Execution)) (st st' : RunState)
    → st.watch ≡ idle
    → run_all runs st ≡ some st'
    → (st'.unsettled ≡ []) ↔ ((st.unsettled ≡ []) × All (λ (m, x). ¬ IsHung m x) runs)
unfolding run_all
run_all-unsettled [] st st' h e =
    let same : st ≡ st' = cc in rw (← same) (λ k. (k, tt), λ (k, _). k)
run_all-unsettled ((m, x) ∷ more) st st' h e =
    let (o, ends, rest) = run_all-first m x more st st' h e in
    let (to, from) = run_all-unsettled more (after_outcome m x o st) st' refl rest in
    let (head_to, head_from) = unsettled-nil m x o st.unsettled ends in
    (
      λ k. let (a, b) = to k in let (c, d) = head_to a in (c, (d, b)),
      λ (c, (d, b)). from (head_from (c, d), b),
    )

exit_code-nil : (st : RunState) → (exit_code st ≡ 0) ↔ (st.unsettled ≡ [])
unfolding exit_code
exit_code-nil st = ground arith

exit_code-two : (st : RunState) → exit_code st ≢ 0 → exit_code st ≡ 2
unfolding exit_code
exit_code-two st = ground arith

-- A run that produced an artifact exits 0 exactly when every module settled or threw, whatever
-- the results say, and exits 2 otherwise.
pub exit_code-run_all :
    (runs : List (TestModule × Execution)) (skipped : List TestResult) (st' : RunState)
    → run_all runs (initial skipped) ≡ some st'
    → ((exit_code st' ≡ 0) ↔ All (λ (m, x). ¬ IsHung m x) runs)
      × (exit_code st' ≢ 0 → exit_code st' ≡ 2)
unfolding initial
exit_code-run_all runs skipped st' e =
    let (to, from) = run_all-unsettled runs (initial skipped) st' refl e in
    (
      (λ h. (to ((exit_code-nil st').0 h)).1, λ h. (exit_code-nil st').1 (from (refl, h))),
      exit_code-two st',
    )
