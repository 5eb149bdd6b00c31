-- ===== src/Plan/Loop.antt =====
-- The loop of `planRun`, as two filters of the module list.
use supabase_lab.Common.{
  ◌↔◌, String, ◌≡◌, refl, ap, ◌∙◌, Bool, true, false, List, [], ◌∷◌, ◌++◌, map, filter, Perm, arith,
  ◌⊎◌, inl, inr,
}
use mathlib.Core.List.{append_assoc, append-nil, perm_middle}
use mathlib.Core.List.Perm
use supabase_lab.Types.{TestModule, TestResult, Capability}
use supabase_lab.Plan.{
  PlanOptions, Plan, Verdict, missing_capabilities, dropped, runs, skips, judge, judge_missing,
  is_selected, skip_result, plan_loop,
}

kept_as : Verdict → TestModule → List TestModule → List TestModule
kept_as runs m rest = m ∷ rest
kept_as _ m rest = rest

refused_as : Verdict → TestModule → List TestResult → List TestResult
refused_as (skips why) m rest = skip_result m why ∷ rest
refused_as _ m rest = rest

-- the modules that run and the results that are pre-computed, in the order of the list
pub kept : PlanOptions → List TestModule → List TestModule
unfolding kept_as
kept opts [] = []
kept opts (m ∷ ms) = kept_as (judge opts m) m (kept opts ms)

pub refused : PlanOptions → List TestModule → List TestResult
unfolding refused_as
refused opts [] = []
refused opts (m ∷ ms) = refused_as (judge opts m) m (refused opts ms)

Verdict-cases : (v : Verdict) → (v ≡ dropped) ⊎ ((v ≡ runs) ⊎ ((why : String) × (v ≡ skips why)))
Verdict-cases dropped = inl refl
Verdict-cases runs = inr (inl refl)
Verdict-cases (skips why) = inr (inr (why, refl))

pub plan_loop_lem :
    (opts : PlanOptions) (ms : List TestModule) (p : Plan)
    → plan_loop opts ms p
      ≡ record { run = p.run ++ kept opts ms; skipped = p.skipped ++ refused opts ms }
unfolding plan_loop kept refused
plan_loop_lem opts [] p = rw (append-nil p.run, append-nil p.skipped)
plan_loop_lem opts (m ∷ ms) p = elim (Verdict-cases (judge opts m)) [
  | inl e ↦ rw e (plan_loop_lem opts ms p)
  | inr (inl e) ↦ rw e (plan_loop_lem opts ms _ ∙ rw append_assoc)
  | inr (inr (why, e)) ↦ rw e (plan_loop_lem opts ms _ ∙ rw append_assoc)
]

pub is_reported : Verdict → Bool
is_reported dropped = false
is_reported _ = true

pub judge_missing-is_reported :
    (opts : PlanOptions) (m : TestModule) (cs : List Capability)
    → is_reported (judge_missing opts m cs) ≡ true
unfolding judge_missing is_reported
judge_missing-is_reported opts m [] = ground arith
judge_missing-is_reported opts m (c ∷ cs) = refl

pub judge-is_reported :
    (opts : PlanOptions) (m : TestModule) → is_selected opts m ≡ is_reported (judge opts m)
unfolding judge is_reported
judge-is_reported opts m =
    ground (arith, judge_missing-is_reported opts m (missing_capabilities m opts.capabilities))

-- Each selected module is in exactly one of the two, as often as in the list.
pub kept-refused-perm :
    (opts : PlanOptions) (ms : List TestModule)
    → Perm
        (map (λ m. m.id) (kept opts ms) ++ map (λ r. r.id) (refused opts ms))
        (map (λ m. m.id) (filter (is_selected opts) ms))
unfolding kept refused is_reported skip_result
kept-refused-perm opts [] = Perm.nil
kept-refused-perm opts (m ∷ ms) = elim (Verdict-cases (judge opts m)) [
  | inl e ↦ rw (judge-is_reported opts m) (rw e (kept-refused-perm opts ms))
  | inr (inl e) ↦ rw (judge-is_reported opts m) (rw e (Perm.cons m.id (kept-refused-perm opts ms)))
  | inr (inr (why, e)) ↦ rw (judge-is_reported opts m) (
      rw e (
        Perm.trans
          (perm_middle (map (λ m. m.id) (kept opts ms)) (map (λ r. r.id) (refused opts ms)))
          (Perm.cons m.id (kept-refused-perm opts ms))))
]

unfoldable pub is_runs : Verdict → Bool
is_runs runs = true
is_runs _ = false

pub is_runs_iff : (v : Verdict) → (is_runs v ≡ true) ↔ (v ≡ runs)
unfolding is_runs
is_runs_iff v = ground arith

pub kept-eq-filter :
    (opts : PlanOptions) (ms : List TestModule)
    → kept opts ms ≡ filter (λ m. is_runs (judge opts m)) ms
unfolding kept is_runs
kept-eq-filter opts [] = refl
kept-eq-filter opts (m ∷ ms) = elim (Verdict-cases (judge opts m)) [
  | inl e ↦ rw e (kept-eq-filter opts ms)
  | inr (inl e) ↦ rw e (ap (◌∷◌ m) (kept-eq-filter opts ms))
  | inr (inr (why, e)) ↦ rw e (kept-eq-filter opts ms)
]
