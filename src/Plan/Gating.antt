-- ===== src/Plan/Gating.antt =====
-- Which modules a plan runs, and that it reports every selected one.
use mathlib.Core.List.{Mem}
use mathlib.Core.List.Perm
use mathlib.Core.Logic.{∥∥₁_elim, ∥∥₁_map, ∥∥₁_prop}
use mathlib.Core.HLevel.{×_prop}
use supabase_lab.Common.{
  ◌≡◌, ap, ◌↔◌, true, false, not, List, [], ◌∷◌, ◌++◌, map, filter, Memᴰ, Perm, arith, or_else,
  includes, sort-perm, of_mem-filter, mem-filter, filter-eq-nil, not-mem-filter-nil,
  mem_of_includes, includes_of_mem,
}
use supabase_lab.Types.{TestModule, Capability, capability_eq, capability_eq_iff, where_eq_iff}
use supabase_lab.Plan.{
  Collation, PlanOptions, runs, judge, judge_missing, missing_capabilities, is_selected,
  is_destructive, module_le, result_le, plan_run,
}
use supabase_lab.Plan.Loop.{
  kept, refused, plan_loop_lem, kept-refused-perm, is_runs_iff, kept-eq-filter,
}

pub plan_run-run :
    (c : Collation) (ms : List TestModule) (opts : PlanOptions)
    → Perm (plan_run c ms opts).run (kept opts ms)
unfolding plan_run
plan_run-run c ms opts =
    rw (plan_loop_lem opts ms (record { run = []; skipped = [] }))
      (sort-perm (module_le c) (kept opts ms))

pub plan_run-skipped :
    (c : Collation) (ms : List TestModule) (opts : PlanOptions)
    → Perm (plan_run c ms opts).skipped (refused opts ms)
unfolding plan_run
plan_run-skipped c ms opts =
    rw (plan_loop_lem opts ms (record { run = []; skipped = [] }))
      (sort-perm (result_le c) (refused opts ms))

-- Every module that the `--only` and `--experiment` filters select is either run or reported as
-- skipped, exactly once, and nothing else is: by id, the two lists of the plan together are a
-- permutation of the selected modules.
pub plan_run-perm_selected :
    (c : Collation) (ms : List TestModule) (opts : PlanOptions)
    → Perm
        (map (λ m. m.id) (plan_run c ms opts).run ++ map (λ r. r.id) (plan_run c ms opts).skipped)
        (map (λ m. m.id) (filter (is_selected opts) ms))
plan_run-perm_selected c ms opts =
    Perm.trans
      (Perm.append (Perm.map _ (plan_run-run c ms opts)) (Perm.map _ (plan_run-skipped c ms opts)))
      (kept-refused-perm opts ms)

-- What lets a module run, without the order of the tests in the loop.
pub record IsEligible (opts : PlanOptions) (m : TestModule) : Type 0 where
  pub selected : is_selected opts m ≡ true
  pub at_vantage : m.vantage ≡ opts.vantage
  pub capable : (c : Capability) → Mem c (or_else m.requires []) → Mem c opts.capabilities
  pub permitted : is_destructive m ≡ true → or_else opts.allow_destructive false ≡ true

nothing_missing :
    (opts : PlanOptions) (m : TestModule)
    → missing_capabilities m opts.capabilities ≡ []
    → (c : Capability) → Memᴰ c (or_else m.requires [])
    → Memᴰ c opts.capabilities
unfolding missing_capabilities
nothing_missing opts m e c h = mem_of_includes capability_eq capability_eq_iff c opts.capabilities (
    ground
      (arith, not-mem-filter-nil (λ k. not (includes capability_eq k opts.capabilities)) _ c e h))

missing-eq-nil :
    (opts : PlanOptions) (m : TestModule)
    → ((c : Capability) → Mem c (or_else m.requires []) → Mem c opts.capabilities)
    → missing_capabilities m opts.capabilities ≡ []
unfolding missing_capabilities
missing-eq-nil opts m h =
    filter-eq-nil (λ k. not (includes capability_eq k opts.capabilities)) _
      λ a listed. ap not (
        ∥∥₁_elim (h a ∣ listed ∣₁) (hlevel)
          (includes_of_mem capability_eq capability_eq_iff a opts.capabilities))

judge_missing-runs :
    (opts : PlanOptions) (m : TestModule) (cs : List Capability)
    → (judge_missing opts m cs ≡ runs)
      ↔ ((cs ≡ []) × (is_destructive m ≡ true → or_else opts.allow_destructive false ≡ true))
unfolding judge_missing
judge_missing-runs opts m [] = ground arith
judge_missing-runs opts m (c ∷ cs) = ground arith

judge-runs :
    (opts : PlanOptions) (m : TestModule)
    → (judge opts m ≡ runs) ↔ (
        (is_selected opts m ≡ true)
        × (m.vantage ≡ opts.vantage)
        × (judge_missing opts m (missing_capabilities m opts.capabilities) ≡ runs))
unfolding judge
judge-runs opts m = ground (arith, where_eq_iff m.vantage opts.vantage)

judge-runs_iff : (opts : PlanOptions) (m : TestModule) → (judge opts m ≡ runs) ↔ IsEligible opts m
judge-runs_iff opts m = (
  λ e.
      let (selected, here, rest) = (judge-runs opts m).0 e in
      let (nothing, permitted) = (judge_missing-runs opts m _).0 rest in
      record {
        selected = selected;
        at_vantage = here;
        capable = λ c required. ∥∥₁_map required (nothing_missing opts m nothing c);
        permitted = permitted;
      },
  λ h. (judge-runs opts m).1 (
    h.selected,
    h.at_vantage,
    (judge_missing-runs opts m _).1 (missing-eq-nil opts m h.capable, h.permitted),
  ),
)

IsEligible-prop : (opts : PlanOptions) (m : TestModule) → IsProp (IsEligible opts m)
IsEligible-prop opts m = hlevel

mem-kept_iff :
    (opts : PlanOptions) (ms : List TestModule) (m : TestModule)
    → Mem m (kept opts ms) ↔ (Mem m ms × IsEligible opts m)
mem-kept_iff opts ms m = rw (kept-eq-filter opts ms) (
  λ h. ∥∥₁_elim h (×_prop ∥∥₁_prop (IsEligible-prop opts m)) λ found.
      let (listed, run) = of_mem-filter _ m ms found in
      (∣ listed ∣₁, (judge-runs_iff opts m).0 ((is_runs_iff _).0 run)),
  λ (h, eligible).
      ∥∥₁_map h
        λ listed. mem-filter _ m ms listed ((is_runs_iff _).1 ((judge-runs_iff opts m).1 eligible)),
)

-- A plan runs exactly the listed modules that are eligible: selected by the filters, at the
-- vantage of this process, with every required capability present, and destructive only when
-- destructive modules are allowed.
pub mem-plan_run_iff :
    (c : Collation) (ms : List TestModule) (opts : PlanOptions) (m : TestModule)
    → Mem m (plan_run c ms opts).run ↔ (Mem m ms × IsEligible opts m)
mem-plan_run_iff c ms opts m = (
  λ h. (mem-kept_iff opts ms m).0 ((Perm.mem_iff (plan_run-run c ms opts)).0 h),
  λ h. (Perm.mem_iff (plan_run-run c ms opts)).1 ((mem-kept_iff opts ms m).1 h),
)
