-- ===== src/Examples/Planning.antt =====
-- harness/src/plan.ts on a small registry.
use supabase_lab.Common.{
  ◌≡◌, refl, ◌↔◌, true, none, some, List, [], ◌∷◌, ◌++◌, map, filter, Perm, AllPairs, text_le,
  text_le-total, text_le_trans,
}
use mathlib.Core.List.{Mem}
use supabase_lab.Types.{TestModule, runner, local, pat, db, where_eq, capability_eq}
use supabase_lab.Plan.{Collation, PlanOptions, judge, missing_capabilities, is_selected, plan_run}
use supabase_lab.Plan.Gating.{IsEligible, plan_run-perm_selected, mem-plan_run_iff}
use supabase_lab.Plan.Order.{RunsBefore, plan_run-order}

abbrev by_code : Collation
by_code = record { le = text_le; total = text_le-total; trans = text_le_trans }

abbrev restart : TestModule
restart = record {
  id = "A01";
  title = "restart";
  vantage = local;
  requires = some (pat ∷ []);
  destructive = some true;
  experiment = none;
  timeout_ms = none;
}

abbrev read_settings : TestModule
read_settings = record {
  id = "B02";
  title = "settings";
  vantage = local;
  requires = none;
  destructive = none;
  experiment = none;
  timeout_ms = some 500;
}

abbrev on_runner : TestModule
on_runner = record {
  id = "C03";
  title = "latency";
  vantage = runner;
  requires = some (db ∷ []);
  destructive = none;
  experiment = none;
  timeout_ms = none;
}

abbrev registry : List TestModule
registry = on_runner ∷ restart ∷ read_settings ∷ []

abbrev options : PlanOptions
options = record {
  vantage = local;
  capabilities = pat ∷ [];
  only = none;
  experiment = none;
  allow_destructive = some true;
}

planning : Unit {0}
unfolding plan_run judge is_selected where_eq missing_capabilities capability_eq
planning = tt

planned_ids : map (λ m. m.id) (plan_run by_code registry options).run ≡ "B02" ∷ "A01" ∷ []
unfolding planning
planned_ids = refl

skipped_ids : map (λ r. r.id) (plan_run by_code registry options).skipped ≡ "C03" ∷ []
unfolding planning
skipped_ids = refl

only_ignores_case :
    map (λ m. m.id) (plan_run by_code registry (record options { only = some ("b02" ∷ []) })).run
    ≡ "B02" ∷ []
unfolding planning
only_ignores_case = refl

plan_run-perm_selected_example :
    Perm
      (map (λ m. m.id) (plan_run by_code registry options).run
        ++ map (λ r. r.id) (plan_run by_code registry options).skipped)
      (map (λ m. m.id) (filter (is_selected options) registry))
plan_run-perm_selected_example = plan_run-perm_selected by_code registry options

mem-plan_run_iff_example :
    Mem restart (plan_run by_code registry options).run
    ↔ (Mem restart registry × IsEligible options restart)
mem-plan_run_iff_example = mem-plan_run_iff by_code registry options restart

plan_run-order_example :
    AllPairs (RunsBefore by_code) (plan_run by_code registry options).run
    × AllPairs (λ a b. by_code.le a.id b.id ≡ true) (plan_run by_code registry options).skipped
plan_run-order_example = plan_run-order by_code registry options
