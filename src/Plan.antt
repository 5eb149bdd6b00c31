-- ===== src/Plan.antt =====
-- harness/src/plan.ts: which modules run, in what order, and which are skipped with what reason.
pub mod Loop
pub mod Gating
pub mod Order
use supabase_lab.Common.{
  ℕ, String, Option, none, some, Bool, true, false, not, ◌&&◌, List, [], ◌∷◌, ◌++◌, map, filter,
  some_of, includes, length, or_else, truthy, str_eq, if◌then◌else◌, sort, join, lower, codes_equal,
  ◌<>◌, ◌≡◌, ◌⊎◌,
}
use supabase_lab.Types.{
  Where, runner, local, Capability, db, endpoint, lambda, anon_key, pat, peer, org, pgbench,
  openssl, pooler, second_vpc, service_network, direct_db, skip, TestResult, TestModule, where_eq,
  capability_eq,
}

-- `a.localeCompare(b, "en") <= 0`: the collation of the runtime, of which the code uses that it is
-- a consistent comparison.
pub record Collation : Type 0 where
  pub le : String → String → Bool
  pub total : (a b : String) → (le a b ≡ true) ⊎ (le b a ≡ true)
  pub trans : (a b c : String) → le a b ≡ true → le b c ≡ true → le a c ≡ true

pub record PlanOptions : Type 0 where
  pub vantage : Where
  pub capabilities : List Capability
  pub only : Option (List String)
  pub experiment : Option String
  pub allow_destructive : Option Bool

pub record Plan : Type 0 where
  pub run : List TestModule
  pub skipped : List TestResult

unfoldable pub where_name : Where → String
where_name runner = "runner"
where_name local = "local"

unfoldable pub capability_name : Capability → String
capability_name db = "db"
capability_name endpoint = "endpoint"
capability_name lambda = "lambda"
capability_name anon_key = "anon-key"
capability_name pat = "pat"
capability_name peer = "peer"
capability_name org = "org"
capability_name pgbench = "pgbench"
capability_name openssl = "openssl"
capability_name pooler = "pooler"
capability_name second_vpc = "second-vpc"
capability_name service_network = "service-network"
capability_name direct_db = "direct-db"

unfoldable pub missing_capabilities : TestModule → List Capability → List Capability
missing_capabilities m have =
    filter (λ c. not (includes capability_eq c have)) (or_else m.requires [])

-- the `--only` filter: absent and empty lists select everything
unfoldable pub is_named : Option (List String) → String → Bool
unfolding codes_equal
is_named none id = true
is_named (some []) id = true
is_named (some (o ∷ os)) id = some_of (λ s. codes_equal (lower id) (lower s)) (o ∷ os)

unfoldable pub same_experiment : Option String → Option String → Bool
same_experiment (some a) (some b) = str_eq a b
same_experiment none none = true
same_experiment _ _ = false

-- the two `continue`s that report nothing
unfoldable pub is_selected : PlanOptions → TestModule → Bool
unfolding is_named same_experiment
is_selected opts m =
    is_named opts.only m.id
    && not (truthy opts.experiment && not (same_experiment m.experiment opts.experiment))

unfoldable pub is_destructive : TestModule → Bool
is_destructive m = or_else m.destructive false

-- what the body of the loop does with a module
pub data Verdict : Type 0 where
  dropped runs : Verdict
  skips : String → Verdict

unfoldable pub wrong_vantage : Where → Where → String
unfolding where_name
wrong_vantage a b = "runs on \"" <> where_name a <> "\", this process is \"" <> where_name b <> "\""

unfoldable pub lacking : List Capability → String
unfolding capability_name join
lacking cs = "missing capability: " <> join ", " (map capability_name cs)

unfoldable pub judge_mode : PlanOptions → TestModule → Verdict
judge_mode opts m =
    if is_destructive m && not (or_else opts.allow_destructive false)
    then skips "destructive; re-run with --destructive to include"
    else runs

unfoldable pub judge_missing : PlanOptions → TestModule → List Capability → Verdict
unfolding judge_mode
judge_missing opts m [] = judge_mode opts m
judge_missing opts m (c ∷ cs) = skips (lacking (c ∷ cs))

unfoldable pub judge : PlanOptions → TestModule → Verdict
unfolding judge_missing
judge opts m =
    if not (is_selected opts m)
    then dropped
    else if not (where_eq m.vantage opts.vantage)
    then skips (wrong_vantage m.vantage opts.vantage)
    else judge_missing opts m (missing_capabilities m opts.capabilities)

unfoldable pub skip_result : TestModule → String → TestResult
skip_result m detail = record {
  id = m.id;
  title = m.title;
  status = skip;
  detail = some detail;
  measurements = none;
  evidence = none;
  duration_ms = none;
}

unfoldable pub admit_as : Verdict → TestModule → Plan → Plan
unfolding skip_result
admit_as dropped m p = p
admit_as runs m p = record p { run = p.run ++ m ∷ [] }
admit_as (skips why) m p = record p { skipped = p.skipped ++ skip_result m why ∷ [] }

unfoldable pub plan_loop : PlanOptions → List TestModule → Plan → Plan
unfolding admit_as
plan_loop opts [] p = p
plan_loop opts (m ∷ ms) p = plan_loop opts ms (admit_as (judge opts m) m p)

-- the comparator of the final sort: read-only first, then by id
unfoldable pub module_le : Collation → TestModule → TestModule → Bool
unfolding is_destructive
module_le c a b =
    if is_destructive a
    then (if is_destructive b then c.le a.id b.id else false)
    else (if is_destructive b then true else c.le a.id b.id)

unfoldable pub result_le : Collation → TestResult → TestResult → Bool
result_le c a b = c.le a.id b.id

unfoldable pub plan_run : Collation → List TestModule → PlanOptions → Plan
unfolding plan_loop module_le result_le sort
plan_run c modules opts =
    let p = plan_loop opts modules (record { run = []; skipped = [] }) in
    record { run = sort (module_le c) p.run; skipped = sort (result_le c) p.skipped }
