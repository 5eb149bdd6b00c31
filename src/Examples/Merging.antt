-- ===== src/Examples/Merging.antt =====
-- `mergeMode` of harness/src/run.ts on the artifacts of the two vantages.
use supabase_lab.Common.{◌≡◌, refl, none, some, List, [], ◌∷◌, text_le, contains_text}
use supabase_lab.Types.{RunArtifact, TestResult, TestModule, runner, local, pass, status_eq}
use supabase_lab.Plan.{PlanOptions, skip_result, wrong_vantage}
use supabase_lab.Merge.{merge}

abbrev latency : TestModule
latency = record {
  id = "C03";
  title = "latency";
  vantage = runner;
  requires = none;
  destructive = none;
  experiment = none;
  timeout_ms = none;
}

abbrev measured : TestResult
measured = record {
  id = "C03";
  title = "latency";
  status = pass;
  detail = none;
  measurements = none;
  evidence = none;
  duration_ms = some 12;
}

abbrev not_here : TestResult
not_here = skip_result latency (wrong_vantage runner local)

abbrev options : PlanOptions
options = record {
  vantage = local;
  capabilities = [];
  only = none;
  experiment = none;
  allow_destructive = none;
}

abbrev from_local : RunArtifact
from_local = record {
  started_at = "2026-10-23T10:00:00.000Z";
  finished_at = "2026-10-23T11:00:00.000Z";
  vantage = local;
  region = "eu-west-1";
  project_region = none;
  ref = "";
  experiment = some "hostname-path";
  lab_commit = none;
  tool_versions = ("bun", "1.3.14") ∷ [];
  results = not_here ∷ [];
}

abbrev from_runner : RunArtifact
from_runner = record {
  started_at = "2026-10-23T09:30:00.000Z";
  finished_at = "2026-10-23T10:30:00.000Z";
  vantage = runner;
  region = "eu-west-1";
  project_region = some "eu-west-1";
  ref = "abc";
  experiment = some "hostname-path";
  lab_commit = none;
  tool_versions = ("psql", "17") ∷ [];
  results = measured ∷ [];
}

abbrev both : List TestResult
both = not_here ∷ measured ∷ []

abbrev merged : RunArtifact
merged = record {
  started_at = "2026-10-23T09:30:00.000Z";
  finished_at = "2026-10-23T11:00:00.000Z";
  vantage = local;
  region = "eu-west-1";
  project_region = some "eu-west-1";
  ref = "abc";
  experiment = some "hostname-path";
  lab_commit = none;
  tool_versions = ("bun", "1.3.14") ∷ ("psql", "17") ∷ [];
  results = measured ∷ [];
}

merge_both : merge (from_local ∷ from_runner ∷ []) ≡ some merged
unfolding merge skip_result wrong_vantage text_le contains_text status_eq
merge_both = refl
