-- ===== src/Examples/Reporting.antt =====
-- The report of an artifact with one measured and one failed result.
use supabase_lab.Common.{◌≡◌, refl, none, some, [], ◌∷◌, is_space, lookup}
use supabase_lab.Types.{RunArtifact, TestResult, local, pass, fail, num, status_eq}
use supabase_lab.Plan.{where_name}
use supabase_lab.Diff.{cell}
use supabase_lab.Diff.Render.{status_name}
use supabase_lab.Report.{
  render_markdown, by_status, with_status, escape_pipes, counts, result_row, region_label,
  has_measurements, measurement_keys, measurement_row, measurement_section, evidence_lines,
  evidence_section, trimmed,
}

abbrev works : TestResult
works = record {
  id = "P01";
  title = "a|b";
  status = pass;
  detail = none;
  measurements = some (("ms", num 12) ∷ []);
  evidence = some " log\n";
  duration_ms = none;
}

abbrev breaks : TestResult
breaks = record {
  id = "P02";
  title = "close";
  status = fail;
  detail = some "refused";
  measurements = none;
  evidence = none;
  duration_ms = none;
}

abbrev run : RunArtifact
run = record {
  started_at = "T1";
  finished_at = "T2";
  vantage = local;
  region = "eu-west-1";
  project_region = none;
  ref = "abc";
  experiment = none;
  lab_commit = none;
  tool_versions = ("bun", "1.3.14") ∷ [];
  results = works ∷ breaks ∷ [];
}

reporting : Unit {0}
unfolding render_markdown by_status with_status escape_pipes counts result_row region_label
    has_measurements measurement_keys measurement_row measurement_section evidence_lines
    evidence_section trimmed status_eq where_name cell status_name is_space lookup
reporting = tt

test-render :
    render_markdown (λ key. key) run
    ≡ "# supabase-lab run - T1\n\nProject `abc` | harness region eu-west-1 (not read from the project) | vantage local\n\n**1 fail** | **1 pass**\n\n## Results\n\n| Test | Status | Detail |\n|---|---|---|\n| P02 close | fail | refused |\n| P01 a\\|b | pass |  |\n\n## Measurements\n\n| Test | ms |\n|---|---|\n| P01 | 12 |\n\n## Evidence\n\n### P01 a|b\n\n```\nlog\n```\n\n## Provenance\n\n- started: T1, finished: T2\n- bun: 1.3.14\n"
unfolding reporting
test-render = refl
