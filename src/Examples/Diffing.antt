-- ===== src/Examples/Diffing.antt =====
-- Two artifacts of platform-facts that differ in one measurement and one test.
use supabase_lab.Common.{
  ◌≡◌, refl, String, Option, none, some, List, [], ◌∷◌, lookup, set_key, distinct, sort, text_le,
}
use supabase_lab.Types.{
  RunArtifact, TestResult, Status, pass, fail, Measurements, num, text, runner, value_eq, status_eq,
}
use supabase_lab.Diff.{
  diff_artifacts, ArtifactDiff, compare_tests, compare_keys, compared_keys, compare_status, by_id,
  collect, sorted_keys, measurements, cell, cell_eq,
}
use supabase_lab.Diff.Laws.{diff_artifacts-IsReport, IsReport}
use supabase_lab.Diff.Render.{
  render_diff_markdown, is_quiet, no_items, status_lines, status_name, changed_lines, cell_text,
  listed,
}

abbrev fact : String → Status → Measurements → TestResult
fact id status ms = record {
  id = id;
  title = id;
  status = status;
  detail = none;
  measurements = some ms;
  evidence = none;
  duration_ms = none;
}

abbrev artifact : List TestResult → RunArtifact
artifact results = record {
  started_at = "2026-10-23T10:00:00.000Z";
  finished_at = "2026-10-23T11:00:00.000Z";
  vantage = runner;
  region = "eu-west-1";
  project_region = none;
  ref = "";
  experiment = some "platform-facts";
  lab_commit = none;
  tool_versions = [];
  results = results;
}

abbrev before : RunArtifact
before =
    artifact
      (fact "F1" pass (("conns", num 60) ∷ ("plan", text "pro") ∷ []) ∷ fact "F2" pass [] ∷ [])

abbrev after : RunArtifact
after =
    artifact
      (fact "F3" pass [] ∷ fact "F1" fail (("plan", text "pro") ∷ ("conns", num 90) ∷ []) ∷ [])

diffing : Unit {0}
unfolding diff_artifacts compare_tests compare_keys compared_keys compare_status by_id collect
    sorted_keys measurements cell cell_eq lookup set_key distinct sort text_le value_eq status_eq
    render_diff_markdown is_quiet no_items status_lines status_name changed_lines cell_text listed
diffing = tt

rendered : Option ArtifactDiff → String
unfolding diffing
rendered none = ""
rendered (some d) = render_diff_markdown (λ key. key) d

test-render :
    rendered (diff_artifacts before after)
    ≡ "# Platform diff\n\n## Status changes\n\n| id | from | to |\n| --- | --- | --- |\n| F1 | pass | fail |\n\n## Changed measurements\n\n| id | key | before | after |\n| --- | --- | --- | --- |\n| F1 | conns | 60 | 90 |\n\nAdded tests: F3\n\nRemoved tests: F2\n\n1 measurement unchanged."
unfolding diffing rendered
test-render = refl

diff_artifacts-IsReport_example :
    (d : ArtifactDiff) × (diff_artifacts before after ≡ some d) × IsReport before after d
diff_artifacts-IsReport_example = diff_artifacts-IsReport before after
