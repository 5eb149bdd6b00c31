-- ===== src/Report.antt =====
-- harness/src/report.ts: an artifact as a Markdown report. The text of a value that every object
-- inherits is a parameter.
pub mod Table
use Prim.Native.Char.{code}
use supabase_lab.Common.{
  ℕ, String, Option, none, some, Bool, true, false, List, [], ◌∷◌, ◌++◌, map, filter, length,
  includes, str_eq, ltb, join, show, keys, or_else, truthy, is_space, ◌==◌, ◌<>◌, if◌then◌else◌,
}
use supabase_lab.Types.{
  RunArtifact, TestResult, Status, pass, fail, skip, info, status_eq, Value, num, text,
  Measurements,
}
use supabase_lab.Plan.{where_name}
use supabase_lab.Diff.{Cell, absent, inherited_value, measured, cell}
use supabase_lab.Diff.Render.{status_name}

abbrev pub status_order : List Status
status_order = fail ∷ pass ∷ info ∷ skip ∷ []

unfoldable pub with_status : Status → List TestResult → List TestResult
with_status s results = filter (λ r. status_eq r.status s) results

-- the results in the order of the table
unfoldable pub by_status : List Status → List TestResult → List TestResult
unfolding with_status
by_status [] results = []
by_status (s ∷ ss) results = with_status s results ++ by_status ss results

add_keys : List String → List String → List String
add_keys found [] = found
add_keys found (k ∷ ks) = add_keys (if includes str_eq k found then found else found ++ k ∷ []) ks

unfoldable pub measurement_keys : List String → List TestResult → List String
unfolding add_keys
measurement_keys found [] = found
measurement_keys found (r ∷ rs) =
    measurement_keys (add_keys found (keys (or_else r.measurements []))) rs

-- `s.replace(/\|/g, "\\|")`
unfoldable pub escape_pipes : String → String
escape_pipes String.[] = ""
escape_pipes (String.◌∷◌ c s) =
    let rest = escape_pipes s in
    if code c == b'|' then String.◌∷◌ "\\" (String.◌∷◌ c rest) else String.◌∷◌ c rest

trim_front : String → String
trim_front String.[] = ""
trim_front (String.◌∷◌ c s) =
    let rest = trim_front s in if is_space (code c) then rest else String.◌∷◌ c s

trim_back : String → String
trim_back String.[] = ""
trim_back (String.◌∷◌ c s) =
    let rest = trim_back s in
    if is_space (code c)
    then (if str_eq rest "" then "" else String.◌∷◌ c rest)
    else String.◌∷◌ c rest

unfoldable pub trimmed : String → String
unfolding trim_front trim_back is_space
trimmed s = trim_back (trim_front s)

-- `regionLabel` of harness/src/facts.ts
unfoldable pub region_label : RunArtifact → String
region_label run =
    if truthy run.project_region
    then "region " <> or_else run.project_region "" <> " (read from the project)"
    else "harness region " <> run.region <> " (not read from the project)"

count_text : Status → ℕ → List String
unfolding show status_name
count_text s n = if ltb 0 n then ("**" <> show n <> " " <> status_name s <> "**") ∷ [] else []

unfoldable pub counts : List Status → List TestResult → List String
unfolding count_text with_status
counts [] results = []
counts (s ∷ ss) results = count_text s (length (with_status s results)) ++ counts ss results

unfoldable pub result_row : TestResult → String
unfolding escape_pipes status_name
result_row r =
    "| "
    <> r.id
    <> " "
    <> escape_pipes r.title
    <> " | "
    <> status_name r.status
    <> " | "
    <> escape_pipes (or_else r.detail "")
    <> " |"

unfoldable pub has_measurements : TestResult → Bool
has_measurements r = elim (keys (or_else r.measurements [])) [ [] ↦ false | k ∷ ks ↦ true ]

unfoldable pub evidence_lines : List TestResult → List String
unfolding trimmed
evidence_lines [] = []
evidence_lines (r ∷ rs) =
    ("### " <> r.id <> " " <> r.title)
    ∷ ""
    ∷ "```"
    ∷ trimmed (or_else r.evidence "")
    ∷ "```"
    ∷ ""
    ∷ evidence_lines rs

unfoldable pub evidence_section : List TestResult → List String
unfolding evidence_lines
evidence_section [] = []
evidence_section (r ∷ rs) = "## Evidence" ∷ "" ∷ evidence_lines (r ∷ rs)

version_lines : List (String × String) → List String
version_lines [] = []
version_lines ((k, v) ∷ versions) = ("- " <> k <> ": " <> v) ∷ version_lines versions

module _ (source_of : String → String) where
  measured_text : Cell → String
  unfolding show
  measured_text absent = ""
  measured_text (inherited_value key) = source_of key
  measured_text (measured (num n)) = show n
  measured_text (measured (text s)) = s

  unfoldable pub measurement_row : List String → TestResult → String
  unfolding join measured_text cell escape_pipes
  measurement_row ks r =
      "| "
      <> r.id
      <> " | "
      <> join " | "
          (map (λ k. escape_pipes (measured_text (cell k (or_else r.measurements [])))) ks)
      <> " |"

  unfoldable pub measurement_section : List TestResult → List String
  unfolding measurement_row measurement_keys join
  measurement_section [] = []
  measurement_section (r ∷ rs) =
      let ks = measurement_keys [] (r ∷ rs) in
      ("## Measurements"
        ∷ ""
        ∷ ("| Test | " <> join " | " ks <> " |")
        ∷ ("|---|" <> join "|" (map (λ k. "---") ks) <> "|")
        ∷ [])
      ++ map (measurement_row ks) (r ∷ rs)
      ++ "" ∷ []

  unfoldable pub render_markdown : RunArtifact → String
  unfolding measurement_section evidence_section version_lines counts by_status result_row
      region_label join where_name has_measurements
  render_markdown a = join "\n" (
      ("# "
        <> (if truthy a.experiment then or_else a.experiment "" <> " run" else "supabase-lab run")
        <> " - "
        <> a.started_at)
      ∷ ""
      ∷ ("Project `"
          <> a.ref
          <> "` | "
          <> region_label a
          <> " | vantage "
          <> where_name a.vantage
          <> (if truthy a.lab_commit then " | lab `" <> or_else a.lab_commit "" <> "`" else ""))
      ∷ ""
      ∷ join " | " (counts status_order a.results)
      ∷ ""
      ∷ "## Results"
      ∷ ""
      ∷ "| Test | Status | Detail |"
      ∷ "|---|---|---|"
      ∷ (map result_row (by_status status_order a.results)
          ++ "" ∷ []
          ++ measurement_section (filter has_measurements a.results)
          ++ evidence_section (filter (λ r. truthy r.evidence) a.results)
          ++ "## Provenance"
            ∷ ""
            ∷ ("- started: " <> a.started_at <> ", finished: " <> a.finished_at)
            ∷ []
          ++ version_lines a.tool_versions
          ++ "" ∷ []))
