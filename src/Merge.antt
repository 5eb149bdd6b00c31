-- ===== src/Merge.antt =====
-- harness/src/run.ts, `mergeMode`: the artifacts of both vantages in one.
pub mod Laws
use supabase_lab.Common.{
  String, Option, none, some, Bool, true, false, not, ◌&&◌, List, [], ◌∷◌, ◌++◌, map, filter,
  some_of, or_else, truthy, str_eq, contains_text, sort, text_le, assign, if◌then◌else◌,
}
use supabase_lab.Types.{RunArtifact, TestResult, skip, status_eq}

-- `list.sort()[0]` and `list.sort().at(-1)`
first_of_list : List String → Option String
first_of_list [] = none
first_of_list (s ∷ _) = some s

last_of_list : List String → Option String
last_of_list [] = none
last_of_list (s ∷ []) = some s
last_of_list (s ∷ t ∷ rest) = last_of_list (t ∷ rest)

unfoldable pub earliest : List String → Option String
unfolding first_of_list sort
earliest ss = first_of_list (sort text_le ss)

unfoldable pub latest : List String → Option String
unfolding last_of_list sort
latest ss = last_of_list (sort text_le ss)

-- `parts.find((p) => p.x)?.x`: the first truthy value
unfoldable pub find_truthy : List (Option String) → Option String
find_truthy [] = none
find_truthy (s ∷ rest) = let later = find_truthy rest in if truthy s then s else later

unfoldable pub all_results : List RunArtifact → List TestResult
all_results [] = []
all_results (p ∷ ps) = p.results ++ all_results ps

-- `Object.assign({}, ...versions)`
all_versions : List (String × String) → List RunArtifact → List (String × String)
unfolding assign
all_versions found [] = found
all_versions found (p ∷ ps) = all_versions (assign found p.tool_versions) ps

-- the other vantage ran this test
unfoldable pub ran_elsewhere : List TestResult → TestResult → Bool
ran_elsewhere all r = some_of (λ o. str_eq o.id r.id && not (status_eq o.status skip)) all

-- a skip from one vantage that is noise
unfoldable pub is_noise : List TestResult → TestResult → Bool
unfolding ran_elsewhere
is_noise all r =
    status_eq r.status skip
    && (contains_text (or_else r.detail "") "runs on \"" && ran_elsewhere all r)

unfoldable pub without_noise : List TestResult → List TestResult
unfolding is_noise
without_noise all = filter (λ r. not (is_noise all r)) all

-- `none` stands for the error "no artifacts to merge"
unfoldable pub merge : List RunArtifact → Option RunArtifact
unfolding earliest latest find_truthy all_results all_versions without_noise
merge [] = none
merge (first ∷ rest) =
    let parts = first ∷ rest in
    some (record {
      started_at = or_else (earliest (map (λ p. p.started_at) parts)) "";
      finished_at = or_else (latest (map (λ p. p.finished_at) parts)) "";
      vantage = first.vantage;
      region = first.region;
      project_region = find_truthy (map (λ p. p.project_region) parts);
      ref = or_else (find_truthy (map (λ p. some p.ref) parts)) "";
      experiment = first.experiment;
      lab_commit = first.lab_commit;
      tool_versions = all_versions [] parts;
      results = without_noise (all_results parts);
    })
