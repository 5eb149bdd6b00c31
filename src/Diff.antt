-- ===== src/Diff.antt =====
-- harness/src/diff.ts: two run artifacts compared at the measurement level.
pub mod Changed
pub mod Laws
pub mod Quiet
pub mod Render
use supabase_lab.Common.{
  ℕ, suc, ◌+◌, String, Option, none, some, Bool, true, false, not, List, [], ◌∷◌, ◌++◌, filter,
  includes, str_eq, sort, text_le, lookup, set_key, keys, has_key, or_else, inherited, distinct,
  if◌then◌else◌, ◌>>=◌,
}
use supabase_lab.Types.{Value, Measurements, TestResult, RunArtifact, Status, status_eq, value_eq}

-- what `key in m ? m[key] : null` gives: nothing, the value of the key, or the value that every
-- object has under the key
pub data Cell : Type 0 where
  absent : Cell
  inherited_value : String → Cell
  measured : Value → Cell

unfoldable pub cell_eq : Cell → Cell → Bool
unfolding value_eq
cell_eq absent absent = true
cell_eq (inherited_value s) (inherited_value t) = str_eq s t
cell_eq (measured v) (measured w) = value_eq v w
cell_eq _ _ = false

pub record MeasurementChange : Type 0 where
  pub id : String
  pub key : String
  pub from : Cell
  pub to : Cell

pub record StatusChange : Type 0 where
  pub id : String
  pub from : Status
  pub to : Status

pub record ArtifactDiff : Type 0 where
  pub added : List String
  pub removed : List String
  pub changed : List MeasurementChange
  pub status_changed : List StatusChange
  pub unchanged : ℕ

abbrev pub Results : Type 0
Results = List (String × TestResult)

unfoldable pub collect : Results → List TestResult → Results
unfolding set_key
collect found [] = found
collect found (r ∷ rs) = collect (set_key r.id r found) rs

unfoldable pub by_id : RunArtifact → Results
unfolding collect
by_id a = collect [] a.results

unfoldable pub measurements : TestResult → Measurements
measurements r = or_else r.measurements []

cell_of : String → Option Value → Cell
cell_of key none = if includes str_eq key inherited then inherited_value key else absent
cell_of key (some v) = measured v

unfoldable pub cell : String → Measurements → Cell
unfolding cell_of lookup
cell key m = cell_of key (lookup key m)

-- the measurements compared under some keys: those that changed, and how many did not
unfoldable pub compare_keys :
    String → Measurements → Measurements → List String → List MeasurementChange × ℕ
unfolding cell cell_eq
compare_keys id mb ma [] = ([], 0)
compare_keys id mb ma (k ∷ ks) =
    let (changed, unchanged) = compare_keys id mb ma ks in
    if cell_eq (cell k mb) (cell k ma)
    then (changed, suc unchanged)
    else (record { id = id; key = k; from = cell k mb; to = cell k ma } ∷ changed, unchanged)

unfoldable pub compared_keys : Measurements → Measurements → List String
unfolding sort distinct
compared_keys mb ma = sort text_le (distinct [] (keys mb ++ keys ma))

unfoldable pub compare_status : String → Status → Status → List StatusChange
unfolding status_eq
compare_status id from to =
    if status_eq from to then [] else record { id = id; from = from; to = to } ∷ []

-- the pushes of the loop, with the rounds after; `none` is an exception
unfoldable pub compare_tests : Results → Results → List String → ArtifactDiff → Option ArtifactDiff
unfolding compare_keys compared_keys compare_status measurements lookup
compare_tests a b [] d = some d
compare_tests a b (id ∷ ids) d = do
  before ← lookup id a
  after ← lookup id b
  let mb = measurements before
  let ma = measurements after
  let (changed, unchanged) = compare_keys id mb ma (compared_keys mb ma)
  compare_tests a b ids (record d {
    status_changed = d.status_changed ++ compare_status id before.status after.status;
    changed = d.changed ++ changed;
    unchanged = d.unchanged + unchanged;
  })

-- `[...m.keys()].filter(test).sort()`
unfoldable pub sorted_keys : (String → Bool) → Results → List String
unfolding sort
sorted_keys test m = sort text_le (filter test (keys m))

unfoldable pub diff_artifacts : RunArtifact → RunArtifact → Option ArtifactDiff
unfolding by_id sorted_keys compare_tests
diff_artifacts prev cur =
    let a = by_id prev in
    let b = by_id cur in
    compare_tests a b (sorted_keys (λ k. has_key k b) a) (record {
      added = sorted_keys (λ id. not (has_key id a)) b;
      removed = sorted_keys (λ id. not (has_key id b)) a;
      changed = [];
      status_changed = [];
      unchanged = 0;
    })
