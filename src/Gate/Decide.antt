-- ===== src/Gate/Decide.antt =====
-- `decide` and `gate` of gate.ts.
use supabase_lab.Common.{
  ℕ, String, Option, none, some, Bool, true, false, List, [], ◌∷◌, ◌++◌, map, filter, includes,
  str_eq, or_else, join, show, ◌<>◌, if◌then◌else◌,
}
use supabase_lab.Gate.{Op, StatusComponent, StatusIncident, RegionStatus, region_status}
use supabase_lab.Gate.Wording.{
  Scope, named_regions, body_regions, all_regions, unscoped, incident_regions, is_lifecycle,
  is_open,
}

pub record Policy : Type 0 where
  pub block_unscoped_lifecycle : Bool
  pub block_on_missing_region : Bool

abbrev pub default_policy : Policy
default_policy = record { block_unscoped_lifecycle = true; block_on_missing_region = true }

pub record Decision : Type 0 where
  pub proceed : Bool
  pub region : String
  pub op : Op
  pub region_status : String
  pub region_components_matched : ℕ
  pub blockers : List String
  pub warnings : List String

-- one push to `blockers` or to `warnings`
pub data Note : Type 0 where
  blocker warning : String → Note

unfoldable pub block_if : Bool → String → Note
block_if true why = blocker why
block_if false why = warning why

unfoldable pub region_notes : Policy → String → RegionStatus → List Note
unfolding block_if show
region_notes policy region rs =
    if str_eq rs.status "missing"
    then block_if policy.block_on_missing_region ("no component named " <> region) ∷ []
    else if str_eq rs.status "operational"
    then []
    else blocker (
        "component status "
        <> rs.status
        <> " ("
        <> show rs.matched
        <> " components named "
        <> region
        <> ")")
      ∷ []

unfoldable pub tag : StatusIncident → String
tag inc = inc.id <> " \"" <> inc.name <> "\" (" <> inc.status <> ", impact " <> inc.impact <> ")"

unfoldable pub scope_note : Policy → String → Bool → String → Scope → List String → Note
unfolding block_if join
scope_note policy region lifecycle label all_regions found =
    blocker ("open, all regions: " <> label)
scope_note policy region lifecycle label named_regions found =
    if includes str_eq region found
    then blocker ("open, names " <> region <> ": " <> label)
    else warning ("open, other region(s) " <> join "," found <> ": " <> label)
scope_note policy region lifecycle label body_regions found =
    if includes str_eq region found
    then block_if lifecycle (
        "open, "
        <> region
        <> " in update text"
        <> (if lifecycle then " with lifecycle wording" else " only")
        <> ": "
        <> label)
    else warning ("open, other region(s) " <> join "," found <> ": " <> label)
scope_note policy region lifecycle label unscoped found =
    if lifecycle
    then block_if policy.block_unscoped_lifecycle ("open, no region, lifecycle wording: " <> label)
    else warning ("open, no region, not lifecycle: " <> label)

unfoldable pub incident_note : Policy → String → Op → StatusIncident → Note
unfolding scope_note tag
incident_note policy region op inc =
    let (scope, found) = incident_regions inc in
    scope_note policy region (is_lifecycle op inc) (tag inc) scope found

unfoldable pub blockers_of : List Note → List String
blockers_of [] = []
blockers_of (blocker why ∷ notes) = why ∷ blockers_of notes
blockers_of (warning why ∷ notes) = blockers_of notes

unfoldable pub warnings_of : List Note → List String
warnings_of [] = []
warnings_of (blocker why ∷ notes) = warnings_of notes
warnings_of (warning why ∷ notes) = why ∷ warnings_of notes

unfoldable pub is_empty : List String → Bool
is_empty [] = true
is_empty (_ ∷ _) = false

unfoldable pub decide : String → Op → List StatusComponent → List StatusIncident → Policy → Decision
unfolding region_notes incident_note blockers_of warnings_of is_empty
decide region op components incidents policy =
    let rs = region_status components region in
    let notes =
      region_notes policy region rs
      ++ map (incident_note policy region op) (filter is_open incidents) in
    record {
      proceed = is_empty (blockers_of notes);
      region = region;
      op = op;
      region_status = rs.status;
      region_components_matched = rs.matched;
      blockers = blockers_of notes;
      warnings = warnings_of notes;
    }

-- what `fetchStatus` read: the documents, or why they cannot be used
pub record StatusSnapshot : Type 0 where
  pub components : List StatusComponent
  pub incidents : List StatusIncident
  pub error : Option String

unreadable : String → Op → Bool → String → Decision
unreadable region op fail_open error = record {
  proceed = fail_open;
  region = region;
  op = op;
  region_status = "unknown";
  region_components_matched = 0;
  blockers = if fail_open then [] else ("status unreadable: " <> error) ∷ [];
  warnings = if fail_open then ("status unreadable: " <> error) ∷ [] else [];
}

unfoldable pub gate : String → Op → Option Policy → Option Bool → StatusSnapshot → Decision
unfolding decide unreadable
gate region op policy fail_open snapshot = elim snapshot.error [
  | none ↦ decide region op snapshot.components snapshot.incidents (or_else policy default_policy)
  | some error ↦
      if str_eq error ""
      then decide region op snapshot.components snapshot.incidents (or_else policy default_policy)
      else unreadable region op (or_else fail_open false) error
]
