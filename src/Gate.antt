-- ===== src/Gate.antt =====
-- experiments/lifecycle-ops/lib/gate.ts: the status of a region on the public status page. An
-- incident's text is matched in Gate/Wording, the decision is in Gate/Decide, and the replay of
-- past incidents in Gate/Replay.
pub mod Wording
pub mod Decide
pub mod Replay
pub mod Severity
pub mod Proceed
pub mod Agreement
pub mod Measure
use supabase_lab.Common.{
  inherited, distinct, ℕ, String, Option, none, some, Bool, true, false, List, [], ◌∷◌, filter,
  length, map, includes, str_eq, ltb, lookup, or_else, if◌then◌else◌,
}

pub data Op : Type 0 where
  create restart resize upgrade : Op

pub record StatusComponent : Type 0 where
  pub id : String
  pub name : String
  pub status : String

pub record IncidentUpdate : Type 0 where
  pub body : String
  pub status : String
  pub created_at : String

pub record StatusIncident : Type 0 where
  pub id : String
  pub name : String
  pub status : String
  pub impact : String
  pub created_at : String
  pub resolved_at : Option String
  pub incident_updates : Option (List IncidentUpdate)

abbrev pub regions : List String
regions =
    "ap-east-1" ∷ "ap-northeast-1" ∷ "ap-northeast-2" ∷ "ap-south-1" ∷ "ap-southeast-1"
    ∷ "ap-southeast-2" ∷ "ca-central-1" ∷ "eu-central-1" ∷ "eu-central-2" ∷ "eu-north-1"
    ∷ "eu-west-1" ∷ "eu-west-2" ∷ "eu-west-3" ∷ "sa-east-1" ∷ "us-east-1" ∷ "us-east-2"
    ∷ "us-west-1" ∷ "us-west-2" ∷ []

abbrev pub severity : List (String × ℕ)
severity =
    ("operational", 0)
    ∷ ("under_maintenance", 1)
    ∷ ("degraded_performance", 2)
    ∷ ("partial_outage", 3)
    ∷ ("major_outage", 4)
    ∷ []

-- `rank`; `none` stands for a value that no comparison with a number holds of
unfoldable pub rank : String → Option ℕ
unfolding lookup
rank status =
    if includes str_eq status inherited then none else some (or_else (lookup status severity) 5)

-- `rank(a) > rank(b)`
unfoldable pub outranks_by : Option ℕ → Option ℕ → Bool
outranks_by (some a) (some b) = ltb b a
outranks_by _ _ = false

unfoldable pub outranks : String → String → Bool
unfolding outranks_by
outranks a b = outranks_by (rank a) (rank b)

pub record RegionStatus : Type 0 where
  pub status : String
  pub matched : ℕ
  pub statuses : List String

unfoldable pub worst_of : String → List StatusComponent → String
worst_of worst [] = worst
worst_of worst (c ∷ cs) = worst_of (if outranks c.status worst then c.status else worst) cs

unfoldable pub same_name : String → List StatusComponent → List StatusComponent
same_name region components = filter (λ c. str_eq c.name region) components

unfoldable pub status_among : List StatusComponent → RegionStatus
unfolding worst_of distinct
status_among [] = record { status = "missing"; matched = 0; statuses = [] }
status_among (c ∷ cs) = record {
  status = worst_of "operational" (c ∷ cs);
  matched = length (c ∷ cs);
  statuses = distinct [] (map (λ k. k.status) (c ∷ cs));
}

unfoldable pub region_status : List StatusComponent → String → RegionStatus
unfolding status_among same_name
region_status components region = status_among (same_name region components)
