-- ===== src/Types.antt =====
-- harness/src/types.ts: the contract between test modules, runner and reports.
-- Optional fields are `Option`; an object is an association list in insertion order; a JavaScript
-- number is a natural one, which all counts and millisecond values of the harness are.
use supabase_lab.Common.{
  List, ℕ, String, Option, Bool, true, false, List, ◌≡◌, ◌↔◌, str_eq, ◌==◌, arith,
}

pub data Where : Type 0 where
  runner local : Where

pub data Capability : Type 0 where
  db endpoint lambda anon_key pat peer org pgbench openssl pooler second_vpc service_network
        direct_db :
      Capability

pub data Status : Type 0 where
  pass fail skip info : Status

-- `number | string`
pub data Value : Type 0 where
  num : ℕ → Value
  text : String → Value

abbrev pub Measurements : Type 0
Measurements = List (String × Value)

pub record TestResult : Type 0 where
  pub id : String
  pub title : String
  pub status : Status
  pub detail : Option String
  pub measurements : Option Measurements
  pub evidence : Option String
  pub duration_ms : Option ℕ

pub record TestModule : Type 0 where
  pub id : String
  pub title : String
  pub vantage : Where
  pub requires : Option (List Capability)
  pub destructive : Option Bool
  pub experiment : Option String
  pub timeout_ms : Option ℕ

-- `===` on vantages, statuses and measured values
unfoldable pub where_eq : Where → Where → Bool
where_eq runner runner = true
where_eq local local = true
where_eq _ _ = false

unfoldable pub status_eq : Status → Status → Bool
status_eq pass pass = true
status_eq fail fail = true
status_eq skip skip = true
status_eq info info = true
status_eq _ _ = false

unfoldable pub value_eq : Value → Value → Bool
value_eq (num a) (num b) = a == b
value_eq (text s) (text t) = str_eq s t
value_eq _ _ = false

unfoldable pub capability_eq : Capability → Capability → Bool
capability_eq db db = true
capability_eq endpoint endpoint = true
capability_eq lambda lambda = true
capability_eq anon_key anon_key = true
capability_eq pat pat = true
capability_eq peer peer = true
capability_eq org org = true
capability_eq pgbench pgbench = true
capability_eq openssl openssl = true
capability_eq pooler pooler = true
capability_eq second_vpc second_vpc = true
capability_eq service_network service_network = true
capability_eq direct_db direct_db = true
capability_eq _ _ = false

pub capability_eq_iff : (a b : Capability) → (capability_eq a b ≡ true) ↔ (a ≡ b)
unfolding capability_eq
capability_eq_iff a b = ground arith

pub where_eq_iff : (a b : Where) → (where_eq a b ≡ true) ↔ (a ≡ b)
unfolding where_eq
where_eq_iff a b = ground arith

pub status_eq_iff : (a b : Status) → (status_eq a b ≡ true) ↔ (a ≡ b)
unfolding status_eq
status_eq_iff a b = ground arith

pub record RunArtifact : Type 0 where
  pub started_at : String
  pub finished_at : String
  pub vantage : Where
  pub region : String
  pub project_region : Option String
  pub ref : String
  pub experiment : Option String
  pub lab_commit : Option String
  pub tool_versions : List (String × String)
  pub results : List TestResult
