-- ===== src/FanOut.antt =====
-- experiments/governed-starter-kit/supabase/functions/fanout-api/fanout.ts: one screen request
-- answered from several upstream endpoints and a cache. The header that says how long a response
-- may be cached is read in FanOut/Ttl, one call is in FanOut/Calls, and the request in
-- FanOut/Request. The bodies are of any type, and their parser is a parameter.
pub mod Ttl
pub mod Calls
pub mod Request
pub mod Answers
pub mod Totality
use supabase_lab.Common.{
  ℕ, String, Option, Bool, true, false, List, [], ◌∷◌, includes, ◌≡◌, refl, ◌↔◌, arith,
}

pub data Endpoint : Type 0 where
  profile feed inbox stats : Endpoint

abbrev pub endpoints : List Endpoint
endpoints = profile ∷ feed ∷ inbox ∷ stats ∷ []

abbrev pub endpoint_eq : Endpoint → Endpoint → Bool
endpoint_eq profile profile = true
endpoint_eq feed feed = true
endpoint_eq inbox inbox = true
endpoint_eq stats stats = true
endpoint_eq _ _ = false

pub endpoint_eq_iff : (a b : Endpoint) → (endpoint_eq a b ≡ true) ↔ (a ≡ b)
endpoint_eq_iff a b = (ground arith, ground arith)

-- the members of the source's two sets, as lists
pub record Controls : Type 0 where
  pub fail : List Endpoint
  pub slow : List Endpoint
  pub refresh : Bool

abbrev pub has : List Endpoint → Endpoint → Bool
has set e = includes endpoint_eq e set

pub data UpstreamStatus : Type 0 where
  ok error timeout : UpstreamStatus

pub data Source : Type 0 where
  cache upstream : Source

pub record UpstreamReport : Type 0 where
  pub status : UpstreamStatus
  pub source : Source
  pub ms : ℕ
  pub http : Option ℕ
  pub ttl_s : Option ℕ
  pub age_s : Option ℕ
  pub error : Option String

module _ (Json : Type 0) where
  pub record CacheEntry : Type 0 where
    pub endpoint : Endpoint
    pub body : Json
    pub age_s : ℕ

  pub record CacheWrite : Type 0 where
    pub endpoint : Endpoint
    pub body : Json
    pub ttl_s : ℕ

  pub record Outcome : Type 0 where
    pub endpoint : Endpoint
    pub report : UpstreamReport
    pub body : Json
