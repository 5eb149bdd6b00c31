-- ===== src/Examples/Fanning.antt =====
-- A request of fanout.ts with one endpoint in the cache, one that is slow and one that fails.
use supabase_lab.Common.{
  is_space, ◌≡◌, refl, String, Option, none, some, true, false, List, [], ◌∷◌, map, str_eq,
  if◌then◌else◌, codes_equal,
}
use supabase_lab.FanOut.{
  Endpoint, profile, feed, inbox, stats, Controls, UpstreamStatus, ok, error, timeout,
}
use supabase_lab.FanOut.Ttl.{
  cache_ttl, ttl_of_parts, parts_of, split_on, trim, first_age, max_age, parse_controls, listed_in,
  known, endpoint_of,
}
use supabase_lab.FanOut.Calls.{
  Exchange, answered, threw, call_one, call_made, parsed, failed_call, is_ok_http, mode_for,
}
use supabase_lab.FanOut.Request.{
  Cache, entries, Clock, Aggregate, fan_out, read_cache, read_some, after_read, take_hits, set_hit,
  readable, calls_of, calls, store_all, cached_store, from_cache, writes_of, ordered, aggregate_of,
  is_ok, write_cache,
}
use supabase_lab.FanOut.Totality.{IsComplete, fan_out-IsComplete}

abbrev controls : Controls
controls = record { fail = stats ∷ []; slow = inbox ∷ []; refresh = false }

-- a body is its text here, and no text is malformed
abbrev parse_json : String → Option String
parse_json text = some text

abbrev answer_of : Endpoint → Option String → Exchange
answer_of profile mode = threw 3 false "connection refused"
answer_of feed mode = answered 20 200 "posts" (some "Private, Max-Age=7200")
answer_of inbox mode = threw 800 true "aborted"
answer_of stats mode = answered 15 503 "" none

abbrev stored : Cache String
stored = record {
  get = λ es. entries (record { endpoint = profile; body = "me"; age_s = 12 } ∷ []);
  put = λ ws. none;
}

abbrev clock : Clock
clock = record { read_ms = 2; write_ms = 1; total_ms = 803 }

fanning : Unit {0}
unfolding cache_ttl ttl_of_parts parts_of split_on trim first_age max_age is_space codes_equal
    call_one call_made parsed failed_call is_ok_http mode_for fan_out read_cache read_some
    after_read take_hits set_hit readable calls_of calls store_all cached_store from_cache writes_of
    ordered aggregate_of is_ok write_cache parse_controls listed_in known endpoint_of
fanning = tt

test-ttl : cache_ttl (some "Private, Max-Age=7200") ≡ 3600
unfolding fanning
test-ttl = refl

test-no_store : cache_ttl (some "max-age=60 , no-store") ≡ 0
unfolding fanning
test-no_store = refl

test-controls :
    parse_controls (λ name. if str_eq name "fail" then some "stats, nothing" else none)
    ≡ record { fail = stats ∷ []; slow = []; refresh = false }
unfolding fanning
test-controls = refl

statuses : Option (Aggregate String) → List (Endpoint × UpstreamStatus)
statuses none = []
statuses (some a) = map (λ r. (r.0, r.1.status)) a.upstreams

test-fan_out :
    statuses (fan_out "null" parse_json answer_of (λ e. true) 800 controls (some stored) clock)
    ≡ (profile, ok) ∷ (feed, ok) ∷ (inbox, timeout) ∷ (stats, error) ∷ []
unfolding fanning statuses
test-fan_out = refl

-- a base URL that `new URL` refuses
test-refused :
    statuses (fan_out "null" parse_json answer_of (λ e. false) 800 controls (some stored) clock)
    ≡ []
unfolding fanning statuses
test-refused = refl

fan_out-IsComplete_example :
    (a : Aggregate String) × (fan_out "null" parse_json answer_of
        (λ e. true)
        800
        controls
        (some stored)
        clock
      ≡ some a)
    × IsComplete "null" controls a
fan_out-IsComplete_example =
    fan_out-IsComplete "null" parse_json answer_of (λ e. true) 800 controls (λ e. refl)
      (some stored) clock
