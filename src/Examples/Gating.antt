-- ===== src/Examples/Gating.antt =====
-- The gate of experiments/lifecycle-ops/lib/gate.ts on a status page of three components.
use supabase_lab.Common.{
  distinct, inherited, ◌≡◌, refl, ◌↔◌, ℕ, String, Option, none, some, true, false, List, [], ◌∷◌,
  Memᴰ, All-at_mem, arith, if◌then◌else◌, includes, str_eq, eq_iff, lookup, pos,
}
use supabase_lab.Gate.{
  restart, StatusComponent, StatusIncident, region_status, rank, outranks, outranks_by, worst_of,
  same_name, status_among,
}
use supabase_lab.Gate.Wording.{
  is_open, incident_regions, scope_of, names_all_regions, regions_in, names_region, has_word,
  finds_word, spaced, aliases, is_lifecycle, finds, literal, incident_text, lifecycle_words,
  match_here, is_word, named_regions,
}
use supabase_lab.Gate.Decide.{StatusSnapshot, default_policy, gate, decide, incident_note}
use supabase_lab.Gate.Replay.{
  Interval, blocked, replay_blocks, scope_blocks, replay_interval, interval_from, or_now, union_ms,
  restart_wait_ms,
}
use supabase_lab.Gate.Severity.{region_status-inherited}
use supabase_lab.Gate.Agreement.{is_blocker}
use supabase_lab.Gate.Proceed.{IsClear, IsSafe, decide-proceed_iff, gate-IsSafe}
use supabase_lab.Gate.Measure.{union_ms-count, count, covered, covers}

abbrev up_there : StatusComponent
up_there = record { id = "1"; name = "eu-west-1"; status = "operational" }

abbrev degraded : StatusComponent
degraded = record { id = "2"; name = "us-east-1"; status = "degraded_performance" }

abbrev odd : StatusComponent
odd = record { id = "3"; name = "eu-north-1"; status = "constructor" }

abbrev components : List StatusComponent
components = up_there ∷ degraded ∷ odd ∷ []

abbrev incident : String → String → StatusIncident
incident title status = record {
  id = "i1";
  name = title;
  status = status;
  impact = "major";
  created_at = "2026-10-01";
  resolved_at = some "2026-10-02";
  incident_updates = none;
}

abbrev in_ireland : StatusIncident
in_ireland = incident "Capacity in Ireland" "investigating"

abbrev in_virginia : StatusIncident
in_virginia = incident "Slow restarts in US-EAST-1" "monitoring"

abbrev snapshot : StatusSnapshot
snapshot = record { components = components; incidents = in_virginia ∷ []; error = none }

-- the dates of the examples
abbrev parse_date : String → Option ℕ
parse_date d =
    if str_eq d "2026-10-01" then some 5000 else if str_eq d "2026-10-02" then some 9000 else none

abbrev outage : Interval
outage = record { start_ms = 5000; end_ms = 9000 }

abbrev first_down : Interval
first_down = record { start_ms = 5; end_ms = 9 }

abbrev later_down : Interval
later_down = record { start_ms = 2; end_ms = 6 }

gating : Unit {0}
unfolding region_status rank outranks outranks_by worst_of distinct same_name status_among is_open
    incident_regions scope_of names_all_regions regions_in names_region has_word finds_word spaced
    aliases is_lifecycle finds literal incident_text lifecycle_words match_here is_word gate decide
    replay_blocks scope_blocks replay_interval interval_from or_now union_ms restart_wait_ms
    incident_note is_blocker lookup count covered covers
gating = tt

test-regions : incident_regions in_virginia ≡ (named_regions, "us-east-1" ∷ [])
unfolding gating
test-regions = refl

test-ireland : replay_blocks default_policy "eu-west-1" restart in_ireland ≡ true
unfolding gating
test-ireland = refl

test-virginia : replay_blocks default_policy "eu-west-1" restart in_virginia ≡ false
unfolding gating
test-virginia = refl

test-gate : (gate "eu-west-1" restart none none snapshot).proceed ≡ true
unfolding gating
test-gate = refl

test-union : union_ms (first_down ∷ later_down ∷ []) ≡ pos 7
unfolding gating
test-union = refl

test-interval :
    replay_interval parse_date 20000 in_ireland "eu-west-1" restart default_policy ≡ blocked outage
unfolding gating
test-interval = refl

test-wait : restart_wait_ms 1000 500000 ≡ 101000
unfolding gating
test-wait = refl

odd_only :
    (d : StatusComponent)
    → Memᴰ d components
    → d.name ≡ "eu-north-1"
    → includes str_eq d.status inherited ≡ true
odd_only d m named =
    All-at_mem (λ d. d.name ≡ "eu-north-1" → includes str_eq d.status inherited ≡ true) d components
      (
        λ e. absurd (ground (arith, (eq_iff "eu-west-1" "eu-north-1").1 e)),
        (λ e. absurd (ground (arith, (eq_iff "us-east-1" "eu-north-1").1 e)), (λ e. refl, tt)),
      )
      m named

region_status-inherited_example : (region_status components "eu-north-1").status ≡ "operational"
region_status-inherited_example =
    region_status-inherited components "eu-north-1" odd (Memᴰ.tail (Memᴰ.tail (Memᴰ.head refl)))
      refl odd_only

decide-proceed_iff_example :
    ((decide "eu-west-1" restart components (in_virginia ∷ []) default_policy).proceed ≡ true)
    ↔ IsClear default_policy "eu-west-1" restart components (in_virginia ∷ [])
decide-proceed_iff_example =
    decide-proceed_iff "eu-west-1" restart components (in_virginia ∷ []) default_policy

gate-IsSafe_example : IsSafe "eu-west-1" restart snapshot
gate-IsSafe_example = gate-IsSafe "eu-west-1" restart snapshot test-gate

union_ms-count_example :
    union_ms (first_down ∷ later_down ∷ [])
    ≡ pos (count (covered (first_down ∷ later_down ∷ [])) 10)
union_ms-count_example =
    union_ms-count 10 (first_down ∷ later_down ∷ [])
      ((omega arith, omega arith), ((omega arith, omega arith), tt))
