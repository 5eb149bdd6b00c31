-- ===== src/Outage.antt =====
-- experiments/compute-disk/lib/outage.ts: the outages of a path that is sampled through several
-- phases. Times are milliseconds; a figure that the source gives in seconds, rounded to thousandths,
-- is its number of thousandths.
pub mod Spans
pub mod Timeline
pub mod Attribution
use supabase_lab.Common.{
  ℕ, suc, ◌+◌, ◌-◌, ◌*◌, ◌/◌, max, min, String, Option, none, some, Bool, true, false, not, ◌&&◌,
  ◌||◌, List, [], ◌∷◌, ◌++◌, map, filter, length, some_of, sort, leb, ltb, ◌==◌, or_else,
  if◌then◌else◌,
}

pub record Sample : Type 0 where
  pub at : ℕ
  pub ok : Bool

pub record PhaseMark : Type 0 where
  pub name : String
  pub start_ms : ℕ

pub record Outage : Type 0 where
  pub start_ms : ℕ
  pub end_ms : ℕ
  -- `none` is the source's -1: before the first phase
  pub phase : Option ℕ
  pub still_open : Bool
  pub failures : ℕ

pub record PhaseOutageStats : Type 0 where
  pub name : String
  pub samples : ℕ
  pub ok : ℕ
  pub failures : ℕ
  pub max_outage_s : ℕ
  pub max_outage_open : Bool
  pub total_outage_s : ℕ
  pub outages : ℕ
  pub open_at_phase_end : Bool
  pub carried_in_s : ℕ
  pub first_fail_s : Option ℕ
  pub last_recovery_s : Option ℕ

-- the loop of `phaseOf` from the phase with index `i`, with `idx` found so far
unfoldable pub phase_from : ℕ → ℕ → Option ℕ → List PhaseMark → Option ℕ
phase_from at i idx [] = idx
phase_from at i idx (p ∷ ps) = phase_from at (suc i) (if leb p.start_ms at then some i else idx) ps

unfoldable pub phase_of : ℕ → List PhaseMark → Option ℕ
unfolding phase_from
phase_of at phases = phase_from at 0 none phases

unfoldable pub earlier : Sample → Sample → Bool
earlier a b = leb a.at b.at

-- `cur` after a failed sample
unfoldable pub extend : List PhaseMark → Option Outage → Sample → Outage
unfolding phase_of
extend phases none s = record {
  start_ms = s.at;
  end_ms = s.at;
  phase = phase_of s.at phases;
  still_open = true;
  failures = 1;
}
extend phases (some cur) s = record cur { failures = cur.failures + 1 }

-- what a successful sample pushes
unfoldable pub close : Option Outage → ℕ → List Outage
close none at = []
close (some cur) at = record cur { end_ms = at; still_open = false } ∷ []

-- what the end of the stream pushes
unfoldable pub close_open : Option Outage → ℕ → List Outage
close_open none end_ms = []
close_open (some cur) end_ms = record cur { end_ms = max end_ms cur.start_ms } ∷ []

unfoldable pub outages_from : List PhaseMark → ℕ → List Sample → Option Outage → List Outage
unfolding extend close close_open
outages_from phases end_ms [] cur = close_open cur end_ms
outages_from phases end_ms (s ∷ ss) cur =
    let closed = close cur s.at ++ outages_from phases end_ms ss none in
    let longer = outages_from phases end_ms ss (some (extend phases cur s)) in
    if s.ok then closed else longer

unfoldable pub outages_of : List Sample → List PhaseMark → ℕ → List Outage
unfolding outages_from sort earlier
outages_of samples phases end_ms = outages_from phases end_ms (sort earlier samples) none

abbrev pub duration : Outage → ℕ
duration o = o.end_ms - o.start_ms

longest_of : Option Outage → List Outage → Option Outage
longest_of longest [] = longest
longest_of none (o ∷ os) = longest_of (some o) os
longest_of (some l) (o ∷ os) = longest_of (some (if ltb (duration l) (duration o) then o else l)) os

-- the phase is one before `i`
is_before : Option ℕ → ℕ → Bool
is_before none i = false
is_before (some p) i = ltb p i

unfoldable pub is_phase : ℕ → Option ℕ → Bool
is_phase i none = false
is_phase i (some p) = p == i

-- the time of the phase from `start` to `end` inside outages of earlier phases
carried_in : ℕ → ℕ → ℕ → List Outage → ℕ
unfolding is_before
carried_in i start end [] = 0
carried_in i start end (o ∷ os) =
    let rest = carried_in i start end os in
    if is_before o.phase i then (min o.end_ms end - max o.start_ms start) + rest else rest

is_running_at : ℕ → Outage → Bool
is_running_at end o = ltb o.start_ms end && (ltb end o.end_ms || (o.still_open && leb end o.end_ms))

unfoldable pub sum_of {ℓ} : {A : Type ℓ} → (A → ℕ) → List A → ℕ
sum_of f [] = 0
sum_of f (x ∷ xs) = f x + sum_of f xs

abbrev first_of {ℓ} : {A : Type ℓ} → List A → Option A
first_of [] = none
first_of (x ∷ xs) = some x

abbrev last_of {ℓ} : {A : Type ℓ} → List A → Option A
last_of [] = none
last_of (x ∷ []) = some x
last_of (x ∷ y ∷ xs) = last_of (y ∷ xs)

abbrev map_option {ℓ κ} : {A : Type ℓ} {B : Type κ} → (A → B) → Option A → Option B
map_option f none = none
map_option f (some a) = some (f a)

unfoldable pub own_outages : ℕ → List Outage → List Outage
unfolding is_phase
own_outages i outages = filter (λ o. is_phase i o.phase) outages

unfoldable pub own_samples : ℕ → List Sample → List PhaseMark → List Sample
unfolding is_phase phase_of
own_samples i samples phases = filter (λ s. is_phase i (phase_of s.at phases)) samples

unfoldable pub phase_stats :
    List Sample → List PhaseMark → List Outage → ℕ → PhaseMark → ℕ → PhaseOutageStats
unfolding own_outages own_samples longest_of carried_in is_running_at sum_of
phase_stats samples phases outages i p phase_end =
    let mine = own_samples i samples phases in
    let own = own_outages i outages in
    let longest = longest_of none own in
    record {
      name = p.name;
      samples = length mine;
      ok = length (filter (λ s. s.ok) mine);
      failures = length (filter (λ s. not s.ok) mine);
      max_outage_s = or_else (map_option duration longest) 0;
      max_outage_open = or_else (map_option (λ o. o.still_open) longest) false;
      total_outage_s = sum_of duration own;
      outages = length own;
      open_at_phase_end = some_of (is_running_at phase_end) outages;
      carried_in_s = carried_in i p.start_ms phase_end outages;
      first_fail_s = map_option (λ o. o.start_ms - p.start_ms) (first_of own);
      last_recovery_s = map_option (λ o. o.end_ms - p.start_ms) (last_of own);
    }

-- the end of a phase, from the phases behind it
unfoldable pub phase_end : List PhaseMark → ℕ → ℕ
phase_end [] end_ms = end_ms
phase_end (next ∷ ps) end_ms = next.start_ms

-- `phases.map` from the phase with index `i`
unfoldable pub attribute_from :
    List Sample → List PhaseMark → List Outage → ℕ → ℕ → List PhaseMark → List PhaseOutageStats
unfolding phase_stats phase_end
attribute_from samples phases outages end_ms i [] = []
attribute_from samples phases outages end_ms i (p ∷ ps) =
    phase_stats samples phases outages i p (phase_end ps end_ms)
    ∷ attribute_from samples phases outages end_ms (suc i) ps

unfoldable pub attribute : List Sample → List PhaseMark → ℕ → List PhaseOutageStats
unfolding attribute_from outages_of
attribute samples phases end_ms =
    attribute_from samples phases (outages_of samples phases end_ms) end_ms 0 phases

-- `OutageTimeline`
pub record OutageTimeline : Type 0 where
  pub samples : List Sample
  pub phases : List PhaseMark

unfoldable pub begin_phase : String → ℕ → OutageTimeline → OutageTimeline
begin_phase name at t = record t { phases = t.phases ++ record { name = name; start_ms = at } ∷ [] }

unfoldable pub add : Bool → ℕ → OutageTimeline → OutageTimeline
add ok at t = record t { samples = t.samples ++ record { at = at; ok = ok } ∷ [] }

unfoldable pub later_of : Option ℕ → ℕ → ℕ
later_of none at = at
later_of (some last) at = if ltb last at then at else last

unfoldable pub last_fail_from : Option ℕ → List Sample → Option ℕ
unfolding later_of
last_fail_from last [] = last
last_fail_from last (s ∷ ss) = last_fail_from (if s.ok then last else some (later_of last s.at)) ss

unfoldable pub last_fail_ms : OutageTimeline → Option ℕ
unfolding last_fail_from
last_fail_ms t = last_fail_from none t.samples

unfoldable pub stats : ℕ → OutageTimeline → List PhaseOutageStats
unfolding attribute
stats end_ms t = attribute t.samples t.phases end_ms

-- `openTailLowerBound`, of the figures of one phase: the failures that no closed outage can hold,
-- and the shortest time that they take. The longest closed outage is in milliseconds; the
-- interval is not 0.
unfoldable pub open_tail_lower_bound : ℕ → ℕ → ℕ → ℕ → ℕ × ℕ
open_tail_lower_bound ok total max_closed_ms interval_ms =
    let closed = if ltb 0 max_closed_ms then ok * (max_closed_ms / interval_ms) else 0 in
    let tail = total - ok - closed in (tail, if ltb 0 tail then (tail - 1) * interval_ms else 0)
