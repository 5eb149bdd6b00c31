-- ===== src/Gate/Replay.antt =====
-- The replay of past incidents in gate.ts, the time that a set of intervals covers, and the age
-- before which a project cannot be restarted. `Date.parse` and `Date.now()` are parameters; a time
-- is a number of milliseconds since 1970, and `none` is NaN.
use supabase_lab.Common.{
  ℕ, zero, suc, ◌+◌, ◌-◌, String, Option, none, some, Bool, true, ◌&&◌, List, [], ◌∷◌, includes,
  str_eq, ltb, leb, or_else, sort, if◌then◌else◌, ℤ, pos, diff, ◌+ℤ◌,
}
use supabase_lab.Gate.{Op, StatusIncident}
use supabase_lab.Gate.Wording.{
  Scope, named_regions, body_regions, all_regions, unscoped, incident_regions, is_lifecycle,
}
use supabase_lab.Gate.Decide.{Policy}

pub record Interval : Type 0 where
  pub start_ms : ℕ
  pub end_ms : ℕ

pub data Replay : Type 0 where
  -- the source's `null`
  no_block bad_interval : Replay
  blocked : Interval → Replay

unfoldable pub scope_blocks : Policy → String → Bool → Scope → List String → Bool
scope_blocks policy region lifecycle all_regions found = true
scope_blocks policy region lifecycle named_regions found = includes str_eq region found
scope_blocks policy region lifecycle body_regions found = includes str_eq region found && lifecycle
scope_blocks policy region lifecycle unscoped found = lifecycle && policy.block_unscoped_lifecycle

unfoldable pub replay_blocks : Policy → String → Op → StatusIncident → Bool
unfolding scope_blocks
replay_blocks policy region op inc =
    let (scope, found) = incident_regions inc in
    scope_blocks policy region (is_lifecycle op inc) scope found

-- `parsed || Date.now()`
unfoldable pub or_now : Option ℕ → ℕ → ℕ
or_now none now = now
or_now (some zero) now = now
or_now (some (suc t)) now = suc t

unfoldable pub interval_from : Option ℕ → ℕ → Replay
interval_from none end = bad_interval
interval_from (some start) end =
    if leb start end then blocked (record { start_ms = start; end_ms = end }) else bad_interval

module _ (parse_date : String → Option ℕ) (now : ℕ) where
  unfoldable pub replay_interval : StatusIncident → String → Op → Policy → Replay
  unfolding replay_blocks interval_from or_now
  replay_interval inc region op policy =
      if replay_blocks policy region op inc
      then interval_from (parse_date inc.created_at)
          (or_now (parse_date (or_else inc.resolved_at "")) now)
      else no_block

unfoldable pub starts_le : Interval → Interval → Bool
starts_le a b = leb a.start_ms b.start_ms

-- one round of the sweep with an interval open: the total and the interval open afterwards
unfoldable pub absorb : ℤ → Interval → Interval → ℤ × Interval
unfolding ◌+ℤ◌
absorb total cur i =
    if ltb cur.end_ms i.start_ms
    then (total +ℤ diff cur.end_ms cur.start_ms, i)
    else if ltb cur.end_ms i.end_ms
    then (total, record cur { end_ms = i.end_ms })
    else (total, cur)

-- `none` stands for `curEnd` at `-Infinity`
unfoldable pub sweep : ℤ → Option Interval → List Interval → ℤ
unfolding absorb
sweep total none [] = total
sweep total (some cur) [] = total +ℤ diff cur.end_ms cur.start_ms
sweep total none (i ∷ is) = sweep total (some i) is
sweep total (some cur) (i ∷ is) =
    let (total', cur') = absorb total cur i in sweep total' (some cur') is

unfoldable pub union_ms : List Interval → ℤ
unfolding sweep sort starts_le
union_ms intervals = sweep (pos 0) none (sort starts_le intervals)

abbrev pub restart_min_age_ms : ℕ
restart_min_age_ms = 600000

-- `Math.max(0, completed + age - now)`: the subtraction of ℕ is at least 0 already
unfoldable pub restart_wait_ms : ℕ → ℕ → ℕ
restart_wait_ms create_completed_at_ms now_ms = create_completed_at_ms + restart_min_age_ms - now_ms
