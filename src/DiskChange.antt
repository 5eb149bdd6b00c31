-- ===== src/DiskChange.antt =====
-- experiments/compute-disk/lib/disk-change.ts: the size that a disk needs for its IOPS, when the
-- platform accepts a change, and what each phase of a live change did to a path. Times are
-- milliseconds, figures in seconds are their thousandths.
pub mod Rank
use supabase_lab.Common.{
  ℕ, zero, suc, ◌+◌, ◌-◌, ◌*◌, ◌/◌, max, min, String, Option, none, some, Bool, true, false, not,
  ◌&&◌, List, [], ◌∷◌, map, filter, length, sort, leb, ltb, ◌==◌, str_eq, or_else, if◌then◌else◌,
}
use supabase_lab.Outage.{Sample, PhaseMark, PhaseOutageStats, attribute, phase_end}

abbrev gp3_min_iops : ℕ
gp3_min_iops = 3000

abbrev gp3_iops_per_gb : ℕ
gp3_iops_per_gb = 500

-- `Math.ceil(a / 500)`
unfoldable pub min_size_gb_for_iops : ℕ → ℕ
min_size_gb_for_iops iops = (max iops gp3_min_iops + (gp3_iops_per_gb - 1)) / gp3_iops_per_gb

pub record DiskAttrs : Type 0 where
  pub type_of : Option String
  pub size_gb : Option ℕ
  pub iops : Option ℕ
  pub throughput_mibps : Option ℕ

-- `target[k] === undefined || got[k] === target[k]`
unfoldable pub reads_back {ℓ} : {A : Type ℓ} → (A → A → Bool) → Option A → Option A → Bool
reads_back same got none = true
reads_back same none (some t) = false
reads_back same (some g) (some t) = same g t

unfoldable pub same_number : ℕ → ℕ → Bool
same_number a b = a == b

unfoldable pub attrs_reached : Option DiskAttrs → DiskAttrs → Bool
unfolding reads_back same_number
attrs_reached none target = false
attrs_reached (some got) target =
    reads_back str_eq got.type_of target.type_of
    && (reads_back same_number got.size_gb target.size_gb
        && (reads_back same_number got.iops target.iops
            && reads_back same_number got.throughput_mibps target.throughput_mibps))

pub record Cooldown : Type 0 where
  pub hours : Option ℕ
  pub last_modified_ms : Option ℕ
  pub last_modified_text : String

unfoldable pub next_allowed_ms : Cooldown → ℕ → ℕ → ℕ
next_allowed_ms c from_ms default_hours =
    or_else c.last_modified_ms from_ms + or_else c.hours default_hours * 3600000

pub record PathSample : Type 0 where
  pub at : ℕ
  pub ok : Bool
  pub ms : ℕ
  pub error : Option String

pub record PathPhaseStats : Type 0 where
  pub phase : String
  pub start_ms : ℕ
  pub end_ms : ℕ
  pub samples : ℕ
  pub failures : ℕ
  pub outages : ℕ
  pub max_outage_s : ℕ
  pub max_outage_open : Bool
  pub max_gap_s : ℕ
  pub p50_ms : Option ℕ
  pub max_ms : Option ℕ
  pub first_fail_s : Option ℕ

-- `s[k]`
unfoldable pub element {ℓ} : {A : Type ℓ} → List A → ℕ → Option A
element [] k = none
element (x ∷ xs) zero = some x
element (x ∷ xs) (suc k) = element xs k

-- `Math.min(n - 1, Math.max(0, Math.ceil(q * n) - 1))` for q = num / den
unfoldable pub rank_of : ℕ → ℕ → ℕ → ℕ
rank_of num den n = min (n - 1) ((num * n + (den - 1)) / den - 1)

unfoldable pub quantile : List ℕ → ℕ → ℕ → Option ℕ
unfolding element sort rank_of
quantile xs num den = element (sort leb xs) (rank_of num den (length xs))

-- the rest of the loop of `maxOkGapMs`: the last success, the longest gap and whether the window
-- has a success. At the end, the gap to the window's end if it has none.
unfoldable pub gap_from : ℕ → ℕ → Option ℕ → ℕ → Bool → List PathSample → ℕ
gap_from from to prev longest any [] = if any then longest else to - or_else prev from
gap_from from to prev longest any (s ∷ ss) =
    let skipped = gap_from from to prev longest any ss in
    let before = gap_from from to (some s.at) longest any ss in
    let inside = gap_from from to (some s.at) (max longest (s.at - or_else prev from)) true ss in
    let stopped = if any then longest else to - or_else prev from in
    if not s.ok
    then skipped
    else if ltb s.at from
    then before
    else if leb to s.at
    then stopped
    else inside

unfoldable pub max_ok_gap_ms : List PathSample → ℕ → ℕ → ℕ
unfolding gap_from
max_ok_gap_ms samples from to = gap_from from to none 0 false samples

path_earlier : PathSample → PathSample → Bool
path_earlier a b = leb a.at b.at

max_of : List ℕ → Option ℕ
max_of [] = none
max_of (x ∷ []) = some x
max_of (x ∷ y ∷ xs) = max_of (max x y ∷ xs)

stats_of : List PathSample → PhaseMark → ℕ → PhaseOutageStats → PathPhaseStats
unfolding max_ok_gap_ms quantile max_of
stats_of sorted p end a =
    let mine = filter (λ s. leb p.start_ms s.at && ltb s.at end) sorted in
    let ok_ms = map (λ s. s.ms) (filter (λ s. s.ok) mine) in
    record {
      phase = p.name;
      start_ms = p.start_ms;
      end_ms = end;
      samples = length mine;
      failures = length (filter (λ s. not s.ok) mine);
      outages = a.outages;
      max_outage_s = a.max_outage_s;
      max_outage_open = a.max_outage_open;
      max_gap_s = max_ok_gap_ms sorted p.start_ms end;
      p50_ms = quantile ok_ms 1 2;
      max_ms = max_of ok_ms;
      first_fail_s = a.first_fail_s;
    }

-- the phases with their statistics, of which there are as many
zip_stats : List PathSample → ℕ → List PhaseMark → List PhaseOutageStats → List PathPhaseStats
unfolding stats_of phase_end
zip_stats sorted end_ms (p ∷ ps) (a ∷ att) =
    stats_of sorted p (phase_end ps end_ms) a ∷ zip_stats sorted end_ms ps att
zip_stats sorted end_ms _ _ = []

path_phase_stats : List PathSample → List PhaseMark → ℕ → List PathPhaseStats
unfolding zip_stats sort path_earlier attribute
path_phase_stats samples phases end_ms =
    let sorted = sort path_earlier samples in
    zip_stats sorted end_ms phases
      (attribute (map (λ s. record { at = s.at; ok = s.ok }) sorted) phases end_ms)

unfoldable pub phase_name_from : String → ℕ → List PhaseMark → String
phase_name_from name at [] = name
phase_name_from name at (p ∷ ps) =
    phase_name_from (if leb p.start_ms at then p.name else name) at ps

unfoldable pub phase_at : List PhaseMark → ℕ → String
unfolding phase_name_from
phase_at phases at = phase_name_from "" at phases
