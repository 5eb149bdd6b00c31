-- ===== src/Examples/Measuring.antt =====
-- The outage figures of experiments/compute-disk/lib on a stream of six samples.
use supabase_lab.Common.{
  none, Option, Bool, ℕ, ◌+◌, ◌≡◌, refl, some, true, false, List, [], ◌∷◌, arith, filter, length,
  sort, insert_sorted,
}
use supabase_lab.Outage.{
  begin_phase, add, stats, open_tail_lower_bound, last_fail_ms, last_fail_from, later_of, Sample,
  PhaseMark, outages_of, outages_from, phase_of, phase_from, extend, close, close_open, earlier,
  sum_of, duration, attribute,
}
use supabase_lab.Outage.Timeline.{IsAccount, outages_of-IsAccount}
use supabase_lab.Outage.Attribution.{attribute-total, is_unphased}
use supabase_lab.DiskChange.{
  DiskAttrs, PathSample, attrs_reached, reads_back, same_number, max_ok_gap_ms, gap_from, phase_at,
  phase_name_from, next_allowed_ms, min_size_gb_for_iops, quantile, rank_of, element,
}

abbrev samples : List Sample
samples =
    record { at = 100; ok = true }
    ∷ record { at = 300; ok = false }
    ∷ record { at = 200; ok = false }
    ∷ record { at = 400; ok = true }
    ∷ record { at = 500; ok = false }
    ∷ record { at = 50; ok = false }
    ∷ []

abbrev phases : List PhaseMark
phases =
    record { name = "resize"; start_ms = 100 } ∷ record { name = "settle"; start_ms = 450 } ∷ []

three_outages : length (outages_of samples phases 600) ≡ 3
unfolding outages_of outages_from phase_of phase_from extend close close_open earlier sort
    insert_sorted
three_outages = refl

median : quantile (5 ∷ 1 ∷ 9 ∷ 3 ∷ []) 1 2 ≡ some 3
unfolding quantile rank_of element sort insert_sorted
median = refl

size_for_16000 : min_size_gb_for_iops 16000 ≡ 32
unfolding min_size_gb_for_iops
size_for_16000 = refl

outages_of-IsAccount_example : IsAccount samples (outages_of samples phases 600)
outages_of-IsAccount_example =
    outages_of-IsAccount samples phases 600
      (omega arith, (omega arith, (omega arith, (omega arith, (omega arith, (omega arith, tt))))))

attribute-total_example :
    (sum_of (λ s. s.total_outage_s) (attribute samples phases 600)
        + sum_of duration (filter (λ o. is_unphased o.phase) (outages_of samples phases 600))
      ≡ sum_of duration (outages_of samples phases 600))
    × (sum_of (λ s. s.samples) (attribute samples phases 600)
          + length (filter (λ s. is_unphased (phase_of s.at phases)) samples)
        ≡ 6)
attribute-total_example = attribute-total samples phases 600

abbrev wanted : DiskAttrs
wanted = record { type_of = some "gp3"; size_gb = some 32; iops = none; throughput_mibps = none }

abbrev read_back : Option ℕ → DiskAttrs
read_back size = record {
  type_of = some "gp3";
  size_gb = size;
  iops = some 3000;
  throughput_mibps = none;
}

attrs_match :
    (attrs_reached (some (read_back (some 32))) wanted ≡ true)
    × (attrs_reached (some (read_back none)) wanted ≡ false)
unfolding attrs_reached reads_back same_number
attrs_match = (refl, refl)

abbrev path_sample : ℕ → Bool → PathSample
path_sample at ok = record { at = at; ok = ok; ms = 5; error = none }

-- the gap of a phase counts from the last success before it, and a phase without one is a gap to its end
gaps :
    (max_ok_gap_ms (path_sample 10 true ∷ path_sample 20 false ∷ path_sample 90 true ∷ []) 50 100
      ≡ 80)
    × (max_ok_gap_ms (path_sample 10 true ∷ path_sample 20 false ∷ []) 50 100 ≡ 90)
unfolding max_ok_gap_ms gap_from
gaps = (refl, refl)

phase_of_a_time : phase_at phases 460 ≡ "settle"
unfolding phase_at phase_name_from
phase_of_a_time = refl

retry_after :
    next_allowed_ms
      (record { hours = none; last_modified_ms = some 1000; last_modified_text = "" })
      5000
      4
    ≡ 14401000
unfolding next_allowed_ms
retry_after = refl

latest_failure : last_fail_ms (record { samples = samples; phases = phases }) ≡ some 500
unfolding last_fail_ms last_fail_from later_of
latest_failure = refl

collected :
    stats 600 (add false 300 (begin_phase "resize" 100 (record { samples = []; phases = [] })))
    ≡ attribute
        (record { at = 300; ok = false } ∷ [])
        (record { name = "resize"; start_ms = 100 } ∷ [])
        600
unfolding stats add begin_phase
collected = refl

open_tail : open_tail_lower_bound 2 10 3000 1000 ≡ (2, 1000)
unfolding open_tail_lower_bound
open_tail = refl
