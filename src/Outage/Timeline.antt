-- ===== src/Outage/Timeline.antt =====
-- The outages of a path against its samples.
use mathlib.Core.List.Memᴰ
use supabase_lab.Common.{
  ℕ, ◌≤◌, ◌≡◌, ◌∙◌, ◌⊎◌, inl, inr, Option, none, some, true, false, not, List, [], ◌∷◌, filter,
  length, All, All-at_mem, All-of_mem, All-sort, All-of_sort, Memᴰ, arith, Bool-cases, leb→le, sort,
  IsOrdered, sort-IsOrdered, length-filter-sort,
}
use supabase_lab.Outage.{
  Sample, PhaseMark, Outage, earlier, extend, close, outages_from, outages_of, sum_of,
}
use supabase_lab.Outage.Spans.{
  IsTimeline, outages_from-IsTimeline, failures_of, outages_from-failures, Holds, after-StartsIn,
  StartsIn-none, outages_from-Holds,
}

start-IsTimeline :
    (from : ℕ) (os : List Outage) (o : Outage) → IsTimeline from os → Memᴰ o os → from ≤ o.start_ms
unfolding IsTimeline
start-IsTimeline from [] o h m = elim m [ ]
start-IsTimeline from (p ∷ os) o (start, proper, _, h) (Memᴰ.head same) = rw same start
start-IsTimeline from (p ∷ os) o (start, proper, _, h) (Memᴰ.tail m) =
    omega (arith, start-IsTimeline p.end_ms os o h m)

-- the time is not inside the outage
abbrev pub IsOutside : ℕ → Outage → Type 0
IsOutside t o = (o.end_ms ≤ t) ⊎ (t ≤ o.start_ms)

outages_from-IsOutside :
    (phases : List PhaseMark) (end_ms : ℕ) (ss : List Sample) (cur : Option Outage) (s : Sample)
    (o : Outage)
    → IsOrdered earlier ss
    → Memᴰ s ss
    → s.ok ≡ true
    → Memᴰ o (outages_from phases end_ms ss cur)
    → IsOutside s.at o
unfolding outages_from close earlier
outages_from-IsOutside phases end_ms [] cur s p o m t n = elim m [ ]
outages_from-IsOutside phases end_ms (a ∷ ss) none s p o (Memᴰ.head same) t n =
    let good : a.ok ≡ true = rw (← same) t in
    inr (
      rw same (
        start-IsTimeline a.at _ p
          (outages_from-IsTimeline phases end_ms ss none a.at o.1 (after-StartsIn a ss o.0))
          (rw good at n)))
outages_from-IsOutside phases end_ms (a ∷ ss) (some cur) s p o (Memᴰ.head same) t n =
    let good : a.ok ≡ true = rw (← same) t in
    elim (Memᴰ.cases_cons (rw good at n)) [
      | inl here ↦ inl (rw (here, same) (omega arith))
      | inr later ↦ inr (
          rw same (
            start-IsTimeline a.at _ p
              (outages_from-IsTimeline phases end_ms ss none a.at o.1 (after-StartsIn a ss o.0))
              later))
    ]
outages_from-IsOutside phases end_ms (a ∷ ss) none s p o (Memᴰ.tail m) t n =
    elim (Bool-cases a.ok) [
      | inl e ↦ outages_from-IsOutside phases end_ms ss none s p o.1 m t (rw e at n)
      | inr e ↦
          outages_from-IsOutside phases end_ms ss (some (extend phases none a)) s p o.1 m t
            (rw e at n)
    ]
outages_from-IsOutside phases end_ms (a ∷ ss) (some cur) s p o (Memᴰ.tail m) t n =
    elim (Bool-cases a.ok) [
      | inl e ↦ elim (Memᴰ.cases_cons (rw e at n)) [
        | inl here ↦
            inl (rw here (leb→le a.at s.at (All-at_mem (λ t. earlier a t ≡ true) s ss o.0 m)))
        | inr later ↦ outages_from-IsOutside phases end_ms ss none s p o.1 m t later
      ]
      | inr e ↦
          outages_from-IsOutside phases end_ms ss (some (extend phases (some cur) a)) s p o.1 m t
            (rw e at n)
    ]

earlier-total : (a b : Sample) → (earlier a b ≡ true) ⊎ (earlier b a ≡ true)
unfolding earlier
earlier-total a b = ground arith

earlier_trans : (a b c : Sample) → earlier a b ≡ true → earlier b c ≡ true → earlier a c ≡ true
unfolding earlier
earlier_trans a b c h k = ground arith

-- the outages account for the samples
pub record IsAccount (samples : List Sample) (os : List Outage) : Type 0 where
  pub timeline : IsTimeline 0 os
  pub counted : sum_of (λ o. o.failures) os ≡ length (filter (λ s. not s.ok) samples)
  pub held : All (λ s. s.ok ≡ false → Holds s.at os) samples
  pub outside : All (λ s. s.ok ≡ true → (o : Outage) → Memᴰ o os → IsOutside s.at o) samples

-- Whatever the order of the samples, none of them after the end of the stream: the outages follow
-- one another without overlap, and only the last may be open; every failed sample is counted in one
-- and lies in one; and no successful sample lies strictly inside one.
pub outages_of-IsAccount :
    (samples : List Sample) (phases : List PhaseMark) (end_ms : ℕ)
    → All (λ s. s.at ≤ end_ms) samples
    → IsAccount samples (outages_of samples phases end_ms)
unfolding outages_of failures_of
outages_of-IsAccount samples phases end_ms h =
    let sorted = sort earlier samples in
    let ordered = sort-IsOrdered earlier earlier-total earlier_trans samples in
    record {
      timeline = outages_from-IsTimeline phases end_ms sorted none 0 ordered (StartsIn-none sorted);
      counted =
          outages_from-failures phases end_ms sorted none
          ∙ omega arith
          ∙ length-filter-sort earlier (λ s. not s.ok) samples;
      held = All-of_sort earlier _ samples (
          All-of_mem _ sorted λ s m f.
            outages_from-Holds phases end_ms sorted none s ordered (StartsIn-none sorted)
              (All-sort earlier _ samples h) m f);
      outside = All-of_sort earlier _ samples (
          All-of_mem _ sorted
            λ s m t p n. outages_from-IsOutside phases end_ms sorted none s p ordered m t n);
    }
