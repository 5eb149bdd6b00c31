-- ===== src/Outage/Spans.antt =====
-- experiments/compute-disk/lib/outage.ts: what the loop over the samples makes of them.

use supabase_lab.Common.{
  subst, sym, ℕ, ◌+◌, ◌≤◌, ◌≡◌, refl, ap, ◌∙◌, inl, inr, Option, none, some, true, false, not, List,
  [], ◌∷◌, ◌++◌, filter, length, All, Memᴰ, arith, Bool-cases, leb→le, IsOrdered,
}
use supabase_lab.Outage.{
  Sample, PhaseMark, Outage, earlier, extend, close, close_open, outages_from, sum_of,
}

-- outages in order of time, none before `from`, each ending no earlier than it starts and before
-- the next begins, and only the last one open
unfoldable pub IsTimeline : ℕ → List Outage → Type 0
IsTimeline from [] = Unit
IsTimeline from (o ∷ os) =
    (from ≤ o.start_ms)
    × (o.start_ms ≤ o.end_ms)
    × (o.still_open ≡ true → os ≡ [])
    × IsTimeline o.end_ms os

-- the outage at hand began after `from`, and no sample to come is before it
pub StartsIn : ℕ → List Sample → Option Outage → Type 0
StartsIn from ss none = All (λ s. from ≤ s.at) ss
StartsIn from ss (some cur) = (from ≤ cur.start_ms) × All (λ s. cur.start_ms ≤ s.at) ss

All-earlier :
    (s : Sample) (ss : List Sample) → All (λ t. earlier s t ≡ true) ss → All (λ t. s.at ≤ t.at) ss
unfolding earlier
All-earlier s [] h = tt
All-earlier s (t ∷ ss) h = (leb→le s.at t.at h.0, All-earlier s ss h.1)

pub outages_from-IsTimeline :
    (phases : List PhaseMark) (end_ms : ℕ) (ss : List Sample) (cur : Option Outage) (from : ℕ)
    → IsOrdered earlier ss
    → StartsIn from ss cur
    → IsTimeline from (outages_from phases end_ms ss cur)
unfolding outages_from extend close close_open IsTimeline StartsIn
outages_from-IsTimeline phases end_ms [] none from o h = tt
outages_from-IsTimeline phases end_ms [] (some cur) from o h = (h.0, omega arith, λ _. refl, tt)
outages_from-IsTimeline phases end_ms (s ∷ ss) none from o h = elim (Bool-cases s.ok) [
  | inl e ↦ rw e (outages_from-IsTimeline phases end_ms ss none from o.1 h.1)
  | inr e ↦ rw e (
      outages_from-IsTimeline phases end_ms ss (some (extend phases none s)) from o.1
        (h.0, All-earlier s ss o.0))
]
outages_from-IsTimeline phases end_ms (s ∷ ss) (some cur) from o h = elim (Bool-cases s.ok) [
  | inl e ↦ rw e (
    h.0,
    h.1.0,
    λ k. absurd (ground (arith, k)),
    outages_from-IsTimeline phases end_ms ss none s.at o.1 (All-earlier s ss o.0),
  )
  | inr e ↦ rw e (
      outages_from-IsTimeline phases end_ms ss (some (extend phases (some cur) s)) from o.1
        (h.0, h.1.1))
]

unfoldable pub failures_of : Option Outage → ℕ
failures_of none = 0
failures_of (some cur) = cur.failures

pub outages_from-failures :
    (phases : List PhaseMark) (end_ms : ℕ) (ss : List Sample) (cur : Option Outage)
    → sum_of (λ o. o.failures) (outages_from phases end_ms ss cur)
      ≡ failures_of cur + length (filter (λ s. not s.ok) ss)
unfolding outages_from extend close close_open sum_of failures_of
outages_from-failures phases end_ms [] none = refl
outages_from-failures phases end_ms [] (some cur) = omega arith
outages_from-failures phases end_ms (s ∷ ss) none = ground (
  arith,
  outages_from-failures phases end_ms ss none,
  outages_from-failures phases end_ms ss (some (extend phases none s)),
)
outages_from-failures phases end_ms (s ∷ ss) (some cur) = ground (
  arith,
  outages_from-failures phases end_ms ss none,
  outages_from-failures phases end_ms ss (some (extend phases (some cur) s)),
)

-- an outage contains the time
abbrev pub Holds : ℕ → List Outage → Type 0
Holds t os = (o : Outage) × Memᴰ o os × (o.start_ms ≤ t) × (t ≤ o.end_ms)

-- the outage at hand is among the result, with its start, and lasts beyond `t`
outages_from-lasts :
    (phases : List PhaseMark) (end_ms : ℕ) (ss : List Sample) (cur : Outage) (t : ℕ)
    → All (λ s. t ≤ s.at) ss
    → t ≤ end_ms
    → (o : Outage) × Memᴰ o (outages_from phases end_ms ss (some cur))
      × (o.start_ms ≡ cur.start_ms)
      × (t ≤ o.end_ms)
unfolding outages_from extend close close_open
outages_from-lasts phases end_ms [] cur t h k = (_, Memᴰ.head refl, refl, omega arith)
outages_from-lasts phases end_ms (s ∷ ss) cur t h k = elim (Bool-cases s.ok) [
  | inl e ↦ rw e (_, Memᴰ.head refl, refl, h.0)
  | inr e ↦ rw e (outages_from-lasts phases end_ms ss (extend phases (some cur) s) t h.1 k)
]

Holds-close :
    (t : ℕ) (cur : Option Outage) (at : ℕ) (os : List Outage)
    → Holds t os
    → Holds t (close cur at ++ os)
unfolding close
Holds-close t none at os h = h
Holds-close t (some cur) at os (o, m, before, after) = (o, Memᴰ.tail m, before, after)

-- what is after `from` stays so when the outage at hand is extended or closed
pub after-StartsIn :
    (s : Sample) (ss : List Sample) → All (λ t. earlier s t ≡ true) ss → StartsIn s.at ss none
unfolding StartsIn
after-StartsIn s ss h = All-earlier s ss h

StartsIn-extend :
    (phases : List PhaseMark) (s : Sample) (ss : List Sample) (cur : Option Outage)
    → IsOrdered earlier (s ∷ ss)
    → StartsIn 0 (s ∷ ss) cur
    → StartsIn 0 ss (some (extend phases cur s)) × ((extend phases cur s).start_ms ≤ s.at)
unfolding StartsIn extend
StartsIn-extend phases s ss none o h = ((h.0, All-earlier s ss o.0), omega arith)
StartsIn-extend phases s ss (some cur) o h = ((h.0, h.1.1), h.1.0)

pub StartsIn-none : (ss : List Sample) → StartsIn 0 ss none
unfolding StartsIn
StartsIn-none [] = tt
StartsIn-none (s ∷ ss) = (omega arith, StartsIn-none ss)

pub outages_from-Holds :
    (phases : List PhaseMark) (end_ms : ℕ) (ss : List Sample) (cur : Option Outage) (s : Sample)
    → IsOrdered earlier ss
    → StartsIn 0 ss cur
    → All (λ s. s.at ≤ end_ms) ss
    → Memᴰ s ss
    → s.ok ≡ false
    → Holds s.at (outages_from phases end_ms ss cur)
unfolding outages_from
outages_from-Holds phases end_ms [] cur s o h k m f = elim m [ ]
outages_from-Holds phases end_ms (a ∷ ss) cur s o h k (Memᴰ.head same) f =
    let (_, before) = StartsIn-extend phases a ss cur o h in
    let (p, m', start, after) =
      outages_from-lasts phases end_ms ss (extend phases cur a) a.at (All-earlier a ss o.0) k.0 in
    let bad : a.ok ≡ false = ap (λ x. x.ok) (sym same) ∙ f in
    let held : Holds a.at (outages_from phases end_ms (a ∷ ss) cur) =
      simp bad (p, m', omega arith, after) in
    subst (λ (x : Sample). Holds x.at (outages_from phases end_ms (a ∷ ss) cur)) (sym same) held
outages_from-Holds phases end_ms (a ∷ ss) cur s o h k (Memᴰ.tail m) f = elim (Bool-cases a.ok) [
  | inl e ↦ rw e (
      Holds-close s.at cur a.at (outages_from phases end_ms ss none)
        (outages_from-Holds phases end_ms ss none s o.1 (StartsIn-none ss) k.1 m f))
  | inr e ↦
      let (starts, _) = StartsIn-extend phases a ss cur o h in
      simp e (outages_from-Holds phases end_ms ss (some (extend phases cur a)) s o.1 starts k.1 m f)
]
