-- ===== src/Sampler/Invariant.antt =====
-- What holds of a path between two samples.
use supabase_lab.Common.{ℕ, ◌≤◌, ◌≡◌, ◌↔◌, String, Option, none, some, List, [], ◌∷◌, arith}
use supabase_lab.Sampler.{ProbeOutcome, PathState, sample, start, sample_all}

-- the clock does not run backwards: each sample starts no earlier than the one before
abbrev pub InOrder : ℕ → List (ℕ × ProbeOutcome) → Type 0
InOrder last [] = Unit
InOrder last ((at, outcome) ∷ xs) = (last ≤ at) × InOrder at xs

-- a time, if there is one, lies between the first failure and the last sample
abbrev pub AfterFailure : Option ℕ → Option ℕ → ℕ → Type 0
AfterFailure failed none last = Unit
AfterFailure none (some t) last = ⊥
AfterFailure (some f) (some t) last = (f ≤ t) × (t ≤ last)

abbrev pub Before : Option ℕ → ℕ → Type 0
Before none last = Unit
Before (some t) last = t ≤ last

pub record IsSound (last : ℕ) (s : PathState) : Type 0 where
  pub counted : s.failures ≤ s.samples
  pub clean : (s.failures ≡ 0) ↔ (s.first_fail_ms ≡ none)
  pub begun : (s.samples ≡ 0) ↔ (s.healthy_at_start ≡ none)
  pub failed : Before s.first_fail_ms last
  pub pending : AfterFailure s.first_fail_ms s.pending_recovery_ms last
  pub recovered : AfterFailure s.first_fail_ms s.recovered_ms last

pub start-IsSound : (name : String) → IsSound 0 (start name)
unfolding start
start-IsSound name = ground arith

pub sample-IsSound :
    (settle last at : ℕ) (outcome : ProbeOutcome) (s : PathState)
    → last ≤ at
    → IsSound last s
    → IsSound at (sample settle (at, outcome) s)
unfolding sample
sample-IsSound settle last at outcome s h v = ground arith

abbrev pub last_time : ℕ → List (ℕ × ProbeOutcome) → ℕ
last_time last [] = last
last_time last ((at, outcome) ∷ xs) = last_time at xs

-- Whatever the probes answer, a path's state stays sound while the clock does not run backwards:
-- failures are among the samples, there is a first failure exactly if something failed, and the
-- health at the start is known exactly if something was sampled; the first failure is no later than
-- the last sample, and a pending recovery, and a believed one, is between those two.
pub sample_all-IsSound :
    (settle last : ℕ) (xs : List (ℕ × ProbeOutcome)) (s : PathState)
    → InOrder last xs
    → IsSound last s
    → IsSound (last_time last xs) (sample_all settle xs s)
unfolding sample_all
sample_all-IsSound settle last [] s h v = v
sample_all-IsSound settle last ((at, outcome) ∷ xs) s h v =
    sample_all-IsSound settle at xs (sample settle (at, outcome) s) h.1
      (sample-IsSound settle last at outcome s h.0 v)
