-- ===== src/Sampler/Windows.antt =====
-- What the reported windows say: their ends, the time in pauses, and the watchdog's early exit.
use supabase_lab.Common.{
  ℕ, ◌-◌, ◌≤◌, ◌≡◌, refl, ◌↔◌, ◌≢◌, String, Option, none, some, true, List, [], ◌∷◌, arith, All,
  Memᴰ, or_else, not, ◌||◌, mem_of_some_of,
}
use supabase_lab.Sampler.{
  PathState, PathWindow, Pause, SampleOptions, watch, overlaps, window_of, finalise, has_failed,
  has_recovered, all_settled, may_stop, sample_all, start,
}
use supabase_lab.Sampler.Trace.{Log}
use supabase_lab.Sampler.Invariant.{
  AfterFailure, InOrder, start-IsSound, sample_all-IsSound, last_time,
}

window_of_lem :
    (failed recovered : Option ℕ) (last : ℕ)
    → AfterFailure failed recovered last
    → ((window_of failed recovered ≢ none) ↔ (recovered ≢ none))
      × ((f r : ℕ)
          → failed ≡ some f
          → recovered ≡ some r
          → (window_of failed recovered ≡ some (r - f)) × (f ≤ r) × (r ≤ last))
unfolding window_of
window_of_lem none none last h = ((λ k e. k refl, λ k e. k refl), λ f r e k. cc)
window_of_lem none (some r) last h = absurd h
window_of_lem (some f) none last h = ((λ k e. k refl, λ k e. k refl), λ f r e k. cc)
window_of_lem (some f) (some r) last h = ((λ k e. cc, λ k e. cc), λ f' r' e k. ground arith)

-- Of a path sampled in order: a window has a length exactly when the path recovered, and it then
-- runs from the first failure to the recovery, which comes no earlier and no later than the last
-- sample.
pub finalise-window :
    (settle : ℕ) (name : String) (xs : Log) (pauses : List Pause) (end : ℕ)
    → InOrder 0 xs
    → let w = finalise (sample_all settle xs (start name)) pauses end in
      ((w.window_ms ≢ none) ↔ (w.recovered_ms ≢ none))
      × ((f r : ℕ)
          → w.first_fail_ms ≡ some f
          → w.recovered_ms ≡ some r
          → (w.window_ms ≡ some (r - f)) × (f ≤ r) × (r ≤ last_time 0 xs))
unfolding finalise
finalise-window settle name xs pauses end order =
    window_of_lem _ _ _
      (sample_all-IsSound settle 0 xs (start name) order (start-IsSound name)).recovered

-- the clock of the watchdog does not run backwards
abbrev pub IsRising : ℕ → List ℕ → Type 0
IsRising last [] = Unit
IsRising last (wall ∷ walls) = (last ≤ wall) × IsRising wall walls

-- the pauses lie one behind another
abbrev pub Consecutive : ℕ → List Pause → Type 0
Consecutive from [] = Unit
Consecutive from (p ∷ ps) = (from ≤ p.from_ms) × (p.from_ms ≤ p.to_ms) × Consecutive p.to_ms ps

Consecutive-weaken : (a b : ℕ) (ps : List Pause) → a ≤ b → Consecutive b ps → Consecutive a ps
Consecutive-weaken a b [] h c = tt
Consecutive-weaken a b (p ∷ ps) h c = (omega arith, c.1, c.2)

watch-Consecutive :
    (opts : SampleOptions) (last : ℕ) (walls : List ℕ)
    → IsRising last walls
    → Consecutive last (watch opts last walls)
unfolding watch
watch-Consecutive opts last [] h = tt
watch-Consecutive opts last (wall ∷ walls) h = ground (
  arith,
  watch-Consecutive opts wall walls h.1,
  Consecutive-weaken last wall (watch opts wall walls) h.0,
)

overlaps-le :
    (ps : List Pause) (from end : ℕ) → Consecutive from ps → overlaps ps 0 end ≤ end - from
unfolding overlaps
overlaps-le [] from end h = omega arith
overlaps-le (p ∷ ps) from end h = omega (arith, overlaps-le ps p.to_ms end h.2)

-- If the watchdog's readings of the clock never go back from 0, where it starts, the time that a
-- window reports as paused is never more than the time it covers: from the start of sampling, at 0,
-- to the recovery, or to the end of sampling without one.
pub finalise-paused_ms :
    (opts : SampleOptions) (s : PathState) (walls : List ℕ) (end : ℕ)
    → IsRising 0 walls
    → (finalise s (watch opts 0 walls) end).paused_ms ≤ or_else s.recovered_ms end
unfolding finalise
finalise-paused_ms opts s walls end h = omega (
  arith,
  overlaps-le (watch opts 0 walls) 0 (or_else s.recovered_ms end)
      (watch-Consecutive opts 0 walls h),
)

abbrev IsAccounted : PathWindow → Type 0
IsAccounted w = w.first_fail_ms ≢ none → w.window_ms ≢ none

settled-IsAccounted :
    (s : PathState) (pauses : List Pause) (end : ℕ)
    → (not (has_failed s) || has_recovered s) ≡ true
    → IsAccounted (finalise s pauses end)
unfolding has_failed has_recovered finalise
settled-IsAccounted s pauses end h = ground arith

all_settled-IsAccounted :
    (states : List PathState) (pauses : List Pause) (end : ℕ)
    → all_settled states ≡ true
    → All (λ s. IsAccounted (finalise s pauses end)) states
unfolding all_settled
all_settled-IsAccounted [] pauses end h = tt
all_settled-IsAccounted (s ∷ states) pauses end h = (
  settled-IsAccounted s pauses end (ground arith),
  all_settled-IsAccounted states pauses end (ground arith),
)

-- When the watchdog may stop early, at least one path failed, and every path that failed has a
-- window with a length, whatever the pauses.
pub may_stop-windows :
    (states : List PathState) (pauses : List Pause) (end : ℕ)
    → may_stop states ≡ true
    → ((s : PathState) × Memᴰ s states × (has_failed s ≡ true))
      × All
          (λ s.
            (finalise s pauses end).first_fail_ms ≢ none → (finalise s pauses end).window_ms ≢ none)
          states
unfolding may_stop
may_stop-windows states pauses end h = (
  mem_of_some_of has_failed states (ground arith),
  all_settled-IsAccounted states pauses end (ground arith),
)
