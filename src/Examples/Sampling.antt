-- ===== src/Examples/Sampling.antt =====
-- harness/src/sampler.ts on a path that fails twice and comes back.
use supabase_lab.Common.{◌≤◌, ◌≡◌, refl, true, false, none, some, List, [], ◌∷◌, or_else, arith}
use supabase_lab.Sampler.{
  ProbeOutcome, PathState, SampleOptions, start, sample_all, watch, finalise, has_recovered,
}
use supabase_lab.Sampler.Invariant.{IsSound, start-IsSound, last_time, sample_all-IsSound}
use supabase_lab.Sampler.Trace.{Log, Sustained}
use supabase_lab.Sampler.Recovery.{sample_all-Sustained}
use supabase_lab.Sampler.Completeness.{sample_all-recovers}
use supabase_lab.Sampler.Windows.{finalise-paused_ms}

abbrev up : ProbeOutcome
up = record { succeeded = true; error = none }

abbrev down : ProbeOutcome
down = record { succeeded = false; error = some "ECONNREFUSED" }

abbrev log : Log
log = (0, up) ∷ (100, down) ∷ (200, up) ∷ (300, down) ∷ (400, up) ∷ (900, up) ∷ (1400, up) ∷ []

abbrev options : SampleOptions
options = record {
  interval_ms = 100;
  max_wait_ms = 5000;
  settle_ms = 800;
  sample_deadline_ms = none;
}

recovers_at_400 : (sample_all 800 log (start "pooler")).recovered_ms ≡ some 400
unfolding sample_all start
recovers_at_400 = refl

sustained : Sustained 800 log 400
sustained = sample_all-Sustained 800 "pooler" log 400 recovers_at_400

sample_all-IsSound_example : IsSound (last_time 0 log) (sample_all 800 log (start "pooler"))
sample_all-IsSound_example =
    sample_all-IsSound 800 0 log (start "pooler") (omega arith) (start-IsSound "pooler")

sample_all-Sustained_example : Sustained 800 log 400
sample_all-Sustained_example = sample_all-Sustained 800 "pooler" log 400 recovers_at_400

sample_all-recovers_example : has_recovered (sample_all 800 log (start "pooler")) ≡ true
sample_all-recovers_example = sample_all-recovers 800 "pooler" log 400 (omega arith) sustained

finalise-paused_ms_example :
    (finalise
      (sample_all 800 log (start "pooler"))
      (watch options 0 (100 ∷ 60200 ∷ []))
      60300).paused_ms
    ≤ or_else (sample_all 800 log (start "pooler")).recovered_ms 60300
finalise-paused_ms_example =
    finalise-paused_ms options (sample_all 800 log (start "pooler")) (100 ∷ 60200 ∷ []) 60300
      (omega arith)

abbrev states : List PathState
states = sample_all 800 log (start "pooler") ∷ []
