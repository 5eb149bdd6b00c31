-- ===== src/Examples/Probing.antt =====
-- Three feature probes on a connection that counts its statements.
use supabase_lab.Common.{◌≡◌, refl, ℕ, suc, none, some, true, false, [], ◌∷◌, lookup, set_key}
use supabase_lab.Matrix.{
  FeatureOutcome, Feature, worked, threw, outcome_of, error_text, run_features, to_measurements,
  add_measurements, cell_of, ok_text, summarise_row, row_of, broken_of, Prior, regression_verdict,
  compare_prior, render_evidence,
}

abbrev prepare : Feature ℕ
prepare = record { name = "prepare"; run = λ n. (worked (some "pid 7"), suc n) }

abbrev unlock : Feature ℕ
unlock = record { name = "unlock"; run = λ n. (threw "  not\n held ", suc n) }

abbrev first : FeatureOutcome
first = record { name = "prepare"; ok = true; error = ""; note = some "pid 7" }

abbrev second : FeatureOutcome
second = record { name = "unlock"; ok = false; error = "not held"; note = none }

abbrev again : FeatureOutcome
again = record { name = "unlock"; ok = true; error = ""; note = none }

probing : Unit {0}
unfolding outcome_of error_text run_features to_measurements add_measurements cell_of ok_text
    summarise_row row_of broken_of regression_verdict compare_prior render_evidence lookup set_key
probing = tt

test-run : run_features (prepare ∷ unlock ∷ []) 0 ≡ (first ∷ second ∷ [], 2)
unfolding probing
test-run = refl

test-measurements :
    to_measurements (first ∷ second ∷ []) 5
    ≡ ("prepare", "ok (pid 7)") ∷ ("unlock", "failed: not h...") ∷ []
unfolding probing
test-measurements = refl

test-evidence : render_evidence (first ∷ second ∷ []) ≡ "prepare: ok (pid 7)\nunlock: not held"
unfolding probing
test-evidence = refl

test-row : (summarise_row (first ∷ second ∷ []) false).detail ≡ "1/2 unsupported: unlock"
unfolding probing
test-row = refl

abbrev prior : Prior
prior = record { label = "P07"; ok = true }
