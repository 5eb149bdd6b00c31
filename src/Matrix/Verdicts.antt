-- ===== src/Matrix/Verdicts.antt =====
-- What the rows and verdicts of matrix.ts say.
use mathlib.Core.Option.{some-injective}
use supabase_lab.Common.{
  eq_refl, ◌≡◌, refl, ap, ◌∙◌, ◌↔◌, inl, inr, ℕ, String, Option, none, some, Bool, true, false,
  List, [], ◌∷◌, ◌++◌, some_of, every, arith, lookup, set_key, lookup-set_key, str_eq,
  if◌then◌else◌, Bool-cases,
}
use supabase_lab.Types.{pass, fail, info}
use supabase_lab.Matrix.{
  FeatureOutcome, Feature, run_features, broken_of, row_of, summarise_row, Prior, compare_prior,
  regression_verdict, cell_of, add_measurements, to_measurements,
}

no_names : List String → Bool
no_names [] = true
no_names (_ ∷ _) = false

no_names-broken_of :
    (outcomes : List FeatureOutcome) → no_names (broken_of outcomes) ≡ every (λ o. o.ok) outcomes
unfolding broken_of no_names
no_names-broken_of [] = refl
no_names-broken_of (o ∷ os) = elim (Bool-cases o.ok) [
  | inl e ↦ rw e (no_names-broken_of os)
  | inr e ↦ rw e refl
]

row_of-control :
    (bs : List String) (n : ℕ) → (row_of true bs n).status ≡ (if no_names bs then pass else fail)
unfolding row_of no_names
row_of-control [] n = refl
row_of-control (b ∷ bs) n = refl

row_of-pooled : (bs : List String) (n : ℕ) → (row_of false bs n).status ≡ info
unfolding row_of
row_of-pooled [] n = refl
row_of-pooled (b ∷ bs) n = refl

-- A control row passes exactly when every feature worked and otherwise fails; a row of any other
-- mode is informative, whatever broke in it.
pub summarise_row-status :
    (outcomes : List FeatureOutcome)
    → ((summarise_row outcomes true).status ≡ (if every (λ o. o.ok) outcomes then pass else fail))
      × ((summarise_row outcomes false).status ≡ info)
unfolding summarise_row
summarise_row-status outcomes = (
  row_of-control (broken_of outcomes) _ ∙ rw (no_names-broken_of outcomes) refl,
  row_of-pooled (broken_of outcomes) _,
)

-- A verdict is a failure exactly when the mode was probed and a feature that worked before is
-- broken now.
pub regression_verdict-fail_iff :
    (probed : Option FeatureOutcome) (prior : Prior)
    → ((regression_verdict probed prior).status ≡ fail)
      ↔ ((o : FeatureOutcome) × (probed ≡ some o) × (prior.ok ≡ true) × (o.ok ≡ false))
unfolding regression_verdict compare_prior
regression_verdict-fail_iff none prior =
    (λ h. absurd (ground (arith, h)), λ (o, e, _, _). absurd (ground (arith, e)))
regression_verdict-fail_iff (some o) prior = (
  λ h. (o, refl, ground (arith, h), ground (arith, h)),
  λ (o', e, worked, broken).
      let broken_here : o.ok ≡ false = ap (λ x. x.ok) (some-injective _ _ e) ∙ broken in
      rw (worked, broken_here) refl,
)

module _ {S : Type 0} where
  -- The probes run in order on one connection: those of a list run on the state that the ones
  -- before have left, and none is left out when one throws.
  pub run_features-append :
      (fs gs : List (Feature S)) (s : S)
      → run_features (fs ++ gs) s ≡ (
        (run_features fs s).0 ++ (run_features gs (run_features fs s).1).0,
        (run_features gs (run_features fs s).1).1,
      )
  unfolding run_features
  run_features-append [] gs s = refl
  run_features-append (f ∷ fs) gs s = rw (run_features-append fs gs (f.run s).1) refl

add_measurements-append :
    (max_len : ℕ) (xs ys : List FeatureOutcome) (m : List (String × String))
    → add_measurements max_len m (xs ++ ys)
      ≡ add_measurements max_len (add_measurements max_len m xs) ys
unfolding add_measurements
add_measurements-append max_len [] ys m = refl
add_measurements-append max_len (x ∷ xs) ys m = add_measurements-append max_len xs ys _

lookup-add_measurements :
    (max_len : ℕ) (name : String) (os : List FeatureOutcome) (m : List (String × String))
    → some_of (λ p. str_eq p.name name) os ≡ false
    → lookup name (add_measurements max_len m os) ≡ lookup name m
unfolding add_measurements
lookup-add_measurements max_len name [] m h = refl
lookup-add_measurements max_len name (o ∷ os) m h =
    let here : str_eq o.name name ≡ false = ground (arith, h) in
    lookup-add_measurements max_len name os (set_key o.name (cell_of max_len o) m)
      (ground (arith, h))
    ∙ lookup-set_key o.name name (cell_of max_len o) m
    ∙ rw here refl

-- Each feature's measurement is that of its last outcome: the outcomes with its name after which
-- no other has it.
pub to_measurements-last :
    (before after : List FeatureOutcome) (o : FeatureOutcome) (max_len : ℕ)
    → some_of (λ p. str_eq p.name o.name) after ≡ false
    → lookup o.name (to_measurements (before ++ o ∷ after) max_len) ≡ some (cell_of max_len o)
unfolding to_measurements add_measurements
to_measurements-last before after o max_len h =
    let m = add_measurements max_len [] before in
    rw (add_measurements-append max_len before (o ∷ after) []) (
      lookup-add_measurements max_len o.name after (set_key o.name (cell_of max_len o) m) h
      ∙ lookup-set_key o.name o.name (cell_of max_len o) m
      ∙ rw (eq_refl o.name) refl)
