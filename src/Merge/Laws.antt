-- ===== src/Merge/Laws.antt =====
-- What a merge keeps and drops.
use mathlib.Core.Option.{some-injective}
use supabase_lab.Common.{
  ◌≡◌, refl, ◌≢◌, subst, inl, inr, String, some, Bool, true, false, not, List, [], ◌∷◌, map, filter,
  ◌&&◌, Memᴰ, arith, All, AllPairs, eq_iff, str_eq, text_le, text_le-total, text_le_trans, sort,
  sort-IsOrdered, All-of_sort, or_else, of_mem-filter, mem-filter, some_of_mem, mem_of_some_of,
  filter-eq_self, filter-filter, Bool-cases, contains_text,
}
use supabase_lab.Types.{
  RunArtifact, TestResult, TestModule, Where, runner, local, skip, status_eq, where_eq_iff,
}
use supabase_lab.Plan.{PlanOptions, judge, skips, is_selected, skip_result, wrong_vantage}
use supabase_lab.Merge.{
  ran_elsewhere, is_noise, without_noise, merge, earliest, latest, all_results, first_of_list,
  last_of_list,
}

unfoldable pub not_skip : TestResult → Bool
not_skip r = not (status_eq r.status skip)

module _ (all : List TestResult) where
  is_noise_of_ran : (r : TestResult) → not_skip r ≡ true → is_noise all r ≡ false
  unfolding is_noise not_skip
  is_noise_of_ran r h = ground arith

  of_ran_elsewhere :
      (r : TestResult)
      → ran_elsewhere all r ≡ true
      → (o : TestResult) × Memᴰ o all × (o.id ≡ r.id) × (not_skip o ≡ true)
  unfolding ran_elsewhere not_skip
  of_ran_elsewhere r h =
      let (o, listed, same) =
        mem_of_some_of (λ o. str_eq o.id r.id && not (status_eq o.status skip)) all h in
      (o, listed, ground (arith, eq_iff o.id r.id), ground arith)

  ran_elsewhere_of_mem :
      (r o : TestResult) → Memᴰ o all → o.id ≡ r.id → not_skip o ≡ true → ran_elsewhere all r ≡ true
  unfolding ran_elsewhere not_skip
  ran_elsewhere_of_mem r o listed same ran =
      some_of_mem (λ o. str_eq o.id r.id && not (status_eq o.status skip)) o all listed
        (ground (arith, eq_iff o.id r.id))

  -- a noisy skip has a result of the same id that is not a skip
  elsewhere :
      (r : TestResult)
      → is_noise all r ≡ true
      → (o : TestResult) × Memᴰ o all × (o.id ≡ r.id) × (not_skip o ≡ true)
  unfolding is_noise
  elsewhere r h = of_ran_elsewhere r (ground arith)

  mem-without_noise :
      (r : TestResult) → Memᴰ r all → is_noise all r ≡ false → Memᴰ r (without_noise all)
  unfolding without_noise
  mem-without_noise r listed h = mem-filter _ r all listed (rw h)

  -- No test vanishes from a merged report: every id of the parts has a result in it.
  pub without_noise-keeps_ids :
      (r : TestResult)
      → Memᴰ r all
      → (r' : TestResult) × Memᴰ r' (without_noise all) × (r'.id ≡ r.id)
  without_noise-keeps_ids r listed = elim (Bool-cases (is_noise all r)) [
    | inl noisy ↦
        let (o, there, same, ran) = elsewhere r noisy in
        (o, mem-without_noise o there (is_noise_of_ran o ran), same)
    | inr quiet ↦ (r, mem-without_noise r listed quiet, refl)
  ]

  -- Results that are not skips all stay, in their order.
  pub without_noise-keeps_ran : filter not_skip (without_noise all) ≡ filter not_skip all
  unfolding without_noise
  without_noise-keeps_ran = filter-filter _ not_skip all (λ r h. rw (is_noise_of_ran r h))

is_noise_mono :
    (all : List TestResult) (r : TestResult)
    → is_noise (without_noise all) r ≡ true
    → is_noise all r ≡ true
unfolding is_noise without_noise
is_noise_mono all r h =
    let (o, kept, same, ran) = elsewhere (without_noise all) r h in
    let (listed, _) = of_mem-filter _ o all kept in
    let again : ran_elsewhere all r ≡ true = ran_elsewhere_of_mem all r o listed same ran in
    ground (arith, again)

-- Dropping the noise a second time, as in a merge of a merged artifact, changes nothing.
pub without_noise_idempotent :
    (all : List TestResult) → without_noise (without_noise all) ≡ without_noise all
unfolding without_noise
without_noise_idempotent all =
    filter-eq_self _ (without_noise all)
      λ r kept. let (_, quiet) = of_mem-filter _ r all kept in ground (arith, is_noise_mono all r)

wrong_vantage-contains : (a b : Where) → contains_text (wrong_vantage a b) "runs on \"" ≡ true
unfolding contains_text wrong_vantage
wrong_vantage-contains runner runner = refl
wrong_vantage-contains runner local = refl
wrong_vantage-contains local runner = refl
wrong_vantage-contains local local = refl

-- A module of the other vantage is planned as a skip that a merge drops as soon as any artifact
-- has a result of the module that is not a skip.
pub judge-is_noise :
    (opts : PlanOptions) (m : TestModule) (all : List TestResult)
    → is_selected opts m ≡ true
    → m.vantage ≢ opts.vantage
    → ((r : TestResult) × Memᴰ r all × (r.id ≡ m.id) × (not_skip r ≡ true))
    → (judge opts m ≡ skips (wrong_vantage m.vantage opts.vantage))
      × (is_noise all (skip_result m (wrong_vantage m.vantage opts.vantage)) ≡ true)
unfolding judge is_noise skip_result status_eq
judge-is_noise opts m all selected other (r, listed, same, ran) = (
  ground (arith, where_eq_iff m.vantage opts.vantage),
  ground (
    arith,
    wrong_vantage-contains m.vantage opts.vantage,
    ran_elsewhere_of_mem all (skip_result m (wrong_vantage m.vantage opts.vantage)) r listed same
        ran,
  ),
)

All-map :
    (P : String → Type 0) (f : RunArtifact → String) (ps : List RunArtifact)
    → All P (map f ps)
    → All (λ p. P (f p)) ps
All-map P f [] h = tt
All-map P f (p ∷ ps) h = (h.0, All-map P f ps h.1)

pub text_le_refl : (s : String) → text_le s s ≡ true
text_le_refl s = elim (text_le-total s s) [ inl h ↦ h | inr h ↦ h ]

first_of_list-le :
    (ss : List String)
    → AllPairs (λ s t. text_le s t ≡ true) ss
    → All (λ s. text_le (or_else (first_of_list ss) "") s ≡ true) ss
unfolding first_of_list
first_of_list-le [] h = tt
first_of_list-le (s ∷ ss) h = (text_le_refl s, h.0)

last_of_list-le :
    (ss : List String)
    → AllPairs (λ s t. text_le s t ≡ true) ss
    → All (λ s. text_le s (or_else (last_of_list ss) "") ≡ true) ss
unfolding last_of_list
last_of_list-le [] h = tt
last_of_list-le (s ∷ []) h = (text_le_refl s, tt)
last_of_list-le (s ∷ t ∷ ss) h =
    let rest = last_of_list-le (t ∷ ss) h.1 in (text_le_trans s t _ h.0.0 rest.0, rest)

earliest-le : (ss : List String) → All (λ s. text_le (or_else (earliest ss) "") s ≡ true) ss
unfolding earliest
earliest-le ss =
    All-of_sort text_le _ ss
      (first_of_list-le (sort text_le ss) (sort-IsOrdered text_le text_le-total text_le_trans ss))

le-latest : (ss : List String) → All (λ s. text_le s (or_else (latest ss) "") ≡ true) ss
unfolding latest
le-latest ss =
    All-of_sort text_le _ ss
      (last_of_list-le (sort text_le ss) (sort-IsOrdered text_le text_le-total text_le_trans ss))

-- A merged artifact spans its parts: it starts no later than any of them and finishes no earlier,
-- and its results are those of the parts without the noise.
pub merge_spans :
    (parts : List RunArtifact) (merged : RunArtifact)
    → merge parts ≡ some merged
    → All (λ p. text_le merged.started_at p.started_at ≡ true) parts
      × All (λ p. text_le p.finished_at merged.finished_at ≡ true) parts
      × (merged.results ≡ without_noise (all_results parts))
unfolding merge
merge_spans [] merged e = cc
merge_spans (p ∷ ps) merged e =
    let starts = map (λ (a : RunArtifact). a.started_at) (p ∷ ps) in
    let ends = map (λ (a : RunArtifact). a.finished_at) (p ∷ ps) in
    subst
      (λ (a : RunArtifact).
        All (λ r. text_le a.started_at r.started_at ≡ true) (p ∷ ps)
        × All (λ r. text_le r.finished_at a.finished_at ≡ true) (p ∷ ps)
        × (a.results ≡ without_noise (all_results (p ∷ ps))))
      (some-injective _ _ e)
      (
        All-map (λ t. text_le (or_else (earliest starts) "") t ≡ true)
            (λ (a : RunArtifact). a.started_at) (p ∷ ps) (earliest-le starts),
        All-map (λ t. text_le t (or_else (latest ends) "") ≡ true)
            (λ (a : RunArtifact). a.finished_at) (p ∷ ps) (le-latest ends),
        refl,
      )
