-- ===== src/Sampler/Recovery.antt =====
-- When a recovery is believed: a refinement of the sampling loop by a property of its log.
use mathlib.Core.List.{append_assoc, append-nil}
use supabase_lab.Common.{
  ℕ, ◌+◌, ◌≡◌, refl, sym, subst, inl, inr, String, Option, none, some, true, false, [], ◌∷◌, ◌++◌,
  arith, Bool-cases, leb, leb→le,
}
use supabase_lab.Sampler.{
  ProbeOutcome, PathState, count_sample, on_failure, on_recovery, on_success, sample, start,
  sample_all,
}
use supabase_lab.Sampler.Trace.{
  Log, Sustained, HasFailure-snoc, Trace, FailTrace-snoc, RecoveredTrace-snoc, PendingTrace-snoc,
  Awaits-now, Sustained-of_Awaits,
}

abbrev TraceOf : ℕ → Log → PathState → Type 0
TraceOf settle log s = Trace settle log s.first_fail_ms s.pending_recovery_ms s.recovered_ms

module _ (settle : ℕ) (log : Log) (at : ℕ) (o : ProbeOutcome) (ok : o.succeeded ≡ true) where
  Trace-snoc :
      (f p r : Option ℕ) → Trace settle log f p r → Trace settle (log ++ (at, o) ∷ []) f p r
  Trace-snoc f p r t = record {
    fails = FailTrace-snoc settle log at o f t.fails;
    waits = PendingTrace-snoc settle log at o ok p r t.waits;
    recovers = RecoveredTrace-snoc settle log at o r t.recovers;
  }

  on_recovery-TraceOf :
      (f : ℕ) (p : Option ℕ) (s : PathState)
      → s.first_fail_ms ≡ some f
      → s.recovered_ms ≡ none
      → Trace settle log (some f) p none
      → s.pending_recovery_ms ≡ p
      → TraceOf settle (log ++ (at, o) ∷ []) (on_recovery settle at p s)
  unfolding on_recovery
  on_recovery-TraceOf f none s ef er t ep =
      simp (ef, er)
        (record {
          fails = FailTrace-snoc settle log at o (some f) t.fails;
          waits = Awaits-now settle log at o ok t.fails;
          recovers = tt;
        })
  on_recovery-TraceOf f (some p) s ef er t ep = elim (Bool-cases (leb (p + settle) at)) [
    | inl e ↦ rw e (
        simp (ef, ep)
          (record {
            fails = FailTrace-snoc settle log at o (some f) t.fails;
            waits = tt;
            recovers = Sustained-of_Awaits settle log at o ok p t.waits (leb→le _ _ e);
          }))
    | inr e ↦ rw e (simp (ef, er, ep) (Trace-snoc (some f) (some p) none t))
  ]

  on_success-TraceOf :
      (f r : Option ℕ) (s : PathState)
      → s.first_fail_ms ≡ f
      → s.recovered_ms ≡ r
      → TraceOf settle log s
      → TraceOf settle (log ++ (at, o) ∷ []) (on_success settle at f r s)
  unfolding on_success
  on_success-TraceOf none r s ef er t = Trace-snoc _ _ _ t
  on_success-TraceOf (some f) (some r) s ef er t = Trace-snoc _ _ _ t
  on_success-TraceOf (some f) none s ef er t =
      on_recovery-TraceOf f s.pending_recovery_ms s ef er (rw er at (rw ef at t)) refl

on_failure-TraceOf :
    (settle : ℕ) (log : Log) (at : ℕ) (o : ProbeOutcome) (s : PathState)
    → o.succeeded ≡ false
    → TraceOf settle log s
    → TraceOf settle (log ++ (at, o) ∷ []) (on_failure at o s)
unfolding on_failure
on_failure-TraceOf settle log at o s e t = record {
  fails = HasFailure-snoc log at o e;
  waits = tt;
  recovers = RecoveredTrace-snoc settle log at o s.recovered_ms t.recovers;
}

sample_ok :
    (settle at : ℕ) (o : ProbeOutcome) (s : PathState)
    → o.succeeded ≡ true
    → sample settle (at, o) s
      ≡ on_success settle at s.first_fail_ms s.recovered_ms (count_sample o s)
unfolding sample
sample_ok settle at o s e = ground arith

sample_failed :
    (settle at : ℕ) (o : ProbeOutcome) (s : PathState)
    → o.succeeded ≡ false
    → sample settle (at, o) s ≡ on_failure at o (count_sample o s)
unfolding sample
sample_failed settle at o s e = ground arith

sample-TraceOf :
    (settle : ℕ) (log : Log) (at : ℕ) (o : ProbeOutcome) (s : PathState)
    → TraceOf settle log s
    → TraceOf settle (log ++ (at, o) ∷ []) (sample settle (at, o) s)
unfolding count_sample
sample-TraceOf settle log at o s t = elim (Bool-cases o.succeeded) [
  | inl e ↦ subst (TraceOf settle (log ++ (at, o) ∷ [])) (sym (sample_ok settle at o s e)) (
      on_success-TraceOf settle log at o e s.first_fail_ms s.recovered_ms (count_sample o s) refl
        refl t)
  | inr e ↦
      subst (TraceOf settle (log ++ (at, o) ∷ [])) (sym (sample_failed settle at o s e))
        (on_failure-TraceOf settle log at o (count_sample o s) e t)
]

sample_all-TraceOf :
    (settle : ℕ) (log xs : Log) (s : PathState)
    → TraceOf settle log s
    → TraceOf settle (log ++ xs) (sample_all settle xs s)
unfolding sample_all
sample_all-TraceOf settle log [] s t = rw (append-nil log) t
sample_all-TraceOf settle log (x ∷ xs) s t =
    subst (λ (l : Log). TraceOf settle l (sample_all settle xs (sample settle x s)))
      (append_assoc log (x ∷ []) xs)
      (sample_all-TraceOf settle (log ++ x ∷ []) xs (sample settle x s)
        (sample-TraceOf settle log x.0 x.1 s t))

-- A recovery is believed only on evidence: if a path's state has the recovery time `r`, its log
-- has a failure, then an unbroken row of successes that begins at `r` and lasts at least the
-- settling time.
pub sample_all-Sustained :
    (settle : ℕ) (name : String) (xs : Log) (r : ℕ)
    → (sample_all settle xs (start name)).recovered_ms ≡ some r
    → Sustained settle xs r
unfolding start
sample_all-Sustained settle name xs r e =
    let t =
      sample_all-TraceOf settle [] xs (start name)
        (record { fails = tt; waits = tt; recovers = tt }) in
    rw e at t.recovers
