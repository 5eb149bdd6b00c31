-- ===== src/Sampler/Completeness.antt =====
-- A sustained recovery is always noticed.
use supabase_lab.Common.{
  ℕ, ◌+◌, ◌≤◌, ◌≡◌, refl, sym, subst, ◌⊎◌, inl, inr, String, Option, none, some, true, false, [],
  ◌∷◌, ◌++◌, arith, All, Bool-cases,
}
use supabase_lab.Sampler.{
  ProbeOutcome, PathState, sample, start, sample_all, has_failed, has_recovered,
}
use supabase_lab.Sampler.Invariant.{
  InOrder, IsSound, start-IsSound, sample_all-IsSound, last_time, Before,
}
use supabase_lab.Sampler.Trace.{Log, IsOk, HasFailure, Sustained}

sample_all-append :
    (settle : ℕ) (xs ys : Log) (s : PathState)
    → sample_all settle (xs ++ ys) s ≡ sample_all settle ys (sample_all settle xs s)
unfolding sample_all
sample_all-append settle [] ys s = refl
sample_all-append settle (x ∷ xs) ys s = sample_all-append settle xs ys (sample settle x s)

abbrev PendingBy : ℕ → Option ℕ → Type 0
PendingBy b none = ⊥
PendingBy b (some p) = p ≤ b

-- recovered, or awaiting a recovery that began no later than `b`
abbrev IsReady : ℕ → PathState → Type 0
IsReady b s = (has_recovered s ≡ true) ⊎ ((has_failed s ≡ true) × PendingBy b s.pending_recovery_ms)

module _ (settle : ℕ) where
  sample-has_failed :
      (at : ℕ) (o : ProbeOutcome) (s : PathState)
      → (has_failed s ≡ true) ⊎ (o.succeeded ≡ false)
      → has_failed (sample settle (at, o) s) ≡ true
  unfolding sample has_failed
  sample-has_failed at o s h = ground arith

  sample-has_recovered :
      (at : ℕ) (o : ProbeOutcome) (s : PathState)
      → has_recovered s ≡ true
      → has_recovered (sample settle (at, o) s) ≡ true
  unfolding sample has_recovered
  sample-has_recovered at o s h = ground arith

  sample-begins :
      (at : ℕ) (o : ProbeOutcome) (s : PathState)
      → o.succeeded ≡ true
      → has_failed s ≡ true
      → Before s.pending_recovery_ms at
      → IsReady at (sample settle (at, o) s)
  unfolding sample has_failed has_recovered
  sample-begins at o s ok h p = ground arith

  sample-IsReady :
      (b at : ℕ) (o : ProbeOutcome) (s : PathState)
      → o.succeeded ≡ true
      → IsReady b s
      → IsReady b (sample settle (at, o) s)
  unfolding sample has_failed has_recovered
  sample-IsReady b at o s ok h = ground arith

  sample-believes :
      (b at : ℕ) (o : ProbeOutcome) (s : PathState)
      → o.succeeded ≡ true
      → b + settle ≤ at
      → IsReady b s
      → has_recovered (sample settle (at, o) s) ≡ true
  unfolding sample has_failed has_recovered
  sample-believes b at o s ok late h = ground arith

  sample_all-has_failed :
      (xs : Log) (s : PathState) → has_failed s ≡ true → has_failed (sample_all settle xs s) ≡ true
  unfolding sample_all
  sample_all-has_failed [] s h = h
  sample_all-has_failed (x ∷ xs) s h =
      sample_all-has_failed xs (sample settle x s) (sample-has_failed x.0 x.1 s (inl h))

  has_failed_of_HasFailure :
      (xs : Log) (s : PathState) → HasFailure xs → has_failed (sample_all settle xs s) ≡ true
  unfolding sample_all
  has_failed_of_HasFailure [] s h = cc
  has_failed_of_HasFailure ((at, o) ∷ xs) s h = elim (Bool-cases o.succeeded) [
    | inl e ↦ has_failed_of_HasFailure xs (sample settle (at, o) s) (ground arith)
    | inr e ↦ sample_all-has_failed xs (sample settle (at, o) s) (sample-has_failed at o s (inr e))
  ]

  sample_all-has_recovered :
      (xs : Log) (s : PathState)
      → has_recovered s ≡ true
      → has_recovered (sample_all settle xs s) ≡ true
  unfolding sample_all
  sample_all-has_recovered [] s h = h
  sample_all-has_recovered (x ∷ xs) s h =
      sample_all-has_recovered xs (sample settle x s) (sample-has_recovered x.0 x.1 s h)

  sample_all-IsReady :
      (b : ℕ) (xs : Log) (s : PathState)
      → All IsOk xs
      → IsReady b s
      → IsReady b (sample_all settle xs s)
  unfolding sample_all
  sample_all-IsReady b [] s ok h = h
  sample_all-IsReady b (x ∷ xs) s ok h =
      sample_all-IsReady b xs (sample settle x s) ok.1 (sample-IsReady b x.0 x.1 s ok.0 h)

InOrder-append :
    (last : ℕ) (xs ys : Log)
    → InOrder last (xs ++ ys)
    → InOrder last xs × InOrder (last_time last xs) ys
InOrder-append last [] ys h = (tt, h)
InOrder-append last ((at, o) ∷ xs) ys h = let (l, r) = InOrder-append at xs ys h.1 in ((h.0, l), r)

Before-trans : (t : Option ℕ) (a b : ℕ) → a ≤ b → Before t a → Before t b
Before-trans none a b h k = tt
Before-trans (some t) a b h k = omega arith

IsSound-pending : (last : ℕ) (s : PathState) → IsSound last s → Before s.pending_recovery_ms last
IsSound-pending last s v = ground arith

-- With a clock that does not run backwards, a path whose log has a failure followed by an unbroken
-- row of successes over at least the settling time is recorded as recovered.
pub sample_all-recovers :
    (settle : ℕ) (name : String) (xs : Log) (since : ℕ)
    → InOrder 0 xs
    → Sustained settle xs since
    → has_recovered (sample_all settle xs (start name)) ≡ true
unfolding sample_all
sample_all-recovers settle name xs since order s =
    let row : Log = (since, s.first) ∷ s.rest in
    let late : Log = (s.until, s.last) ∷ s.after in
    let ordered : InOrder 0 ((s.before ++ row) ++ late) = subst (InOrder 0) s.splits order in
    let front = (InOrder-append 0 (s.before ++ row) late ordered).0 in
    let (early, later) = InOrder-append 0 s.before row front in
    let s0 = sample_all settle s.before (start name) in
    let pending =
      IsSound-pending _ s0
        (sample_all-IsSound settle 0 s.before (start name) early (start-IsSound name)) in
    let began =
      sample-begins settle since s.first s0 s.ok.0
        (has_failed_of_HasFailure settle s.before (start name) s.failed)
        (Before-trans s0.pending_recovery_ms _ _ later.0 pending) in
    let waiting = sample_all-IsReady settle since s.rest _ s.ok.1 began in
    let believed = sample-believes settle since s.until s.last _ s.last_ok s.settled waiting in
    let final = sample_all-has_recovered settle s.after _ believed in
    subst (λ (l : Log). has_recovered (sample_all settle l (start name)) ≡ true) (sym s.splits)
      (rw
        (
          sample_all-append settle (s.before ++ row) late (start name),
          sample_all-append settle s.before row (start name),
        )
        final)
