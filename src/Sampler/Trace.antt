-- ===== src/Sampler/Trace.antt =====
-- harness/src/sampler.ts: the log of a path, and what its state says of it.
use mathlib.Core.List.{append_assoc}
use supabase_lab.Common.{
  ℕ, ◌+◌, ◌≤◌, ◌≡◌, refl, ap, ◌∙◌, Option, none, some, Bool, true, false, not, List, [], ◌∷◌, ◌++◌,
  arith, All, some_of,
}
use supabase_lab.Sampler.{ProbeOutcome}

abbrev pub Log : Type 0
Log = List (ℕ × ProbeOutcome)

abbrev pub IsOk : ℕ × ProbeOutcome → Type 0
IsOk (at, outcome) = outcome.succeeded ≡ true

abbrev pub is_failure : ℕ × ProbeOutcome → Bool
is_failure (at, outcome) = not outcome.succeeded

abbrev pub HasFailure : Log → Type 0
HasFailure log = some_of is_failure log ≡ true

-- From `since` on, after a failure, all samples succeed.
pub record Awaits (log : Log) (since : ℕ) : Type 0 where
  pub before : Log
  pub first : ProbeOutcome
  pub rest : Log
  pub splits : log ≡ before ++ (since, first) ∷ rest
  pub failed : HasFailure before
  pub ok : All IsOk ((since, first) ∷ rest)

-- The log has a failure, later an unbroken row of successes from `since` to `until`, which is at
-- least the settling time later, and then anything.
pub record Sustained (settle : ℕ) (log : Log) (since : ℕ) : Type 0 where
  pub before : Log
  pub first : ProbeOutcome
  pub rest : Log
  pub until : ℕ
  pub last : ProbeOutcome
  pub after : Log
  pub splits : log ≡ before ++ ((since, first) ∷ rest) ++ (until, last) ∷ after
  pub failed : HasFailure before
  pub ok : All IsOk ((since, first) ∷ rest)
  pub last_ok : last.succeeded ≡ true
  pub settled : since + settle ≤ until

HasFailure-append : (xs ys : Log) → HasFailure xs → HasFailure (xs ++ ys)
HasFailure-append [] ys h = cc
HasFailure-append (x ∷ xs) ys h = ground (arith, HasFailure-append xs ys)

pub HasFailure-snoc :
    (xs : Log) (at : ℕ) (o : ProbeOutcome) → o.succeeded ≡ false → HasFailure (xs ++ (at, o) ∷ [])
HasFailure-snoc [] at o h = ground arith
HasFailure-snoc (x ∷ xs) at o h = ground (arith, HasFailure-snoc xs at o h)

All-snoc : (xs : Log) (x : ℕ × ProbeOutcome) → All IsOk xs → IsOk x → All IsOk (xs ++ x ∷ [])
All-snoc [] x h k = (k, tt)
All-snoc (y ∷ ys) x h k = (h.0, All-snoc ys x h.1 k)

abbrev FailTrace : Log → Option ℕ → Type 0
FailTrace log none = Unit
FailTrace log (some f) = HasFailure log

abbrev PendingTrace : Log → Option ℕ → Option ℕ → Type 0
PendingTrace log none recovered = Unit
PendingTrace log (some p) (some r) = Unit
PendingTrace log (some p) none = Awaits log p

abbrev RecoveredTrace : ℕ → Log → Option ℕ → Type 0
RecoveredTrace settle log none = Unit
RecoveredTrace settle log (some r) = Sustained settle log r

pub record Trace (settle : ℕ) (log : Log) (failed pending recovered : Option ℕ) : Type 0 where
  pub fails : FailTrace log failed
  pub waits : PendingTrace log pending recovered
  pub recovers : RecoveredTrace settle log recovered

module _ (settle : ℕ) (log : Log) (at : ℕ) (o : ProbeOutcome) where
  pub FailTrace-snoc : (f : Option ℕ) → FailTrace log f → FailTrace (log ++ (at, o) ∷ []) f
  FailTrace-snoc none h = tt
  FailTrace-snoc (some f) h = HasFailure-append log _ h

  Sustained-snoc : (r : ℕ) → Sustained settle log r → Sustained settle (log ++ (at, o) ∷ []) r
  Sustained-snoc r s = record {
    before = s.before;
    first = s.first;
    rest = s.rest;
    until = s.until;
    last = s.last;
    after = s.after ++ (at, o) ∷ [];
    splits = ap (λ (l : Log). l ++ (at, o) ∷ []) s.splits ∙ simp append_assoc;
    failed = s.failed;
    ok = s.ok;
    last_ok = s.last_ok;
    settled = s.settled;
  }

  pub RecoveredTrace-snoc :
      (r : Option ℕ) → RecoveredTrace settle log r → RecoveredTrace settle (log ++ (at, o) ∷ []) r
  RecoveredTrace-snoc none h = tt
  RecoveredTrace-snoc (some r) h = Sustained-snoc r h

  module _ (ok : o.succeeded ≡ true) where
    Awaits-snoc : (p : ℕ) → Awaits log p → Awaits (log ++ (at, o) ∷ []) p
    Awaits-snoc p w = record {
      before = w.before;
      first = w.first;
      rest = w.rest ++ (at, o) ∷ [];
      splits = ap (λ (l : Log). l ++ (at, o) ∷ []) w.splits ∙ simp append_assoc;
      failed = w.failed;
      ok = (w.ok.0, All-snoc w.rest (at, o) w.ok.1 ok);
    }

    pub Awaits-now : HasFailure log → Awaits (log ++ (at, o) ∷ []) at
    Awaits-now h = record {
      before = log;
      first = o;
      rest = [];
      splits = refl;
      failed = h;
      ok = (ok, tt);
    }

    pub Sustained-of_Awaits :
        (p : ℕ) → Awaits log p → p + settle ≤ at → Sustained settle (log ++ (at, o) ∷ []) p
    Sustained-of_Awaits p w h = record {
      before = w.before;
      first = w.first;
      rest = w.rest;
      until = at;
      last = o;
      after = [];
      splits = ap (λ (l : Log). l ++ (at, o) ∷ []) w.splits;
      failed = w.failed;
      ok = w.ok;
      last_ok = ok;
      settled = h;
    }

    pub PendingTrace-snoc :
        (p r : Option ℕ) → PendingTrace log p r → PendingTrace (log ++ (at, o) ∷ []) p r
    PendingTrace-snoc none r h = tt
    PendingTrace-snoc (some p) none h = Awaits-snoc p h
    PendingTrace-snoc (some p) (some r) h = tt
