-- ===== src/Retry/Kept.antt =====
-- experiments/client-retries/lib/policy.ts: what holds of a hedged read, and what a launch and a
-- finish keep.

use supabase_lab.Common.{
  ℕ, suc, ◌+◌, ◌≤◌, ◌<◌, ◌≡◌, refl, sym, ap, subst, ◌∙◌, ◌⊎◌, inl, inr, Option, none, some, true,
  false, ◌||◌, [], ◌∷◌, length, length-append, leb, if◌then◌else◌, Bool-cases, All, arith,
}
use supabase_lab.Retry.{Attempt, HedgeResult, Hedge, retryable, start, launch, finish}
use supabase_lab.Retry.Attempts.{
  IsStarted, AreAbortedBut, length-abort_others, abort_others-AreAbortedBut, more-IsStarted,
  All-snoc,
}

module _ {T : Type 0} where
  -- what holds once the promise has resolved to `r`
  pub record IsResolved (s : Hedge T) (r : HedgeResult T) : Type 0 where
    pub is_done : s.done ≡ true
    pub all_started : r.started ≡ s.started
    pub of_attempt : IsStarted s.started r.winner
    pub others_aborted : AreAbortedBut r.winner 0 s.controllers
    pub reason : retryable r.resp ≡ true → (2 ≤ s.settled) ⊎ (s.deadline_aborted ≡ true)

  abbrev pub IsOutcome : Hedge T → Option (HedgeResult T) → Type 0
  IsOutcome s none = s.done ≡ false
  IsOutcome s (some r) = IsResolved s r

  abbrev pub IsLast : ℕ → Option (Attempt T) → Type 0
  IsLast started none = Unit
  IsLast started (some w) = IsStarted started w.n

  -- what holds also while an attempt's continuation runs
  pub record IsKept (s : Hedge T) : Type 0 where
    pub low : 1 ≤ s.started
    pub high : s.started ≤ 2
    pub owned : length s.controllers ≡ s.started
    pub counted : s.settled + length s.in_flight ≡ s.started
    pub numbered : All (IsStarted s.started) s.in_flight
    pub lasting : IsLast s.started s.last
    pub graced : s.grace_timer ≡ true → s.deadline_aborted ≡ true
    pub outcome : IsOutcome s s.result

  -- between events, a read that has no result has an attempt in flight
  pub record IsValid (s : Hedge T) : Type 0 where
    pub kept : IsKept s
    pub awaited : s.done ≡ false → 1 ≤ length s.in_flight

  more-IsLast : (n m : ℕ) (o : Option (Attempt T)) → n ≤ m → IsLast n o → IsLast m o
  more-IsLast n m none h l = tt
  more-IsLast n m (some w) h l = (l.0, omega (arith, h, l.1))

  no_result : (s : Hedge T) (o : Option (HedgeResult T)) → IsOutcome s o → s.done ≡ false → o ≡ none
  no_result s none h open_ = refl
  no_result s (some r) h open_ = absurd (ground (arith, h.is_done, open_))

  abbrev started_next : Hedge T → Hedge T
  started_next s = start (record s { started = suc s.started })

  launch-eq : (s : Hedge T) → s.done ≡ false → s.started < 2 → launch s ≡ started_next s
  unfolding launch
  launch-eq s open_ less =
      let room : leb 2 s.started ≡ false = ground arith in
      ap (λ d. if d || leb 2 s.started then s else started_next s) open_
      ∙ ap (λ l. if l then s else started_next s) room

  -- an attempt that is launched is in flight, under a controller of its own
  launch-IsValid : (s : Hedge T) → IsKept s → s.done ≡ false → s.started < 2 → IsValid (launch s)
  unfolding start
  launch-IsValid s k open_ less = rw (launch-eq s open_ less) (record {
    kept = record {
      low = omega arith;
      high = omega (arith, less);
      owned = omega (arith, length-append s.controllers (false ∷ []), k.owned);
      counted =
          omega (arith, length-append s.in_flight (suc (length s.controllers) ∷ []), k.counted);
      numbered =
          All-snoc (IsStarted (suc s.started)) s.in_flight (suc (length s.controllers))
            (more-IsStarted s.started (suc s.started) s.in_flight (omega arith) k.numbered)
            (omega arith, omega (arith, k.owned));
      lasting = more-IsLast s.started (suc s.started) s.last (omega arith) k.lasting;
      graced = k.graced;
      outcome =
          subst (IsOutcome (started_next s)) (sym (no_result s s.result k.outcome open_)) open_;
    };
    awaited = λ (_ : s.done ≡ false).
        omega (arith, length-append s.in_flight (suc (length s.controllers) ∷ []));
  })

  pub launch-idle : (s : Hedge T) → (2 ≤ s.started) ⊎ (s.done ≡ true) → launch s ≡ s
  unfolding launch
  launch-idle s (inl full) =
      let e : leb 2 s.started ≡ true = ground arith in
      elim (Bool-cases s.done) [
        | inl over ↦ ap (λ d. if d || leb 2 s.started then s else started_next s) over
        | inr open_ ↦
            ap (λ d. if d || leb 2 s.started then s else started_next s) open_
            ∙ ap (λ l. if l then s else started_next s) e
      ]
  launch-idle s (inr over) = ap (λ d. if d || leb 2 s.started then s else started_next s) over

  -- a promise resolves once, and to the attempt that is given
  finish-IsValid :
      (w : Attempt T) (s : Hedge T)
      → IsKept s
      → s.done ≡ false
      → IsStarted s.started w.n
      → (retryable w.r ≡ true → (2 ≤ s.settled) ⊎ (s.deadline_aborted ≡ true))
      → IsValid (finish w s)
  unfolding finish
  finish-IsValid w s k open_ from reason = rw open_ (record {
    kept = record {
      low = k.low;
      high = k.high;
      owned = length-abort_others w.n 0 s.controllers ∙ k.owned;
      counted = k.counted;
      numbered = k.numbered;
      lasting = k.lasting;
      graced = k.graced;
      outcome = record {
        is_done = refl;
        all_started = refl;
        of_attempt = from;
        others_aborted = abort_others-AreAbortedBut w.n 0 s.controllers;
        reason = reason;
      };
    };
    awaited = λ (h : true ≡ false). cc;
  })

  pub finish-idle : (w : Attempt T) (s : Hedge T) → s.done ≡ true → finish w s ≡ s
  unfolding finish
  finish-idle w s over = rw over refl

  over-IsValid : (s : Hedge T) → IsKept s → s.done ≡ true → IsValid s
  over-IsValid s k over = record {
    kept = k;
    awaited = λ open_. absurd (ground (arith, over, open_));
  }

  pub finish_any-IsValid :
      (w : Attempt T) (s : Hedge T)
      → IsKept s
      → IsStarted s.started w.n
      → (retryable w.r ≡ true → (2 ≤ s.settled) ⊎ (s.deadline_aborted ≡ true))
      → IsValid (finish w s)
  finish_any-IsValid w s k from reason = elim (Bool-cases s.done) [
    | inl over ↦ rw (finish-idle w s over) (over-IsValid s k over)
    | inr open_ ↦ finish-IsValid w s k open_ from reason
  ]

  pub launch_any-IsValid : (s : Hedge T) → IsKept s → s.started < 2 → IsValid (launch s)
  launch_any-IsValid s k less = elim (Bool-cases s.done) [
    | inl over ↦ rw (launch-idle s (inr over)) (over-IsValid s k over)
    | inr open_ ↦ launch-IsValid s k open_ less
  ]
