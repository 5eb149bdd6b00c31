-- ===== src/Retry/Invariant.antt =====
-- experiments/client-retries/lib/policy.ts: what every state of a hedged read keeps.

use supabase_lab.Common.{
  suc, ◌≡◌, refl, ◌∙◌, inl, inr, Option, none, some, Bool, true, false, not, ◌&&◌, leb, ltb, ◌==◌,
  leb→le, Bool-cases, Memᴰ, All-at_mem, arith,
}
use supabase_lab.Retry.{
  Attempt, HedgeResult, Hedge, retryable, without_attempt, start, launch, settle, hedge_due,
  deadline_passes, grace_due, finish_last, hedged_get,
}
use supabase_lab.Retry.Attempts.{
  IsStarted, length-without_attempt, All-without_attempt, abort_all-AreAbortedBut, length-abort_all,
}
use supabase_lab.Retry.Steps.{
  ◌⟶◌, hedges, times_out, gives_up, settles, ◌⟶*◌, here, after, IsReachable,
}
use supabase_lab.Retry.Kept.{
  IsOutcome, IsLast, IsKept, IsValid, launch-idle, finish_any-IsValid, launch_any-IsValid,
}

module _ {T : Type 0} where
  -- the state in which the continuation of an attempt runs
  abbrev pub answered : Attempt T → Hedge T → Hedge T
  answered w s = record s {
    settled = suc s.settled;
    last = some w;
    in_flight = without_attempt w.n s.in_flight;
  }

  answered-IsOutcome :
      (w : Attempt T) (s : Hedge T) (o : Option (HedgeResult T))
      → IsOutcome s o
      → IsOutcome (answered w s) o
  answered-IsOutcome w s none h = h
  answered-IsOutcome w s (some r) h = record {
    is_done = h.is_done;
    all_started = h.all_started;
    of_attempt = h.of_attempt;
    others_aborted = h.others_aborted;
    reason = λ bad. elim (h.reason bad) [ inl n ↦ inl (omega (arith, n)) | inr d ↦ inr d ];
  }

  answered-IsKept :
      (w : Attempt T) (s : Hedge T) → IsKept s → Memᴰ w.n s.in_flight → IsKept (answered w s)
  answered-IsKept w s k m = record {
    low = k.low;
    high = k.high;
    owned = k.owned;
    counted = omega (arith, k.counted, length-without_attempt w.n s.in_flight m);
    numbered = All-without_attempt (IsStarted s.started) w.n s.in_flight k.numbered;
    lasting = All-at_mem (IsStarted s.started) w.n s.in_flight k.numbered m;
    graced = k.graced;
    outcome = answered-IsOutcome w s s.result k.outcome;
  }

  settle-IsValid :
      (w : Attempt T) (s : Hedge T) → IsValid s → Memᴰ w.n s.in_flight → IsValid (settle w s)
  unfolding settle
  settle-IsValid w s v m =
      let t = answered w s in
      let k : IsKept t = answered-IsKept w s v.kept m in
      let from = All-at_mem (IsStarted s.started) w.n s.in_flight v.kept.numbered m in
      elim (Bool-cases (retryable w.r)) [
        | inr good ↦
            rw good (finish_any-IsValid w t k from (λ bad. absurd (ground (arith, good, bad))))
        | inl bad ↦ elim (Bool-cases (ltb s.started 2 && not s.deadline_aborted)) [
          | inl again ↦ rw (bad, again) (launch_any-IsValid t k (ground (arith, again)))
          | inr enough ↦ elim (Bool-cases (t.settled == t.started)) [
            | inl all_in ↦
                rw (bad, enough, all_in)
                  (finish_any-IsValid w t k from (λ _. ground (arith, enough, all_in, k.low)))
            | inr waiting ↦
                rw (bad, enough, waiting)
                  (record { kept = k; awaited = λ _. ground (arith, waiting, k.counted) })
          ]
        ]
      ]

  deadline-IsOutcome :
      (s : Hedge T) (o : Option (HedgeResult T)) → IsOutcome s o → IsOutcome (deadline_passes s) o
  unfolding deadline_passes
  deadline-IsOutcome s none h = h
  deadline-IsOutcome s (some r) h = record {
    is_done = h.is_done;
    all_started = h.all_started;
    of_attempt = h.of_attempt;
    others_aborted = abort_all-AreAbortedBut r.winner 0 s.controllers;
    reason = λ _. inr refl;
  }

  deadline-IsValid : (s : Hedge T) → IsValid s → IsValid (deadline_passes s)
  unfolding deadline_passes
  deadline-IsValid s v = record {
    kept = record {
      low = v.kept.low;
      high = v.kept.high;
      owned = length-abort_all s.controllers ∙ v.kept.owned;
      counted = v.kept.counted;
      numbered = v.kept.numbered;
      lasting = v.kept.lasting;
      graced = λ _. refl;
      outcome = deadline-IsOutcome s s.result v.kept.outcome;
    };
    awaited = v.awaited;
  }

  -- a timer that has fired is not set
  fired-IsOutcome :
      (s : Hedge T) (h g : Bool) (o : Option (HedgeResult T))
      → IsOutcome s o
      → IsOutcome (record s { hedge_timer = h; grace_timer = g }) o
  fired-IsOutcome s h g none i = i
  fired-IsOutcome s h g (some r) i = record {
    is_done = i.is_done;
    all_started = i.all_started;
    of_attempt = i.of_attempt;
    others_aborted = i.others_aborted;
    reason = i.reason;
  }

  fired-IsValid :
      (s : Hedge T) (h g : Bool)
      → IsValid s
      → (g ≡ true → s.grace_timer ≡ true)
      → IsValid (record s { hedge_timer = h; grace_timer = g })
  fired-IsValid s h g v still = record {
    kept = record {
      low = v.kept.low;
      high = v.kept.high;
      owned = v.kept.owned;
      counted = v.kept.counted;
      numbered = v.kept.numbered;
      lasting = v.kept.lasting;
      graced = λ e. v.kept.graced (still e);
      outcome = fired-IsOutcome s h g s.result v.kept.outcome;
    };
    awaited = v.awaited;
  }

  hedge_due-IsValid : (s : Hedge T) → IsValid s → IsValid (hedge_due s)
  unfolding hedge_due
  hedge_due-IsValid s v =
      let t = record s { hedge_timer = false } in
      let w : IsValid t = fired-IsValid s false s.grace_timer v (λ e. e) in
      elim (Bool-cases (leb 2 s.started)) [
        | inl full ↦ rw (launch-idle t (inl (leb→le 2 s.started full))) w
        | inr room ↦ launch_any-IsValid t w.kept (ground (arith, room))
      ]

  finish_last-IsValid :
      (s : Hedge T) (o : Option (Attempt T))
      → IsValid s
      → IsLast s.started o
      → s.deadline_aborted ≡ true
      → IsValid (finish_last o s)
  unfolding finish_last
  finish_last-IsValid s none v from late = v
  finish_last-IsValid s (some w) v from late = finish_any-IsValid w s v.kept from (λ _. inr late)

  grace_due-IsValid : (s : Hedge T) → IsValid s → s.grace_timer ≡ true → IsValid (grace_due s)
  unfolding grace_due
  grace_due-IsValid s v set =
      finish_last-IsValid (record s { grace_timer = false }) s.last
        (fired-IsValid s s.hedge_timer false v (λ e. absurd (ground (arith, e)))) v.kept.lasting
        (v.kept.graced set)

  step-IsValid : (s t : Hedge T) → IsValid s → s ⟶ t → IsValid t
  step-IsValid s t v (hedges set e) = rw e (hedge_due-IsValid s v)
  step-IsValid s t v (times_out _ e) = rw e (deadline-IsValid s v)
  step-IsValid s t v (gives_up set e) = rw e (grace_due-IsValid s v set)
  step-IsValid s t v (settles w m e) = rw e (settle-IsValid w s v m)

  hedged_get-IsValid : IsValid (hedged_get {T = T})
  unfolding hedged_get launch start
  hedged_get-IsValid = record {
    kept = record {
      low = omega arith;
      high = omega arith;
      owned = refl;
      counted = refl;
      numbered = ((omega arith, omega arith), tt);
      lasting = tt;
      graced = λ (e : false ≡ true). cc;
      outcome = refl;
    };
    awaited = λ _. omega arith;
  }

  steps-IsValid : (s t : Hedge T) → IsValid s → s ⟶* t → IsValid t
  steps-IsValid s t v here = v
  steps-IsValid s t v (after {t = u} way last) = step-IsValid u t (steps-IsValid s u v way) last

  -- At every moment of a hedged read one or two requests have been started, each under a controller
  -- of its own, and each has settled or is in flight; while there is no result one is in flight; and
  -- a result is that of a started attempt, with every other request aborted, and it is a retryable
  -- one only when both attempts have settled or the deadline has passed.
  pub reachable-IsValid : (s : Hedge T) → IsReachable s → IsValid s
  reachable-IsValid s way = steps-IsValid hedged_get s hedged_get-IsValid way
