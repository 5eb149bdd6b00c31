-- ===== src/Retry/Outcome.antt =====
-- experiments/client-retries/lib/policy.ts: what a hedged read resolves to, and when.
use supabase_lab.Common.{
  ◌≡◌, refl, sym, ap, subst, ◌∙◌, inl, inr, Option, none, some, true, false, [], length, Bool-cases,
  Memᴰ, arith,
}
use supabase_lab.Retry.{
  Attempt, HedgeResult, Hedge, retryable, launch, finish, settle, hedge_due, deadline_passes,
  grace_due, finish_last,
}
use supabase_lab.Retry.Steps.{
  ◌⟶◌, hedges, times_out, gives_up, settles, ◌⟶*◌, here, after, IsReachable,
}
use supabase_lab.Retry.Kept.{IsResolved, IsOutcome, launch-idle, finish-idle}
use supabase_lab.Retry.Invariant.{reachable-IsValid, answered}

module _ {T : Type 0} where
  -- what later events leave as it is
  abbrev IsSettledAs : Hedge T → HedgeResult T → Type 0
  IsSettledAs s r = (s.result ≡ some r) × (s.done ≡ true) × (s.started ≡ r.started)

  settle-keeps :
      (w : Attempt T) (s : Hedge T) (r : HedgeResult T)
      → IsSettledAs s r
      → IsSettledAs (settle w s) r
  unfolding settle
  settle-keeps w s r h =
      let t = answered w s in
      let same : launch t ≡ t = launch-idle t (inr h.1) in
      let idle : finish w t ≡ t = finish-idle w t h.1 in rw (same, idle) (ground (arith, h))

  last-keeps :
      (o : Option (Attempt T)) (s : Hedge T) (r : HedgeResult T)
      → IsSettledAs s r
      → IsSettledAs (finish_last o s) r
  unfolding finish_last
  last-keeps none s r h = h
  last-keeps (some w) s r h = rw (finish-idle w s h.1) h

  step-keeps : (s t : Hedge T) (r : HedgeResult T) → IsSettledAs s r → s ⟶ t → IsSettledAs t r
  unfolding hedge_due deadline_passes grace_due
  step-keeps s t r h (hedges _ e) =
      rw (e, launch-idle (record s { hedge_timer = false }) (inr h.1)) h
  step-keeps s t r h (times_out _ e) = rw e h
  step-keeps s t r h (gives_up _ e) =
      rw e (last-keeps s.last (record s { grace_timer = false }) r h)
  step-keeps s t r h (settles w _ e) = rw e (settle-keeps w s r h)

  steps-keep : (s t : Hedge T) (r : HedgeResult T) → IsSettledAs s r → s ⟶* t → IsSettledAs t r
  steps-keep s t r h here = h
  steps-keep s t r h (after {t = u} way last) = step-keeps u t r (steps-keep s u r h way) last

  resolved-IsSettledAs :
      (s : Hedge T) (r : HedgeResult T) → IsReachable s → s.result ≡ some r → IsSettledAs s r
  resolved-IsSettledAs s r way given =
      let h : IsResolved s r = subst (IsOutcome s) given (reachable-IsValid s way).kept.outcome in
      (given, h.is_done, sym h.all_started)

  -- Once a hedged read has resolved, no later event changes the result or starts another request.
  pub resolved_once :
      (s t : Hedge T) (r : HedgeResult T)
      → IsReachable s
      → s.result ≡ some r
      → s ⟶* t
      → (t.result ≡ some r) × (t.started ≡ s.started)
  resolved_once s t r way given later =
      let k = resolved-IsSettledAs s r way given in
      let k' = steps-keep s t r k later in (k'.0, k'.2 ∙ sym k.2)

  resolution :
      (s : Hedge T) (o : Option (HedgeResult T))
      → s.result ≡ o
      → IsOutcome s o
      → s.done ≡ true
      → (r : HedgeResult T) × (s.result ≡ some r) × IsResolved s r
  resolution s none e h over = absurd (ground (arith, h, over))
  resolution s (some r) e h over = (r, e, h)

  -- when nothing is in flight the read has resolved, to the answer of one of its attempts
  idle-IsResolved :
      (s : Hedge T)
      → IsReachable s
      → s.in_flight ≡ []
      → (r : HedgeResult T) × (s.result ≡ some r) × IsResolved s r
  idle-IsResolved s way idle =
      let v = reachable-IsValid s way in
      elim (Bool-cases s.done) [
        | inr open_ ↦ absurd (ground (arith, v.awaited open_, ap length idle))
        | inl over ↦ resolution s s.result refl v.kept.outcome over
      ]

  finish-gives :
      (w : Attempt T) (s : Hedge T)
      → s.done ≡ false
      → (finish w s).result ≡ some (record { resp = w.r; started = s.started; winner = w.n })
  unfolding finish
  finish-gives w s open_ = rw open_ refl

  -- While a hedged read has no result, the first attempt that settles with a status that is not
  -- retryable gives it, and every other request is aborted.
  pub settle-success :
      (s : Hedge T) (w : Attempt T)
      → IsReachable s
      → s.result ≡ none
      → Memᴰ w.n s.in_flight
      → retryable w.r ≡ false
      → let t = settle w s in
        let r : HedgeResult T = record { resp = w.r; started = s.started; winner = w.n } in
        (t.result ≡ some r) × IsResolved t r
  unfolding settle
  settle-success s w way none_yet m good =
      let t = settle w s in
      let r : HedgeResult T = record { resp = w.r; started = s.started; winner = w.n } in
      let open_ : s.done ≡ false =
        subst (IsOutcome s) none_yet (reachable-IsValid s way).kept.outcome in
      let given : t.result ≡ some r = rw good (finish-gives w (answered w s) open_) in
      let v = reachable-IsValid t (after way (settles w m refl)) in
      (given, subst (IsOutcome t) given v.kept.outcome)
