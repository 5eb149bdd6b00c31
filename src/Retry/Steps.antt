-- ===== src/Retry/Steps.antt =====
-- experiments/client-retries/lib/policy.ts: what can happen to a hedged read, as steps.
use supabase_lab.Common.{◌≡◌, true, false, Memᴰ}
use supabase_lab.Retry.{Attempt, Hedge, hedge_due, deadline_passes, grace_due, settle, hedged_get}

infix 40 ◌⟶◌ ◌⟶*◌
-- one turn of the event loop: a timer that is set fires, the deadline passes, or an attempt that is
-- in flight settles
pub data ◌⟶◌ {T : Type 0} : Hedge T → Hedge T → Type 0 where
  hedges : {s t : Hedge T} → s.hedge_timer ≡ true → t ≡ hedge_due s → s ⟶ t
  times_out : {s t : Hedge T} → s.deadline_aborted ≡ false → t ≡ deadline_passes s → s ⟶ t
  gives_up : {s t : Hedge T} → s.grace_timer ≡ true → t ≡ grace_due s → s ⟶ t
  settles : {s t : Hedge T} (w : Attempt T) → Memᴰ w.n s.in_flight → t ≡ settle w s → s ⟶ t

pub data ◌⟶*◌ {T : Type 0} : Hedge T → Hedge T → Type 0 where
  here : {s : Hedge T} → s ⟶* s
  after : {s t u : Hedge T} → s ⟶* t → t ⟶ u → s ⟶* u

-- a state that some order of events leads to
abbrev pub IsReachable : {T : Type 0} → Hedge T → Type 0
IsReachable s = hedged_get ⟶* s
