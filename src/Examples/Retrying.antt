-- ===== src/Examples/Retrying.antt =====
-- Examples for experiments/client-retries/lib/policy.ts: a read that is hedged, and one that fails
-- after its deadline; a session that is renewed.

use supabase_lab.Common.{ℕ, ◌≡◌, refl, none, some, true, false, List, [], ◌∷◌, Memᴰ}
use supabase_lab.Retry.{
  Resp, Attempt, HedgeResult, Hedge, retryable, settle, hedge_due, deadline_passes, grace_due,
  hedged_get,
}
use supabase_lab.Retry.Steps.{hedges, times_out, settles, ◌⟶*◌, here, after, IsReachable}
use supabase_lab.Retry.Kept.{IsValid, IsResolved}
use supabase_lab.Retry.Invariant.{reachable-IsValid}
use supabase_lab.Retry.Outcome.{resolved_once, settle-success}
use supabase_lab.Retry.Refresh.{
  Client, Request, refresh_then_retry, refresh_then_retry-requests, unauthorized, is_call,
}

abbrev reply : ℕ → Resp ℕ
reply status = record { data_of = none; error = none; status = status }

abbrev second_reply : Attempt ℕ
second_reply = record { n = 2; r = reply 200 }

abbrev first_fault : Attempt ℕ
first_fault = record { n = 1; r = reply 525 }

abbrev second_fault : Attempt ℕ
second_fault = record { n = 2; r = reply 0 }

-- the first attempt is slow, and the hedge answers
abbrev hedged : Hedge ℕ
hedged = hedge_due hedged_get

abbrev won : Hedge ℕ
won = settle second_reply hedged

-- a fault starts the second attempt, and the deadline passes before it fails too
abbrev repeated : Hedge ℕ
repeated = settle first_fault hedged_get

abbrev lost : Hedge ℕ
lost = settle second_fault (deadline_passes repeated)

unfold_rules : Unit {0}
unfolding hedged_get hedge_due settle deadline_passes grace_due retryable
unfold_rules = tt

hedged-IsReachable : IsReachable hedged
unfolding unfold_rules
hedged-IsReachable = after here (hedges refl refl)

won-IsReachable : hedged ⟶* won
unfolding unfold_rules
won-IsReachable = after here (settles second_reply (Memᴰ.tail (Memᴰ.head refl)) refl)

lost-IsReachable : IsReachable lost
unfolding unfold_rules
lost-IsReachable =
    after (after (after here (settles first_fault (Memᴰ.head refl) refl)) (times_out refl refl))
      (settles second_fault (Memᴰ.head refl) refl)

abbrev hedge_won : HedgeResult ℕ
hedge_won = record { resp = reply 200; started = 2; winner = 2 }

won_controllers : won.controllers ≡ true ∷ false ∷ []
unfolding unfold_rules
won_controllers = refl

reachable-IsValid_example : IsValid lost
reachable-IsValid_example = reachable-IsValid lost lost-IsReachable

settle-success_example : (won.result ≡ some hedge_won) × IsResolved won hedge_won
unfolding unfold_rules
settle-success_example =
    settle-success hedged second_reply hedged-IsReachable refl (Memᴰ.tail (Memᴰ.head refl)) refl

abbrev late : Hedge ℕ
late = settle first_fault won

resolved_once_example : (late.result ≡ some hedge_won) × (late.started ≡ won.started)
unfolding unfold_rules
resolved_once_example =
    resolved_once won late hedge_won
      (after hedged-IsReachable (settles second_reply (Memᴰ.tail (Memᴰ.head refl)) refl)) refl
      (after here (settles first_fault (Memᴰ.head refl) refl))

-- a client whose requests are refused until the session is renewed
abbrev by_requests : List Request → Resp ℕ
by_requests [] = reply unauthorized
by_requests (_ ∷ _) = reply 200

abbrev renewing : Client ℕ
renewing = record { answer = by_requests; refresh_error = λ _. none }

renewed : (refresh_then_retry renewing []).0.resp.status ≡ 200
unfolding refresh_then_retry
renewed = refl

refresh_then_retry-requests_example : (refresh_then_retry renewing []).0.requests ≡ 2
unfolding refresh_then_retry is_call
refresh_then_retry-requests_example = (refresh_then_retry-requests renewing).0
