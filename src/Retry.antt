-- ===== src/Retry.antt =====
-- experiments/client-retries/lib/policy.ts: the answer of a request, the policy that hedges a read
-- with one more attempt, and the policy that refreshes a session on a 401 (`Retry.Refresh`).
pub mod Attempts
pub mod Steps
pub mod Kept
pub mod Invariant
pub mod Outcome
pub mod Refresh
use supabase_lab.Common.{
  ℕ, suc, ◌+◌, Option, none, some, Bool, true, false, not, ◌&&◌, ◌||◌, List, [], ◌∷◌, ◌++◌, map,
  length, leb, ltb, ◌==◌, if◌then◌else◌, String,
}

pub record RespError : Type 0 where
  pub code : Option String
  pub message : Option String
  pub name : Option String

pub record Resp (T : Type 0) : Type 0 where
  pub data_of : Option T
  pub error : Option RespError
  pub status : ℕ

unfoldable pub retryable : {T : Type 0} → Resp T → Bool
retryable r = r.status == 0 || leb 500 r.status

-- what attempt `n` came to
pub record Attempt (T : Type 0) : Type 0 where
  pub n : ℕ
  pub r : Resp T

pub record HedgeResult (T : Type 0) : Type 0 where
  pub resp : Resp T
  pub started : ℕ
  pub winner : ℕ

-- The variables of `hedgedGet`, and what the runtime keeps for it: the timers that are set, the
-- attempts whose promise has not settled, whether each controller has aborted, and what the promise
-- that is returned resolved to.
pub record Hedge (T : Type 0) : Type 0 where
  pub started : ℕ
  pub settled : ℕ
  pub done : Bool
  pub last : Option (Attempt T)
  pub hedge_timer : Bool
  pub deadline_aborted : Bool
  pub grace_timer : Bool
  pub controllers : List Bool
  pub in_flight : List ℕ
  pub result : Option (HedgeResult T)

-- `for (const [i, c] of controllers.entries()) if (i + 1 !== w.n) c.abort()`, from entry `i` on
unfoldable pub abort_others : ℕ → ℕ → List Bool → List Bool
abort_others n i [] = []
abort_others n i (c ∷ cs) = (if suc i == n then c else true) ∷ abort_others n (suc i) cs

-- the list without the first entry that is `n`
unfoldable pub without_attempt : ℕ → List ℕ → List ℕ
without_attempt n [] = []
without_attempt n (m ∷ ms) = let rest = without_attempt n ms in if m == n then ms else m ∷ rest

module _ {T : Type 0} where
  -- a request under a controller of its own
  unfoldable pub start : Hedge T → Hedge T
  start s = record s {
    controllers = s.controllers ++ false ∷ [];
    in_flight = s.in_flight ++ suc (length s.controllers) ∷ [];
  }

  unfoldable pub launch : Hedge T → Hedge T
  unfolding start
  launch s = if s.done || leb 2 s.started then s else start (record s { started = suc s.started })

  unfoldable pub finish : Attempt T → Hedge T → Hedge T
  unfolding abort_others
  finish w s = if s.done then s else (record s {
    done = true;
    hedge_timer = false;
    controllers = abort_others w.n 0 s.controllers;
    result = some (record { resp = w.r; started = s.started; winner = w.n });
  })

  -- the continuation of an attempt that has settled
  unfoldable pub settle : Attempt T → Hedge T → Hedge T
  unfolding finish launch without_attempt retryable
  settle w s =
      let t = record s {
        settled = suc s.settled;
        last = some w;
        in_flight = without_attempt w.n s.in_flight;
      } in
      if not (retryable w.r)
      then finish w t
      else (if ltb t.started 2 && not t.deadline_aborted
          then launch t
          else (if t.settled == t.started then finish w t else t))

  -- the timer that hedges
  unfoldable pub hedge_due : Hedge T → Hedge T
  unfolding launch
  hedge_due s = launch (record s { hedge_timer = false })

  -- the deadline aborts every controller, and sets the timer of 50 ms
  unfoldable pub deadline_passes : Hedge T → Hedge T
  deadline_passes s = record s {
    deadline_aborted = true;
    grace_timer = true;
    controllers = map (λ _. true) s.controllers;
  }

  unfoldable pub finish_last : Option (Attempt T) → Hedge T → Hedge T
  unfolding finish
  finish_last none s = s
  finish_last (some w) s = finish w s

  unfoldable pub grace_due : Hedge T → Hedge T
  unfolding finish_last
  grace_due s = finish_last s.last (record s { grace_timer = false })

  -- the state that the call of `hedgedGet` leaves
  unfoldable pub hedged_get : Hedge T
  unfolding launch
  hedged_get = launch (record {
    started = 0;
    settled = 0;
    done = false;
    last = none;
    hedge_timer = true;
    deadline_aborted = false;
    grace_timer = false;
    controllers = [];
    in_flight = [];
    result = none;
  })
