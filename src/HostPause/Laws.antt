-- ===== src/HostPause/Laws.antt =====
-- What a suspension measures and what its stamp changes.
use supabase_lab.Common.{
  ℕ, zero, suc, ◌+◌, ◌*◌, ◌≤◌, ◌<◌, ◌≡◌, refl, ◌↔◌, ◌≢◌, String, some, [], or_else, lookup,
  lookup-set_key, eq_iff, arith,
}
use supabase_lab.Types.{TestResult, num}
use supabase_lab.HostPause.{pause_slack_ms, round_ms, suspended_ms, with_host_suspension}

-- A suspension is reported exactly when the wall clock gained more than the slack on the monotonic
-- clock; what is reported is then the gain, rounded to the nearest millisecond.
pub suspended_ms_lem :
    (wall0 wall1 mono0 mono1 : ℕ)
    → ((suspended_ms wall0 wall1 mono0 mono1 ≡ 0)
        ↔ (1000 * wall1 + mono0 ≤ 1000 * pause_slack_ms + (1000 * wall0 + mono1)))
      × (suspended_ms wall0 wall1 mono0 mono1 ≢ 0
          → (1000 * wall1 + mono0
              ≤ 1000 * suspended_ms wall0 wall1 mono0 mono1 + (1000 * wall0 + mono1) + 500)
            × (1000 * suspended_ms wall0 wall1 mono0 mono1 + (1000 * wall0 + mono1)
                ≤ 1000 * wall1 + mono0 + 500))
unfolding suspended_ms
suspended_ms_lem wall0 wall1 mono0 mono1 = ground arith

-- A stamped result keeps its id, title, status, evidence and duration, says how many seconds the
-- host was suspended under `host_suspended_s`, and keeps every other measurement; a result of a
-- run that was awake is returned unchanged.
pub with_host_suspension_lem :
    (r : TestResult) (ms : ℕ) (key : String)
    → (with_host_suspension r 0 ≡ r)
      × ((with_host_suspension r ms).id ≡ r.id)
      × ((with_host_suspension r ms).title ≡ r.title)
      × ((with_host_suspension r ms).status ≡ r.status)
      × ((with_host_suspension r ms).evidence ≡ r.evidence)
      × ((with_host_suspension r ms).duration_ms ≡ r.duration_ms)
      × (0 < ms
          → lookup "host_suspended_s" (or_else (with_host_suspension r ms).measurements [])
            ≡ some (num (round_ms ms)))
      × (key ≢ "host_suspended_s"
          → lookup key (or_else (with_host_suspension r ms).measurements [])
            ≡ lookup key (or_else r.measurements []))
unfolding with_host_suspension
with_host_suspension_lem r zero key =
    (refl, refl, refl, refl, refl, refl, λ h. elim h [ ], λ _. refl)
with_host_suspension_lem r (suc ms) key =
    let stamp = lookup-set_key "host_suspended_s" in
    let old = or_else r.measurements [] in
    (
      refl,
      refl,
      refl,
      refl,
      refl,
      refl,
      λ _. rw (stamp "host_suspended_s" (num (round_ms (suc ms))) old) refl,
      λ other.
          ground (arith, stamp key (num (round_ms (suc ms))) old, eq_iff "host_suspended_s" key),
    )
