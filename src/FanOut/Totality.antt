-- ===== src/FanOut/Totality.antt =====
-- A fan-out request always answers every endpoint, and what it writes to the cache.
use supabase_lab.Common.{
  ℕ, ◌≡◌, refl, inl, inr, ap, ◌∙◌, ◌≤◌, ◌<◌, String, Option, none, some, Bool, true, false, not,
  ◌&&◌, List, [], ◌∷◌, map, filter, All, arith, Bool-cases, Option-cases, ltb, ltb→lt, or_else,
  if◌then◌else◌, ◌>>=◌,
}
use supabase_lab.FanOut.{
  Endpoint, profile, feed, inbox, stats, endpoints, Controls, has, CacheEntry, CacheWrite, Outcome,
}
use supabase_lab.FanOut.Ttl.{max_ttl_s}
use supabase_lab.FanOut.Calls.{Exchange, mode_for, call_made, call_one}
use supabase_lab.FanOut.Request.{
  Hits, Store, Cache, Clock, Aggregate, aggregate_of, readable, read_cache, is_hit, from_cache,
  cached_store, store_all, writes_of, calls_of, calls, ordered, fan_out, is_ok,
}
use supabase_lab.FanOut.Answers.{
  IsHonest, IsCall, call_made-IsCall, IsHonest-of_IsCall, store_all-filter, ordered-map, is_listed,
  readable-free, read_cache-HitsFrom,
}

-- an aggregate that gives an honest outcome for every endpoint, in the fixed order
pub record IsComplete {Json : Type 0} (null : Json) (controls : Controls) (a : Aggregate Json)
    : Type 0 where
  pub outs : List (Outcome Json)
  pub every : map (λ out. out.endpoint) outs ≡ endpoints
  pub reports : a.upstreams ≡ map (λ out. (out.endpoint, out.report)) outs
  pub bodies : a.data_of ≡ map (λ out. (out.endpoint, out.body)) outs
  pub honest : All (IsHonest null controls) outs

settle-pick :
    {Json : Type 0} (o : Option (CacheEntry Json)) (out : Outcome Json) (listed : Bool)
    → listed ≡ true
    → (if listed && not (is_hit o) then some out else cached_store o)
      ≡ some (or_else (cached_store o) out)
unfolding cached_store
settle-pick none out listed h = rw h refl
settle-pick (some entry) out listed h = rw h refl

module _ {Json : Type 0} (null : Json) (parse_json : String → Option Json)
    (upstream : Endpoint → Option String → Exchange) (url_parses : Endpoint → Bool) (timeout_ms : ℕ)
    (controls : Controls) (valid : (e : Endpoint) → url_parses e ≡ true) where
  call_at : Endpoint → Outcome Json
  call_at e = call_made null parse_json timeout_ms e (upstream e (mode_for controls e))

  call_at-IsCall : (e : Endpoint) → IsCall null e (call_at e)
  unfolding call_at
  call_at-IsCall e = call_made-IsCall null parse_json timeout_ms e _

  calls_of-returned :
      (es : List Endpoint)
      → calls_of null parse_json upstream url_parses timeout_ms controls es ≡ some (map call_at es)
  unfolding calls_of call_one call_at
  calls_of-returned [] = refl
  calls_of-returned (e ∷ es) = rw (valid e, calls_of-returned es) refl

  writes_of-ttl :
      (es : List Endpoint)
      → All
          (λ (w : CacheWrite Json). (0 < w.ttl_s) × (w.ttl_s ≤ max_ttl_s))
          (writes_of (map call_at es))
  unfolding writes_of
  writes_of-ttl [] = tt
  writes_of-ttl (e ∷ es) =
      let ttl = or_else (call_at e).report.ttl_s 0 in
      elim (Bool-cases (is_ok (call_at e).report.status && ltb 0 ttl)) [
        | inl k ↦
            rw k ((ltb→lt 0 ttl (ground (arith, k)), (call_at-IsCall e).ttl), writes_of-ttl es)
        | inr k ↦ rw k (writes_of-ttl es)
      ]

  -- Everything that a request writes to the cache is to be kept for at least a second and for at
  -- most an hour.
  calls-ttl :
      (hits : Hits Json)
      → All
          (λ (w : CacheWrite Json). (0 < w.ttl_s) × (w.ttl_s ≤ max_ttl_s))
          (writes_of (map call_at (filter (λ e. not (is_hit (hits e))) endpoints)))
  calls-ttl hits = writes_of-ttl (filter (λ e. not (is_hit (hits e))) endpoints)

  module _ (c : Option (Cache Json)) (clock : Clock) where
    hits_of : Hits Json
    hits_of = (read_cache c controls clock.read_ms).hits

    answer : Endpoint → Outcome Json
    answer e = or_else (cached_store (hits_of e)) (call_at e)

    missing : List (Outcome Json)
    missing = map call_at (filter (λ e. not (is_hit (hits_of e))) endpoints)

    settled : Store Json
    settled = store_all (λ e. cached_store (hits_of e)) missing

    hits_of-from :
        (e : Endpoint) (entry : CacheEntry Json)
        → hits_of e ≡ some entry
        → (entry.endpoint ≡ e) × (has (readable controls) e ≡ true) × (controls.refresh ≡ false)
    unfolding hits_of
    hits_of-from e entry k = read_cache-HitsFrom c controls clock.read_ms e entry k

    settled-answer : (e : Endpoint) → settled e ≡ some (answer e)
    unfolding settled missing answer call_at cached_store
    settled-answer e =
        store_all-filter call_at (λ e. not (is_hit (hits_of e))) endpoints e _
          (λ a. (call_at-IsCall a).at)
        ∙ settle-pick (hits_of e) (call_at e) _ (is_listed e)

    answer-endpoint : (e : Endpoint) → (answer e).endpoint ≡ e
    unfolding answer cached_store from_cache
    answer-endpoint e = elim (Option-cases (hits_of e)) [
      | inl k ↦ rw k (call_at-IsCall e).at
      | inr (entry, k) ↦ rw k (hits_of-from e entry k).0
    ]

    answer-IsHonest : (e : Endpoint) → IsHonest null controls (answer e)
    unfolding answer cached_store from_cache is_ok
    answer-IsHonest e = elim (Option-cases (hits_of e)) [
      | inl k ↦ rw k (IsHonest-of_IsCall null controls e (call_at e) (call_at-IsCall e))
      | inr (entry, k) ↦
          let (at, permitted, stale) = hits_of-from e entry k in
          let (steady, fast) = readable-free controls e permitted in
          rw k (record {
            cached = λ h. rw at (steady, fast, stale);
            failed = λ h. absurd (ground (arith, h));
          })
    ]

    map-answer-endpoint :
        map (λ (out : Outcome Json). out.endpoint) (map answer endpoints) ≡ endpoints
    map-answer-endpoint =
        rw
          (
            answer-endpoint profile,
            answer-endpoint feed,
            answer-endpoint inbox,
            answer-endpoint stats,
          )
          refl

    -- A request whose endpoints' URLs parse always gives an aggregate: each endpoint has its report and its body in it, in the
    -- fixed order; an answer from the cache is of an endpoint that is not forced to fail or to be
    -- slow, in a request that does not refresh; and an answer that is not ok comes from upstream
    -- and has a null body.
    pub fan_out-IsComplete :
        (a : Aggregate Json) × (fan_out null parse_json upstream url_parses timeout_ms controls c
            clock
          ≡ some a)
        × IsComplete null controls a
    unfolding fan_out aggregate_of settled missing hits_of calls
    fan_out-IsComplete =
        let info = (read_cache c controls clock.read_ms).info in
        let aggregate = aggregate_of null parse_json upstream url_parses timeout_ms c clock info in
        let finish = aggregate missing in
        (
          finish (map answer endpoints),
          ap
                (λ called. called >>= λ outcomes.
                  ordered (store_all (λ e. cached_store (hits_of e)) outcomes) endpoints >>= λ outs.
                  some (aggregate outcomes outs))
                (calls_of-returned (filter (λ e. not (is_hit (hits_of e))) endpoints))
              ∙ ap (λ o. o >>= λ outs. some (finish outs))
                  (ordered-map settled answer endpoints settled-answer),
          record {
            outs = map answer endpoints;
            every = map-answer-endpoint;
            reports = refl;
            bodies = refl;
            honest = (
              answer-IsHonest profile,
              (answer-IsHonest feed, (answer-IsHonest inbox, (answer-IsHonest stats, tt))),
            );
          },
        )
