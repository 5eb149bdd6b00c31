-- ===== src/FanOut/Answers.antt =====
-- What a fan-out request answers for each endpoint, and what it stores.
use mathlib.Core.Option.{some-injective}
use supabase_lab.Common.{
  of_mem-filter, mem_of_includes, subst, ℕ, ◌≡◌, refl, ap, sym, ◌∙◌, inl, inr, ◌≤◌, String, Option,
  none, some, Bool, true, false, not, ◌&&◌, List, [], ◌∷◌, map, filter, includes, arith, Bool-cases,
  or_else, if◌then◌else◌,
}
use supabase_lab.FanOut.{
  Endpoint, profile, feed, inbox, stats, endpoints, endpoint_eq, endpoint_eq_iff, Controls, has,
  cache, upstream, CacheEntry, Outcome,
}
use supabase_lab.FanOut.Ttl.{cache_ttl-le, max_ttl_s}
use supabase_lab.FanOut.Calls.{
  Exchange, answered, threw, call_made, parsed, failed_call, is_ok_http,
}
use supabase_lab.FanOut.Request.{
  Hits, Store, Cache, Reading, entries, read_threw, readable, set_hit, take_hits, after_read,
  read_some, read_cache, store_all, ordered, is_ok,
}

-- a hit is of the endpoint it stands for, which may be read from the cache
abbrev HitsFrom : {Json : Type 0} → List Endpoint → Hits Json → Type 0
HitsFrom {Json = Json} allowed hits =
    (e : Endpoint) (entry : CacheEntry Json)
    → hits e ≡ some entry
    → (entry.endpoint ≡ e) × (has allowed e ≡ true)

module _ {Json : Type 0} where
  set_hit-HitsFrom :
      (allowed : List Endpoint) (hits : Hits Json) (entry : CacheEntry Json)
      → HitsFrom allowed hits
      → HitsFrom allowed (if has allowed entry.endpoint then set_hit entry hits else hits)
  unfolding set_hit
  set_hit-HitsFrom allowed hits entry h e found k = elim (Bool-cases (has allowed entry.endpoint)) [
    | inr out ↦ h e found (rw out at k)
    | inl permitted ↦ elim (Bool-cases (endpoint_eq entry.endpoint e)) [
      | inr other ↦ h e found (rw (permitted, other) at k)
      | inl same ↦
          let is : entry ≡ found = some-injective _ _ (rw (permitted, same) at k) in
          let at = (endpoint_eq_iff entry.endpoint e).0 same in
          (ap (λ x. x.endpoint) (sym is) ∙ at, subst (λ x. has allowed x ≡ true) at permitted)
    ]
  ]

  take_hits-HitsFrom :
      (allowed : List Endpoint) (found : List (CacheEntry Json)) (hits : Hits Json)
      → HitsFrom allowed hits
      → HitsFrom allowed (take_hits allowed hits found)
  unfolding take_hits
  take_hits-HitsFrom allowed [] hits h = h
  take_hits-HitsFrom allowed (entry ∷ rest) hits h =
      take_hits-HitsFrom allowed rest
        (if has allowed entry.endpoint then set_hit entry hits else hits)
        (set_hit-HitsFrom allowed hits entry h)

  after_read-HitsFrom :
      (allowed : List Endpoint) (read_ms : ℕ) (r : Reading Json)
      → HitsFrom allowed (after_read allowed read_ms r).hits
  unfolding after_read
  after_read-HitsFrom allowed read_ms (entries found) =
      take_hits-HitsFrom allowed found _ λ e entry k. absurd (ground (arith, k))
  after_read-HitsFrom allowed read_ms (read_threw why) = λ e entry k. absurd (ground (arith, k))

  read_some-HitsFrom :
      (c : Cache Json) (read_ms : ℕ) (allowed : List Endpoint)
      → HitsFrom allowed (read_some c read_ms allowed).hits
  unfolding read_some
  read_some-HitsFrom c read_ms [] = λ e entry k. absurd (ground (arith, k))
  read_some-HitsFrom c read_ms (a ∷ rest) =
      after_read-HitsFrom (a ∷ rest) read_ms (c.get (a ∷ rest))

  -- a hit is of a readable endpoint, and there is none when the cache is to be refreshed
  pub read_cache-HitsFrom :
      (c : Option (Cache Json)) (controls : Controls) (read_ms : ℕ) (e : Endpoint)
      (entry : CacheEntry Json)
      → (read_cache c controls read_ms).hits e ≡ some entry
      → (entry.endpoint ≡ e) × (has (readable controls) e ≡ true) × (controls.refresh ≡ false)
  unfolding read_cache
  read_cache-HitsFrom none controls read_ms e entry k = absurd (ground (arith, k))
  read_cache-HitsFrom (some c) controls read_ms e entry k = elim (Bool-cases controls.refresh) [
    | inl fresh ↦ absurd (ground (arith, rw fresh at k))
    | inr stale ↦
        let (at, permitted) =
          read_some-HitsFrom c read_ms (readable controls) e entry (rw stale at k) in
        (at, permitted, stale)
  ]

  pub store_all-filter :
      (call : Endpoint → Outcome Json) (p : Endpoint → Bool) (es : List Endpoint) (e : Endpoint)
      (store : Store Json)
      → ((a : Endpoint) → (call a).endpoint ≡ a)
      → store_all store (map call (filter p es)) e
        ≡ (if includes endpoint_eq e es && p e then some (call e) else store e)
  unfolding store_all
  store_all-filter call p [] e store h = refl
  store_all-filter call p (a ∷ es) e store h = elim (Bool-cases (p a)) [
    | inl e1 ↦
        let later : Store Json =
          λ e'. if endpoint_eq (call a).endpoint e' then some (call a) else store e' in
        rw e1 (
          store_all-filter call p es e later h
          ∙ ground (arith, h a, endpoint_eq_iff e a, endpoint_eq_iff (call a).endpoint e))
    | inr e2 ↦ rw e2 (store_all-filter call p es e store h ∙ ground (arith, endpoint_eq_iff e a))
  ]

  pub ordered-map :
      (store : Store Json) (answer : Endpoint → Outcome Json) (es : List Endpoint)
      → ((e : Endpoint) → store e ≡ some (answer e))
      → ordered store es ≡ some (map answer es)
  unfolding ordered
  ordered-map store answer [] h = refl
  ordered-map store answer (e ∷ es) h = rw (h e, ordered-map store answer es h) refl

pub is_listed : (e : Endpoint) → includes endpoint_eq e endpoints ≡ true
is_listed profile = refl
is_listed feed = refl
is_listed inbox = refl
is_listed stats = refl

-- a readable endpoint is not forced to fail or to be slow
pub readable-free :
    (controls : Controls) (e : Endpoint)
    → has (readable controls) e ≡ true
    → (has controls.fail e ≡ false) × (has controls.slow e ≡ false)
unfolding readable
readable-free controls e h =
    let (m, free) =
      of_mem-filter (λ e. not (has controls.fail e) && not (has controls.slow e)) e endpoints
        (mem_of_includes endpoint_eq endpoint_eq_iff e _ h) in
    (ground (arith, free), ground (arith, free))

-- an answer from the cache is of an endpoint that is not forced, in a request that does not
-- refresh; an answer that is not ok comes from upstream and has no body
pub record IsHonest {Json : Type 0} (null : Json) (controls : Controls) (out : Outcome Json)
    : Type 0 where
  pub cached :
      out.report.source ≡ cache
      → (has controls.fail out.endpoint ≡ false)
        × (has controls.slow out.endpoint ≡ false)
        × (controls.refresh ≡ false)
  pub failed : is_ok out.report.status ≡ false → (out.body ≡ null) × (out.report.source ≡ upstream)

-- what holds of the outcome of every call
pub record IsCall {Json : Type 0} (null : Json) (e : Endpoint) (out : Outcome Json) : Type 0 where
  pub at : out.endpoint ≡ e
  pub from : out.report.source ≡ upstream
  pub failed : is_ok out.report.status ≡ false → out.body ≡ null
  pub ttl : or_else out.report.ttl_s 0 ≤ max_ttl_s

module _ {Json : Type 0} (null : Json) (parse_json : String → Option Json) (timeout_ms : ℕ) where
  if-IsCall :
      (e : Endpoint) (b : Bool) (x y : Outcome Json)
      → IsCall null e x
      → IsCall null e y
      → IsCall null e (if b then x else y)
  if-IsCall e true x y p q = p
  if-IsCall e false x y p q = q

  failed_call-IsCall :
      (e : Endpoint) (ms : ℕ) (http : Option ℕ) (why : String)
      → IsCall null e (record { endpoint = e; body = null; report = failed_call ms http why })
  unfolding failed_call
  failed_call-IsCall e ms http why = record {
    at = refl;
    from = refl;
    failed = λ h. refl;
    ttl = omega arith;
  }

  parsed-IsCall :
      (e : Endpoint) (ms http : ℕ) (header : Option String) (o : Option Json)
      → IsCall null e (parsed null parse_json timeout_ms e ms http header o)
  unfolding parsed is_ok
  parsed-IsCall e ms http header none = failed_call-IsCall e ms (some http) _
  parsed-IsCall e ms http header (some body) = record {
    at = refl;
    from = refl;
    failed = λ h. absurd (ground (arith, h));
    ttl = cache_ttl-le header;
  }

  pub call_made-IsCall :
      (e : Endpoint) (x : Exchange) → IsCall null e (call_made null parse_json timeout_ms e x)
  unfolding call_made
  call_made-IsCall e (answered ms http text header) =
      if-IsCall e (is_ok_http http) _ _ (parsed-IsCall e ms http header (parse_json text))
        (failed_call-IsCall e ms (some http) _)
  call_made-IsCall e (threw ms true message) = record {
    at = refl;
    from = refl;
    failed = λ h. refl;
    ttl = omega arith;
  }
  call_made-IsCall e (threw ms false message) = failed_call-IsCall e ms none _

pub IsHonest-of_IsCall :
    {Json : Type 0} (null : Json) (controls : Controls) (e : Endpoint) (out : Outcome Json)
    → IsCall null e out
    → IsHonest null controls out
IsHonest-of_IsCall null controls e out call = record {
  cached = λ h. absurd (ground (arith, h, call.from));
  failed = λ h. (call.failed h, call.from);
}
