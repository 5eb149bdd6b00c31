-- ===== src/FanOut/Request.antt =====
-- `fanOut` of fanout.ts. The cache's answers, the upstream's and the clock's differences are
-- parameters, and so is whether an endpoint's URL parses. A property that is read before it is set is an exception, here `none`, as what `callOne` throws is.
use supabase_lab.Common.{
  ◌>>=◌, ℕ, String, Option, none, some, Bool, true, false, not, ◌&&◌, List, [], ◌∷◌, map, filter,
  some_of, ltb, or_else, take_text, if◌then◌else◌,
}
use supabase_lab.FanOut.{
  Endpoint, endpoints, endpoint_eq, Controls, has, UpstreamStatus, ok, error, timeout, cache,
  UpstreamReport, CacheEntry, CacheWrite, Outcome,
}
use supabase_lab.FanOut.Calls.{Exchange, mode_for, call_one}

pub data ReadState : Type 0 where
  hit miss skipped read_failed read_off : ReadState

pub data WriteState : Type 0 where
  written nothing write_failed write_off : WriteState

pub record CacheInfo : Type 0 where
  pub read : ReadState
  pub read_ms : ℕ
  pub write : WriteState
  pub write_ms : ℕ
  pub error : Option String

unfoldable pub is_ok : UpstreamStatus → Bool
is_ok ok = true
is_ok error = false
is_ok timeout = false

pub data Reading (Json : Type 0) : Type 0 where
  entries : List (CacheEntry Json) → Reading Json
  read_threw : String → Reading Json

-- what the cache answers to a read of some endpoints, and why a write throws, if it does
pub record Cache (Json : Type 0) : Type 0 where
  pub get : List Endpoint → Reading Json
  pub put : List (CacheWrite Json) → Option String

-- what the readings of the clock around the parts come to
pub record Clock : Type 0 where
  pub read_ms : ℕ
  pub write_ms : ℕ
  pub total_ms : ℕ

pub record Aggregate (Json : Type 0) : Type 0 where
  pub partial : Bool
  pub total_ms : ℕ
  pub timeout_ms : ℕ
  pub cache : CacheInfo
  pub data_of : List (Endpoint × Json)
  pub upstreams : List (Endpoint × UpstreamReport)

-- the state of the cache part of a request
pub record Cached (Json : Type 0) : Type 0 where
  pub hits : Endpoint → Option (CacheEntry Json)
  pub info : CacheInfo

unfoldable pub readable : Controls → List Endpoint
readable controls = filter (λ e. not (has controls.fail e) && not (has controls.slow e)) endpoints

abbrev pub Hits : Type 0 → Type 0
Hits Json = Endpoint → Option (CacheEntry Json)

-- `data` and `upstreams` by endpoint
abbrev pub Store : Type 0 → Type 0
Store Json = Endpoint → Option (Outcome Json)

info_of : ReadState → ℕ → Option String → CacheInfo
info_of read read_ms why = record {
  read = read;
  read_ms = read_ms;
  write = nothing;
  write_ms = 0;
  error = why;
}

module _ {Json : Type 0} where
  -- `map.set`
  unfoldable pub set_hit : CacheEntry Json → Hits Json → Hits Json
  set_hit entry hits e = if endpoint_eq entry.endpoint e then some entry else hits e

  unfoldable pub take_hits : List Endpoint → Hits Json → List (CacheEntry Json) → Hits Json
  unfolding set_hit
  take_hits allowed hits [] = hits
  take_hits allowed hits (entry ∷ rest) =
      take_hits allowed (if has allowed entry.endpoint then set_hit entry hits else hits) rest

  abbrev pub is_hit : Option (CacheEntry Json) → Bool
  is_hit none = false
  is_hit (some entry) = true

  abbrev no_hits : Hits Json
  no_hits e = none

  unfoldable pub after_read : List Endpoint → ℕ → Reading Json → Cached Json
  unfolding take_hits info_of
  after_read allowed read_ms (entries found) =
      let hits = take_hits allowed no_hits found in
      record {
        hits = hits;
        info =
            info_of (if some_of (λ e. is_hit (hits e)) endpoints then hit else miss) read_ms none;
      }
  after_read allowed read_ms (read_threw message) = record {
    hits = no_hits;
    info = info_of read_failed read_ms (some (take_text 200 message));
  }

  unfoldable pub read_some : Cache Json → ℕ → List Endpoint → Cached Json
  unfolding after_read info_of
  read_some c read_ms [] = record { hits = no_hits; info = info_of miss 0 none }
  read_some c read_ms (e ∷ es) = after_read (e ∷ es) read_ms (c.get (e ∷ es))

  unfoldable pub read_cache : Option (Cache Json) → Controls → ℕ → Cached Json
  unfolding read_some readable info_of
  read_cache none controls read_ms = record {
    hits = no_hits;
    info = record { read = read_off; read_ms = 0; write = write_off; write_ms = 0; error = none };
  }
  read_cache (some c) controls read_ms =
      if controls.refresh
      then record { hits = no_hits; info = info_of skipped 0 none }
      else read_some c read_ms (readable controls)

  unfoldable pub from_cache : CacheEntry Json → Outcome Json
  from_cache entry = record {
    endpoint = entry.endpoint;
    body = entry.body;
    report = record {
      status = ok;
      source = cache;
      ms = 0;
      http = none;
      ttl_s = none;
      age_s = some entry.age_s;
      error = none;
    };
  }

  unfoldable pub cached_store : Option (CacheEntry Json) → Option (Outcome Json)
  unfolding from_cache
  cached_store none = none
  cached_store (some entry) = some (from_cache entry)

  unfoldable pub store_all : Store Json → List (Outcome Json) → Store Json
  store_all store [] = store
  store_all store (out ∷ outs) =
      store_all (λ e. if endpoint_eq out.endpoint e then some out else store e) outs

  unfoldable pub writes_of : List (Outcome Json) → List (CacheWrite Json)
  unfolding is_ok
  writes_of [] = []
  writes_of (out ∷ outs) =
      let rest = writes_of outs in
      let ttl = or_else out.report.ttl_s 0 in
      if is_ok out.report.status && ltb 0 ttl
      then record { endpoint = out.endpoint; body = out.body; ttl_s = ttl } ∷ rest
      else rest

  put_all : Cache Json → ℕ → List (CacheWrite Json) → CacheInfo → CacheInfo
  put_all c write_ms [] info = info
  put_all c write_ms (w ∷ ws) info = elim (c.put (w ∷ ws)) [
    | none ↦ record info { write = written; write_ms = write_ms }
    | some why ↦ record info {
      write = write_failed;
      write_ms = write_ms;
      error = some (take_text 200 why);
    }
  ]

  unfoldable pub write_cache :
      Option (Cache Json) → ℕ → List (CacheWrite Json) → CacheInfo → CacheInfo
  unfolding put_all
  write_cache none write_ms writes info = info
  write_cache (some c) write_ms writes info = put_all c write_ms writes info

  -- what the store holds of each endpoint, in the fixed order
  unfoldable pub ordered : Store Json → List Endpoint → Option (List (Outcome Json))
  ordered store [] = some []
  ordered store (e ∷ es) = do out ← store e; outs ← ordered store es; some (out ∷ outs)

module _ {Json : Type 0} (null : Json) (parse_json : String → Option Json)
    (upstream : Endpoint → Option String → Exchange) (url_parses : Endpoint → Bool) where
  -- `Promise.all` of the calls, `none` if one throws
  unfoldable pub calls_of : ℕ → Controls → List Endpoint → Option (List (Outcome Json))
  unfolding call_one mode_for
  calls_of timeout_ms controls [] = some []
  calls_of timeout_ms controls (e ∷ es) = do
    out ← call_one null parse_json timeout_ms (url_parses e) e (upstream e (mode_for controls e))
    outs ← calls_of timeout_ms controls es
    some (out ∷ outs)

  unfoldable pub calls : ℕ → Controls → Hits Json → Option (List (Outcome Json))
  unfolding calls_of
  calls timeout_ms controls hits =
      calls_of timeout_ms controls (filter (λ e. not (is_hit (hits e))) endpoints)

  unfoldable pub aggregate_of :
      ℕ
      → Option (Cache Json)
      → Clock
      → CacheInfo
      → List (Outcome Json)
      → List (Outcome Json)
      → Aggregate Json
  unfolding writes_of write_cache is_ok
  aggregate_of timeout_ms c clock info outcomes outs = record {
    partial = some_of (λ out. not (is_ok out.report.status)) outs;
    total_ms = clock.total_ms;
    timeout_ms = timeout_ms;
    cache = write_cache c clock.write_ms (writes_of outcomes) info;
    data_of = map (λ out. (out.endpoint, out.body)) outs;
    upstreams = map (λ out. (out.endpoint, out.report)) outs;
  }

  unfoldable pub fan_out : ℕ → Controls → Option (Cache Json) → Clock → Option (Aggregate Json)
  unfolding read_cache calls store_all cached_store ordered aggregate_of
  fan_out timeout_ms controls c clock =
      let cached = read_cache c controls clock.read_ms in
      do
        outcomes ← calls timeout_ms controls cached.hits
        let settled = store_all (λ e. cached_store (cached.hits e)) outcomes
        outs ← ordered settled endpoints
        some (aggregate_of timeout_ms c clock cached.info outcomes outs)
