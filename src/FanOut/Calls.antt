-- ===== src/FanOut/Calls.antt =====
-- `callOne` of fanout.ts: one upstream call, from what the fetch came to.
use supabase_lab.Common.{
  ℕ, String, Option, none, some, Bool, true, false, ◌&&◌, ltb, leb, show, ◌<>◌, take_text,
  if◌then◌else◌,
}
use supabase_lab.FanOut.{
  Endpoint, Controls, has, UpstreamReport, ok, error, timeout, upstream, Outcome,
}
use supabase_lab.FanOut.Ttl.{cache_ttl}

-- what a fetch and the read of its body came to, with the time they took: an answer with its
-- status, text and Cache-Control header, or a throw with the abort flag and the message
pub data Exchange : Type 0 where
  answered : ℕ → ℕ → String → Option String → Exchange
  threw : ℕ → Bool → String → Exchange

-- the `mode` that the request asks the upstream for
unfoldable pub mode_for : Controls → Endpoint → Option String
mode_for controls e =
    if has controls.fail e then some "fail" else if has controls.slow e then some "slow" else none

-- `r.ok`
unfoldable pub is_ok_http : ℕ → Bool
is_ok_http http = leb 200 http && ltb http 300

unfoldable pub failed_call : ℕ → Option ℕ → String → UpstreamReport
failed_call ms http why = record {
  status = error;
  source = upstream;
  ms = ms;
  http = http;
  ttl_s = none;
  age_s = none;
  error = some why;
}

module _ {Json : Type 0} (null : Json) (parse_json : String → Option Json) (timeout_ms : ℕ) where
  unfoldable pub parsed : Endpoint → ℕ → ℕ → Option String → Option Json → Outcome Json
  unfolding failed_call
  parsed e ms http header none = record {
    endpoint = e;
    body = null;
    report = failed_call ms (some http) "upstream body is not JSON";
  }
  parsed e ms http header (some body) = record {
    endpoint = e;
    body = body;
    report = record {
      status = ok;
      source = upstream;
      ms = ms;
      http = some http;
      ttl_s = some (cache_ttl header);
      age_s = none;
      error = none;
    };
  }

  -- the request is made, and the fetch comes to an answer or a throw
  unfoldable pub call_made : Endpoint → Exchange → Outcome Json
  unfolding parsed is_ok_http failed_call show
  call_made e (answered ms http text header) =
      if is_ok_http http then parsed e ms http header (parse_json text) else record {
        endpoint = e;
        body = null;
        report = failed_call ms (some http) ("upstream http " <> show http);
      }
  call_made e (threw ms aborted message) = record {
    endpoint = e;
    body = null;
    report =
        if aborted
        then record {
          status = timeout;
          source = upstream;
          ms = ms;
          http = none;
          ttl_s = none;
          age_s = none;
          error = some ("no answer within " <> show timeout_ms <> " ms");
        }
        else failed_call ms none (take_text 200 message);
  }

  -- `callOne`, with whether `new URL` takes the endpoint's URL. It throws otherwise, before the
  -- `try`, which is `none`.
  unfoldable pub call_one : Bool → Endpoint → Exchange → Option (Outcome Json)
  unfolding call_made
  call_one false e x = none
  call_one true e x = some (call_made e x)
