-- ===== src/Retry/Refresh.antt =====
-- experiments/client-retries/lib/policy.ts: `refreshThenRetry`. The client answers each request by
-- any function of the requests that were made before it.
use mathlib.Core.Option.{some-injective}
use supabase_lab.Common.{
  ℕ, ◌≡◌, ◌≢◌, refl, sym, ap, ◌∙◌, inl, inr, Option, none, some, Bool, true, false, List, [], ◌∷◌,
  ◌++◌, length, filter, ◌==◌, if◌then◌else◌, Bool-cases, String, or_else, arith,
}
use supabase_lab.Retry.{Resp, RespError}

pub data Request : Type 0 where
  call : Request
  refresh_session : Request

pub record Client (T : Type 0) : Type 0 where
  pub answer : List Request → Resp T
  pub refresh_error : List Request → Option RespError

pub record RefreshResult (T : Type 0) : Type 0 where
  pub resp : Resp T
  pub refreshed : Bool
  pub refresh_error : String
  pub requests : ℕ

-- `error.code ?? error.name ?? "refresh_failed"`
pub error_name : RespError → String
error_name e = or_else e.code (or_else e.name "refresh_failed")

abbrev pub unauthorized : ℕ
unauthorized = 401

unfoldable pub is_call : Request → Bool
is_call Request.call = true
is_call Request.refresh_session = false

module _ {T : Type 0} (client : Client T) where
  -- the second request, made only when the session is refreshed
  retried : Resp T → Option RespError → List Request → RefreshResult T × List Request
  unfolding error_name
  retried first (some e) sent =
      (record { resp = first; refreshed = false; refresh_error = error_name e; requests = 1 }, sent)
  retried first none sent = (
    record { resp = client.answer sent; refreshed = true; refresh_error = ""; requests = 2 },
    sent ++ Request.call ∷ [],
  )

  -- the result, with the requests that were made
  unfoldable pub refresh_then_retry : List Request → RefreshResult T × List Request
  unfolding retried
  refresh_then_retry sent =
      let first = client.answer sent in
      let one = sent ++ Request.call ∷ [] in
      if first.status == unauthorized
      then retried first (client.refresh_error one) (one ++ Request.refresh_session ∷ [])
      else (record { resp = first; refreshed = false; refresh_error = ""; requests = 1 }, one)

  abbrev calls : List Request → ℕ
  calls sent = length (filter is_call sent)

  -- what came of a call whose first answer was a 401: the requests, and what the client's refresh of
  -- the session reported
  pub record IsRenewal (r : RefreshResult T) (sent : List Request) (e : Option RespError)
      : Type 0 where
    pub kept_out :
        (err : RespError)
        → e ≡ some err
        → (sent ≡ Request.call ∷ Request.refresh_session ∷ [])
          × (r.resp ≡ client.answer [])
          × (r.refreshed ≡ false)
          × (r.refresh_error ≡ error_name err)
    pub renewed :
        e ≡ none
        → (sent ≡ Request.call ∷ Request.refresh_session ∷ Request.call ∷ [])
          × (r.resp ≡ client.answer (Request.call ∷ Request.refresh_session ∷ []))
          × (r.refreshed ≡ true)

  renewal :
      (o e : Option RespError)
      → e ≡ o
      → let sent = Request.call ∷ Request.refresh_session ∷ [] in
        let (r, later) = retried (client.answer []) o sent in
        (r.requests ≡ calls later) × IsRenewal r later e
  unfolding retried is_call
  renewal none e same = (
    refl,
    record {
      kept_out = λ err h. absurd (ground (arith, h, same));
      renewed = λ h. (refl, refl, refl);
    },
  )
  renewal (some x) e same = (
    refl,
    record {
      kept_out = λ err h. (refl, refl, refl, ap error_name (some-injective x err (sym same ∙ h)));
      renewed = λ h. absurd (ground (arith, h, same));
    },
  )

  -- A call reports the number of its requests. It makes one if the first answer is not a 401, and
  -- gives that answer. After a 401 it refreshes the session: if that fails, it makes no other
  -- request, and gives the 401 with the error's name; if it succeeds, it makes a second one, and
  -- gives its answer, whatever that is.
  pub refresh_then_retry-requests :
      let (r, sent) = refresh_then_retry [] in
      (r.requests ≡ calls sent)
      × ((client.answer []).status ≢ unauthorized
          → (sent ≡ Request.call ∷ []) × (r.resp ≡ client.answer []))
      × ((client.answer []).status ≡ unauthorized
          → IsRenewal r sent (client.refresh_error (Request.call ∷ [])))
  unfolding refresh_then_retry is_call
  refresh_then_retry-requests = elim (Bool-cases ((client.answer []).status == unauthorized)) [
    | inr fine ↦ rw fine (refl, λ _. (refl, refl), λ h. absurd (ground (arith, fine, h)))
    | inl denied ↦
        let (counted, is) = renewal (client.refresh_error (Request.call ∷ [])) _ refl in
        rw denied (counted, λ h. absurd (ground (arith, denied, h)), λ _. is)
  ]
