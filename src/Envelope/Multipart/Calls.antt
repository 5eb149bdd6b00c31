-- ===== src/Envelope/Multipart/Calls.antt =====
-- experiments/client-keyed-objects/client/src/upload.ts: the requests that the loop over the parts
-- makes.
use supabase_lab.Common.{
  ℕ, zero, suc, ◌+◌, ◌-◌, ◌*◌, ◌≤◌, ◌<◌, ◌≡◌, refl, sym, ap, ◌∙◌, inl, inr, min, Option, none, some,
  true, List, [], ◌∷◌, ◌++◌, ◌==◌, Bool-cases, arith,
}
use mathlib.Core.List.{append-nil}
use supabase_lab.Envelope.{Bytes, Crypto}
use supabase_lab.Envelope.Upload.{AssetRow, Encrypted, encrypt_range}
use supabase_lab.Envelope.Read.Guards.{ok-injective}
use supabase_lab.Envelope.Object.{IsRow, cipher_from, hash_rows}
use supabase_lab.Envelope.Multipart.{
  Service, Progress, map_get, map_set, part_count, resume_part, place_part, parts_from,
}
use supabase_lab.Envelope.Multipart.Steps.{
  Text, Call, Program, returned, pure, of_result, request, ◌>>=◌, ◌>>◌, followed-returned,
  of_result-returned, pure-returned,
}
use supabase_lab.Envelope.Multipart.Parts.{
  part_size, body_calls, has_number, has_number-map_set, map_set-keeps_number, encrypt_range-part,
  part_cipher,
}

calls-append :
    (log : List Call) (c : Call) (body rest : List Call)
    → log ++ c ∷ [] ++ body ++ rest ≡ log ++ c ∷ (body ++ rest)
calls-append [] c body rest = refl
calls-append (x ∷ log) c body rest = ap (◌∷◌ x) (calls-append log c body rest)

module _ {Key : Type 0} (crypto : Crypto Key) (key : Key) (a : AssetRow) (source : Bytes)
    (row : IsRow a source) (part_chunks : ℕ) (some_chunks : 1 ≤ part_chunks) where
  module _ (uploaded : List (ℕ × Text)) where
    -- the requests for `k` parts from part `p` on: the hashes of a part's chunks, then the part
    unfoldable pub part_calls : ℕ → ℕ → List Call
    part_calls zero p = []
    part_calls (suc k) p =
        let n = part_size a part_chunks p in
        let first = p * part_chunks in
        Call.upsert_chunks (hash_rows crypto key a source n first)
        ∷ (body_calls (map_get (suc p) uploaded) (suc p) (cipher_from crypto key a source n first)
            ++ part_calls k (suc p))

    -- the numbers `p + 1` to `p + k` were set, and no number was lost
    pub record IsFilled (k p : ℕ) (st st' : Progress) : Type 0 where
      pub keeps : (n : ℕ) → has_number n st.etags ≡ true → has_number n st'.etags ≡ true
      pub sets : (n : ℕ) → p < n → n ≤ p + k → has_number n st'.etags ≡ true

    module _ (service : Service) (md5 : Option (Bytes → Text)) where
      resume_part-number :
          (m : Option (Bytes → Text)) (prior : Text) (pn : ℕ) (bytes : Bytes) (st : Progress)
          → (resume_part m prior pn bytes st).etags ≡ map_set pn (some prior) st.etags
      unfolding resume_part
      resume_part-number none prior pn bytes st = refl
      resume_part-number (some f) prior pn bytes st = ground arith

      place_part-calls :
          (prior : Option Text) (pn : ℕ) (bytes : Bytes) (st st' : Progress) (log later : List Call)
          → place_part service md5 prior pn bytes st log ≡ (returned st', later)
          → (later ≡ log ++ body_calls prior pn bytes)
            × (v : Option Text) × (st'.etags ≡ map_set pn v st.etags)
      unfolding place_part
      place_part-calls (some prior) pn bytes st st' log later h =
          let (same, log_same) =
            pure-returned (resume_part md5 prior pn bytes st) st' log later h in
          (
            log_same ∙ sym (append-nil log),
            some prior,
            ap (λ t. t.etags) same ∙ resume_part-number md5 prior pn bytes st,
          )
      place_part-calls none pn bytes st st' log later h =
          let c = Call.upload_part pn bytes in
          let (etag, mid, answered, rest) =
            followed-returned (request service.upload_part c log)
              (λ etag. pure (record st { etags = map_set pn etag st.etags })) st' later h in
          let (_, mid_log) =
            of_result-returned (service.upload_part (log ++ c ∷ [])) (log ++ c ∷ []) etag mid
              answered in
          let (same, log_same) =
            pure-returned (record st { etags = map_set pn etag st.etags }) st' mid later rest in
          (log_same ∙ mid_log, etag, ap (λ t. t.etags) same)

      IsFilled-zero : (p : ℕ) (st st' : Progress) → st' ≡ st → IsFilled zero p st st'
      IsFilled-zero p st st' same = record {
        keeps = λ n h. rw same h;
        sets = λ n low high. absurd (omega (arith, low, high));
      }

      IsFilled-suc :
          (k p : ℕ) (v : Option Text) (st st' st'' : Progress)
          → st'.etags ≡ map_set (suc p) v st.etags
          → IsFilled k (suc p) st' st''
          → IsFilled (suc k) p st st''
      IsFilled-suc k p v st st' st'' same f = record {
        keeps = λ n h. f.keeps n (rw same (map_set-keeps_number n (suc p) v st.etags h));
        sets = λ n low high. elim (Bool-cases (n == suc p)) [
          | inl e ↦ f.keeps n (rw same (here n e))
          | inr e ↦ f.sets n (ground (arith, e)) (omega (arith, high))
        ];
      }
        where
          here : (n : ℕ) → (n == suc p) ≡ true → has_number n (map_set (suc p) v st.etags) ≡ true
          here n e =
              let at : n ≡ suc p = ground (arith, e) in
              rw at (has_number-map_set (suc p) v st.etags)

      -- what is left of a round of the loop, once the part is encrypted
      abbrev pub part_rest : ℕ → ℕ → Progress → Encrypted → Program Progress
      part_rest k p st e = do
        request service.upsert_chunks (Call.upsert_chunks e.hashes)
        st' ← place_part service md5 (map_get (suc p) uploaded) (suc p) e.bytes st
        parts_from service crypto md5 key a source part_chunks uploaded k (suc p) st'

      part_rest-calls :
          (k p : ℕ) (e : Encrypted) (st st' : Progress) (log later : List Call)
          → part_rest k p st e log ≡ (returned st', later)
          → (v : Option Text) × (log' : List Call) × (next : Progress) × (log'
              ≡ log
                ++ Call.upsert_chunks e.hashes ∷ []
                ++ body_calls (map_get (suc p) uploaded) (suc p) e.bytes)
            × (next.etags ≡ map_set (suc p) v st.etags)
            × (parts_from service crypto md5 key a source part_chunks uploaded k (suc p) next log'
                ≡ (returned st', later))
      part_rest-calls k p e st st' log later h =
          let c = Call.upsert_chunks e.hashes in
          let prior = map_get (suc p) uploaded in
          let (u, mid, answered, rest) =
            followed-returned (request service.upsert_chunks c log)
              (λ _. place_part service md5 prior (suc p) e.bytes st >>= λ st'.
                parts_from service crypto md5 key a source part_chunks uploaded k (suc p) st')
              st' later h in
          let (_, mid_log) =
            of_result-returned (service.upsert_chunks (log ++ c ∷ [])) (log ++ c ∷ []) u mid
              answered in
          let (next, log', placed, more) =
            followed-returned (place_part service md5 prior (suc p) e.bytes st mid)
              (parts_from service crypto md5 key a source part_chunks uploaded k (suc p)) st' later
              rest in
          let (stored, v, same) = place_part-calls prior (suc p) e.bytes st next mid log' placed in
          (
            v,
            log',
            next,
            stored ∙ ap (λ l. l ++ body_calls prior (suc p) e.bytes) mid_log,
            same,
            more,
          )

      -- what the loop sends, and the numbers that it sets
      pub parts_from-calls :
          (k p : ℕ) (st st' : Progress) (log later : List Call)
          → p + k ≤ part_count a part_chunks
          → parts_from service crypto md5 key a source part_chunks uploaded k p st log
            ≡ (returned st', later)
          → (later ≡ log ++ part_calls k p) × IsFilled k p st st'
      unfolding parts_from part_calls
      parts_from-calls zero p st st' log later inside h =
          let (same, log_same) = pure-returned st st' log later h in
          (log_same ∙ sym (append-nil log), IsFilled-zero p st st' same)
      parts_from-calls (suc k) p st st' log later inside h =
          let now : p < part_count a part_chunks = omega (arith, inside) in
          let (e, mid, encrypted, rest) =
            followed-returned
              (of_result
                (encrypt_range crypto key a source (p * part_chunks)
                  (min (a.chunk_count - 1) (p * part_chunks + part_chunks - 1)))
                log)
              (part_rest k p st) st' later h in
          let (is_ok, mid_log) = of_result-returned _ log e mid encrypted in
          let of_part =
            ok-injective e (part_cipher crypto key a source row part_chunks some_chunks p) (
              sym is_ok
              ∙ encrypt_range-part crypto key a source row part_chunks some_chunks p now) in
          let (v, log', st'', stored, same, next) = part_rest-calls k p e st st' mid later rest in
          let (last_log, filled) =
            parts_from-calls k (suc p) st'' st' log' later (omega (arith, inside)) next in
          (
            last_log
                ∙ ap (λ l. l ++ part_calls k (suc p)) stored
                ∙ calls-append mid (Call.upsert_chunks e.hashes)
                    (body_calls (map_get (suc p) uploaded) (suc p) e.bytes) (part_calls k (suc p))
                ∙ ap
                    (λ l.
                      l
                      ++ Call.upsert_chunks e.hashes
                        ∷ (body_calls (map_get (suc p) uploaded) (suc p) e.bytes
                            ++ part_calls k (suc p)))
                    mid_log
                ∙ ap
                    (λ c.
                      log
                      ++ Call.upsert_chunks c.hashes
                        ∷ (body_calls (map_get (suc p) uploaded) (suc p) c.bytes
                            ++ part_calls k (suc p)))
                    of_part,
            IsFilled-suc k p v st st'' st' same filled,
          )
