-- ===== src/Envelope/Multipart/Done.antt =====
-- experiments/client-keyed-objects/client/src/upload.ts: what an upload in parts has sent when it
-- returns.
use supabase_lab.Common.{
  ℕ, zero, suc, ◌≤◌, ◌≡◌, sym, ap, ◌∙◌, inl, inr, Option, none, true, false, List, [], ◌∷◌, ◌++◌,
  some_of, Bool-cases, ◌==◌, if◌then◌else◌, arith,
}
use mathlib.Core.List.{append-nil, append_assoc}
use supabase_lab.Envelope.{Bytes, CkErrorCode, Crypto}
use supabase_lab.Envelope.Upload.{AssetRow}
use supabase_lab.Envelope.Object.{IsRow}
use supabase_lab.Envelope.Multipart.{
  Service, Progress, PartsResult, EtagSource, add_parts, fill, lacks, is_last_page, part_count,
  list_from, list_parts, all_etags, complete_upload, to_parts, parts_from, run_parts,
}
use supabase_lab.Envelope.Multipart.Steps.{
  Text, Call, CompletedPart, Outcome, Program, returned, pure, raise, request, ◌>>=◌, ◌>>◌,
  followed-returned, of_result-returned, pure-returned,
}
use supabase_lab.Envelope.Multipart.Parts.{has_number}
use supabase_lab.Envelope.Multipart.Calls.{part_calls, parts_from-calls}
use supabase_lab.Envelope.Multipart.Etags.{AreListing, fill-keeps_number, to_parts-number}

module _ (service : Service) where
  list_from-calls :
      (rounds : ℕ) (marker : Option Text) (out found : List (ℕ × Text)) (log later : List Call)
      → list_from service rounds marker out log ≡ (returned found, later)
      → (calls : List Call) × (later ≡ log ++ calls) × AreListing calls
  unfolding list_from
  list_from-calls zero marker out found log later h = cc
  list_from-calls (suc rounds) marker out found log later h =
      let c = Call.list_parts marker in
      let (r, mid, answered, rest) =
        followed-returned (request service.list_parts c log)
          (λ r.
            if is_last_page r
            then pure (add_parts r.parts out)
            else list_from service rounds r.next_marker (add_parts r.parts out))
          found later h in
      let (_, mid_log) =
        of_result-returned (service.list_parts (log ++ c ∷ [])) (log ++ c ∷ []) r mid answered in
      elim (Bool-cases (is_last_page r)) [
        | inl e ↦
            let (_, same) = pure-returned (add_parts r.parts out) found mid later (rw e at rest) in
            (c ∷ [], same ∙ mid_log, tt)
        | inr e ↦
            let (calls, same, only) =
              list_from-calls rounds r.next_marker (add_parts r.parts out) found mid later
                (rw e at rest) in
            (c ∷ calls, same ∙ ap (λ l. l ++ calls) mid_log ∙ append_assoc log (c ∷ []) calls, only)
      ]

  list_parts-calls :
      (rounds : ℕ) (found : List (ℕ × Text)) (log later : List Call)
      → list_parts service rounds log ≡ (returned found, later)
      → (calls : List Call) × (later ≡ log ++ calls) × AreListing calls
  unfolding list_parts
  list_parts-calls rounds found log later h = list_from-calls rounds none [] found log later h

  module _ {Key : Type 0} (crypto : Crypto Key) (md5 : Option (Bytes → Text)) (key : Key)
      (a : AssetRow) (source : Bytes) (part_chunks : ℕ) (uploaded : List (ℕ × Text)) where
    all_etags-calls :
        (rounds : ℕ) (etags : List (ℕ × Option Text)) (e : List (ℕ × Option Text) × EtagSource)
        (log later : List Call)
        → all_etags service crypto md5 key a source part_chunks uploaded rounds etags log
          ≡ (returned e, later)
        → (calls : List Call) × (later ≡ log ++ calls)
          × AreListing calls
          × ((n : ℕ) → has_number n etags ≡ true → has_number n e.0 ≡ true)
    unfolding all_etags
    all_etags-calls rounds etags e log later h =
        elim (Bool-cases (some_of (λ entry. lacks entry.1) etags)) [
          | inl missing ↦
              let (found, mid, listed, rest) =
                followed-returned (list_parts service rounds log)
                  (λ l. pure (fill l etags, EtagSource.list_parts_call)) e later
                  (rw missing at h) in
              let (calls, mid_log, only) = list_parts-calls rounds found log mid listed in
              let (same, log_same) =
                pure-returned (fill found etags, EtagSource.list_parts_call) e mid later rest in
              (
                calls,
                log_same ∙ mid_log,
                only,
                λ n k. rw (ap (λ x. x.0) same) (fill-keeps_number n found etags k),
              )
          | inr all_there ↦
              let (same, log_same) =
                pure-returned (etags, EtagSource.upload_part_header) e log later
                  (rw all_there at h) in
              ([], log_same ∙ sym (append-nil log), tt, λ n k. rw (ap (λ x. x.0) same) k)
        ]

    complete_upload-calls :
        (parts : List CompletedPart) (u : Unit {0}) (log later : List Call)
        → complete_upload service crypto md5 key a source part_chunks uploaded parts log
          ≡ (returned u, later)
        → (some_of (λ p. lacks p.etag) parts ≡ false) × (later ≡ log ++ Call.complete parts ∷ [])
    unfolding complete_upload
    complete_upload-calls parts u log later h =
        elim (Bool-cases (some_of (λ p. lacks p.etag) parts)) [
          | inl missing ↦
              let stopped : ◌≡◌ {A = Outcome (Unit {0}) × List Call}
                  (raise CkErrorCode.storage_error log) (returned u, later) =
                rw missing at h in
              cc
          | inr all_there ↦
              let (_, same) =
                of_result-returned (service.complete (log ++ Call.complete parts ∷ []))
                  (log ++ Call.complete parts ∷ []) u later (rw all_there at h) in
              (all_there, same)
        ]

    module _ (row : IsRow a source) (some_chunks : 1 ≤ part_chunks) where
      -- what an upload of parts has sent: the requests of the loop, requests that only list, and the
      -- one that completes it, with an ETag for every part
      pub record IsComplete (log later : List Call) : Type 0 where
        pub listing : List Call
        pub completed : List CompletedPart
        pub sent :
            later
            ≡ log
              ++ part_calls crypto key a source row part_chunks some_chunks uploaded
                  (part_count a part_chunks)
                  0
              ++ listing
              ++ Call.complete completed ∷ []
        pub only_lists : AreListing listing
        pub tagged : some_of (λ p. lacks p.etag) completed ≡ false
        pub every_part :
            (n : ℕ)
            → 1 ≤ n
            → n ≤ part_count a part_chunks
            → some_of (λ p. p.part_number == n) completed ≡ true

      abbrev pub parts_result : Progress → List (ℕ × Option Text) × EtagSource → PartsResult
      parts_result st e = record {
        parts = part_count a part_chunks;
        parts_skipped = st.skipped;
        resumed_etag_matches = st.matches;
        resumed_etag_mismatches = st.mismatches;
        etag_source = e.1;
      }

      -- what follows when the ETags are known, and when the loop is over
      abbrev pub ending : Progress → List (ℕ × Option Text) × EtagSource → Program PartsResult
      ending st e = do
        complete_upload service crypto md5 key a source part_chunks uploaded (to_parts e.0)
        pure (parts_result st e)

      abbrev pub completion : ℕ → Progress → Program PartsResult
      completion rounds st =
          all_etags service crypto md5 key a source part_chunks uploaded rounds st.etags
          >>= ending st

      -- An upload in parts that returns, begun or resumed, has sent for each part in turn the rows of
      -- its chunks' hashes and then the part itself, unless it was uploaded before; then requests
      -- that only list parts; and last the request that completes the upload, whose list has an ETag
      -- in every entry and an entry for every part.
      pub run_parts-IsComplete :
          (rounds : ℕ) (r : PartsResult) (log later : List Call)
          → run_parts service crypto md5 key a source part_chunks uploaded rounds log
            ≡ (returned r, later)
          → IsComplete log later
      unfolding run_parts
      run_parts-IsComplete rounds r log later h =
          let count = part_count a part_chunks in
          let begun : Progress = record { etags = []; skipped = 0; matches = 0; mismatches = 0 } in
          let (st, looped, loop, rest) =
            followed-returned
              (parts_from service crypto md5 key a source part_chunks uploaded count 0 begun log)
              (completion rounds) r later h in
          let (loop_log, filled) =
            parts_from-calls crypto key a source row part_chunks some_chunks uploaded service md5
              count 0 begun st log looped (omega arith) loop in
          let (e, known, asked, more) =
            followed-returned
              (all_etags service crypto md5 key a source part_chunks uploaded rounds st.etags
                looped)
              (ending st) r later rest in
          let (calls, known_log, only, kept) =
            all_etags-calls rounds st.etags e looped known asked in
          let (u, ended, closed, last) =
            followed-returned
              (complete_upload service crypto md5 key a source part_chunks uploaded (to_parts e.0)
                known)
              (λ _. pure (parts_result st e)) r later more in
          let (tagged, end_log) = complete_upload-calls (to_parts e.0) u known ended closed in
          let (_, same) = pure-returned (parts_result st e) r ended later last in
          record {
            listing = calls;
            completed = to_parts e.0;
            sent =
                same
                ∙ end_log
                ∙ ap (λ l. l ++ Call.complete (to_parts e.0) ∷ [])
                    (known_log ∙ ap (λ l. l ++ calls) loop_log);
            only_lists = only;
            tagged = tagged;
            every_part = λ n low high.
                to_parts-number n e.0
                ∙ kept n (filled.sets n (omega (arith, low)) (omega (arith, high)));
          }
