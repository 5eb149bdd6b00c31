-- ===== src/Envelope/Multipart/Asset/Silent.antt =====
-- experiments/client-keyed-objects/client/src/upload.ts: the marks among the requests of `runParts`.
use supabase_lab.Common.{
  ℕ, zero, suc, ◌+◌, ◌-◌, ◌*◌, refl, min, Option, none, some, List, [], some_of, if◌then◌else◌,
}
use supabase_lab.Envelope.{Bytes, CkErrorCode, Crypto}
use supabase_lab.Envelope.Upload.{AssetRow, encrypt_range}
use supabase_lab.Envelope.Multipart.{
  Service, Progress, PartsResult, EtagSource, map_get, map_set, lacks, fill, add_parts,
  is_last_page, part_count, place_part, parts_from, list_from, list_parts, all_etags,
  complete_upload, to_parts, run_parts,
}
use supabase_lab.Envelope.Multipart.Steps.{
  Text, Call, CompletedPart, Program, pure, raise, of_result, request, ◌>>=◌,
}
use supabase_lab.Envelope.Multipart.Asset.Quiet.{
  IsQuiet, Quiet-nil, of_result-IsQuiet, request-IsQuiet, bind-IsQuiet, if-IsQuiet,
}

module _ (service : Service) where
  list_from-IsQuiet :
      (rounds : ℕ) (m : Option Text) (out : List (ℕ × Text))
      → IsQuiet (list_from service rounds m out)
  unfolding list_from
  list_from-IsQuiet zero m out log = Quiet-nil log
  list_from-IsQuiet (suc rounds) m out log =
      bind-IsQuiet (request service.list_parts (Call.list_parts m))
        (λ r.
          if is_last_page r
          then pure (add_parts r.parts out)
          else list_from service rounds r.next_marker (add_parts r.parts out))
        (request-IsQuiet service.list_parts (Call.list_parts m) refl)
        (λ r.
          if-IsQuiet (is_last_page r) (pure (add_parts r.parts out))
            (list_from service rounds r.next_marker (add_parts r.parts out)) (λ l. Quiet-nil l)
            (list_from-IsQuiet rounds r.next_marker (add_parts r.parts out)))
        log

  pub list_parts-IsQuiet : (rounds : ℕ) → IsQuiet (list_parts service rounds)
  unfolding list_parts
  list_parts-IsQuiet rounds = list_from-IsQuiet rounds none []

  module _ {Key : Type 0} (crypto : Crypto Key) (md5 : Option (Bytes → Text)) (source : Bytes)
      (part_chunks : ℕ) where
    place_part-IsQuiet :
        (prior : Option Text) (pn : ℕ) (bytes : Bytes) (st : Progress)
        → IsQuiet (place_part service md5 prior pn bytes st)
    unfolding place_part
    place_part-IsQuiet (some t) pn bytes st = λ log. Quiet-nil log
    place_part-IsQuiet none pn bytes st =
        bind-IsQuiet (request service.upload_part (Call.upload_part pn bytes))
          (λ etag. pure (record st { etags = map_set pn etag st.etags }))
          (request-IsQuiet service.upload_part (Call.upload_part pn bytes) refl)
          (λ e log. Quiet-nil log)

    module _ (key : Key) (a : AssetRow) (uploaded : List (ℕ × Text)) where
      parts_from-IsQuiet :
          (k p : ℕ) (st : Progress)
          → IsQuiet (parts_from service crypto md5 key a source part_chunks uploaded k p st)
      unfolding parts_from
      parts_from-IsQuiet zero p st = λ log. Quiet-nil log
      parts_from-IsQuiet (suc k) p st =
          let encrypted =
            encrypt_range crypto key a source (p * part_chunks)
              (min (a.chunk_count - 1) (p * part_chunks + part_chunks - 1)) in
          let next = parts_from service crypto md5 key a source part_chunks uploaded k (suc p) in
          bind-IsQuiet (of_result encrypted)
            (λ e. request service.upsert_chunks (Call.upsert_chunks e.hashes) >>= λ _.
              (place_part service md5 (map_get (suc p) uploaded) (suc p) e.bytes st >>= next))
            (of_result-IsQuiet encrypted)
            (λ e.
              bind-IsQuiet (request service.upsert_chunks (Call.upsert_chunks e.hashes))
                (λ _. place_part service md5 (map_get (suc p) uploaded) (suc p) e.bytes st >>= next)
                (request-IsQuiet service.upsert_chunks (Call.upsert_chunks e.hashes) refl)
                (λ _.
                  bind-IsQuiet
                    (place_part service md5 (map_get (suc p) uploaded) (suc p) e.bytes st) next
                    (place_part-IsQuiet (map_get (suc p) uploaded) (suc p) e.bytes st)
                    (λ st'. parts_from-IsQuiet k (suc p) st')))

      all_etags-IsQuiet :
          (rounds : ℕ) (etags : List (ℕ × Option Text))
          → IsQuiet (all_etags service crypto md5 key a source part_chunks uploaded rounds etags)
      unfolding all_etags
      all_etags-IsQuiet rounds etags =
          let listed : List (ℕ × Text) → Program (List (ℕ × Option Text) × EtagSource) =
            λ l. pure (fill l etags, EtagSource.list_parts_call) in
          if-IsQuiet (some_of (λ entry. lacks entry.1) etags) (list_parts service rounds >>= listed)
            (pure (etags, EtagSource.upload_part_header))
            (bind-IsQuiet (list_parts service rounds) listed (list_parts-IsQuiet rounds)
              (λ l log. Quiet-nil log))
            (λ log. Quiet-nil log)

      complete_upload-IsQuiet :
          (parts : List CompletedPart)
          → IsQuiet (complete_upload service crypto md5 key a source part_chunks uploaded parts)
      unfolding complete_upload
      complete_upload-IsQuiet parts =
          if-IsQuiet (some_of (λ p. lacks p.etag) parts) (raise CkErrorCode.storage_error)
            (request service.complete (Call.complete parts)) (λ log. Quiet-nil log)
            (request-IsQuiet service.complete (Call.complete parts) refl)

      pub run_parts-IsQuiet :
          (rounds : ℕ)
          → IsQuiet (run_parts service crypto md5 key a source part_chunks uploaded rounds)
      unfolding run_parts
      run_parts-IsQuiet rounds =
          let begun : Progress = record { etags = []; skipped = 0; matches = 0; mismatches = 0 } in
          let count = part_count a part_chunks in
          let result : Progress → List (ℕ × Option Text) × EtagSource → PartsResult = λ st e.
            record {
              parts = count;
              parts_skipped = st.skipped;
              resumed_etag_matches = st.matches;
              resumed_etag_mismatches = st.mismatches;
              etag_source = e.1;
            } in
          let closing : Progress → List (ℕ × Option Text) × EtagSource → Program PartsResult =
            λ st e.
              complete_upload service crypto md5 key a source part_chunks uploaded (to_parts e.0)
              >>= λ _. pure (result st e) in
          let known : Progress → Program (List (ℕ × Option Text) × EtagSource) =
            λ st. all_etags service crypto md5 key a source part_chunks uploaded rounds st.etags in
          bind-IsQuiet
            (parts_from service crypto md5 key a source part_chunks uploaded count 0 begun)
            (λ st. known st >>= closing st) (parts_from-IsQuiet count 0 begun)
            (λ st. bind-IsQuiet (known st) (closing st) (all_etags-IsQuiet rounds st.etags) (λ e.
              bind-IsQuiet
                (complete_upload service crypto md5 key a source part_chunks uploaded
                  (to_parts e.0))
                (λ _. pure (result st e)) (complete_upload-IsQuiet (to_parts e.0))
                (λ _ log. Quiet-nil log)))
