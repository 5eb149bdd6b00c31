-- ===== src/Envelope/Multipart/Asset/Success.antt =====
-- experiments/client-keyed-objects/client/src/upload.ts: `upload` from its first request to its last
-- where nothing fails.
use supabase_lab.Common.{
  ℕ, zero, suc, ◌-◌, ◌*◌, ◌≤◌, ◌≡◌, refl, ap, ◌∙◌, Option, some, true, false, List, [], ◌∷◌, ◌++◌,
  some_of, ◌==◌, arith,
}
use mathlib.Core.List.{append-nil, append_assoc}
use supabase_lab.Envelope.{Bytes, Result, ok, Crypto, import_dek, sha256_hex}
use supabase_lab.Envelope.Upload.{AssetRow}
use supabase_lab.Envelope.Object.{IsRow, cipher_from, hash_rows}
use supabase_lab.Envelope.Multipart.{Service, part_count, lacks, map_get, run_parts}
use supabase_lab.Envelope.Multipart.Steps.{
  Text, Patch, Call, CompletedPart, Program, returned, pure, of_result, request, ◌>>=◌,
}
use supabase_lab.Envelope.Multipart.Calls.{part_calls}
use supabase_lab.Envelope.Multipart.Etags.{AreListing, listing-rows}
use supabase_lab.Envelope.Multipart.Joined.{sent_rows, sent_rows-append, sent_rows-part_calls}
use supabase_lab.Envelope.Multipart.Done.{IsComplete, run_parts-IsComplete}
use supabase_lab.Envelope.Multipart.Object.{IsAccepting, run_parts-object, then-returned}
use supabase_lab.Envelope.Multipart.Asset.{
  Transfer, in_parts, UploadResult, TusClient, finish, store, upload_under, upload,
}
use supabase_lab.Envelope.Multipart.Asset.Quiet.{marks, marks-append}
use supabase_lab.Envelope.Multipart.Asset.Assembled.{
  assembled, assembled-listing, assembled-part_calls,
}

-- a service that accepts the requests around the parts too
pub record IsOpen (service : Service) : Type 0 where
  pub accepting : IsAccepting service
  pub id_head : ℕ
  pub id_rest : Text
  pub creates : (log : List Call) → service.create_upload log ≡ ok (some (id_head ∷ id_rest))
  pub patches : (log : List Call) → service.patch_asset log ≡ ok tt
  pub rows_at : List Call → ℕ
  pub counts : (log : List Call) → service.count_rows log ≡ ok (rows_at log)

request-answered :
    {A : Type 0} (answer : List Call → Result A) (c : Call) (log : List Call) (a : A)
    → answer (log ++ c ∷ []) ≡ ok a
    → request answer c log ≡ (returned a, log ++ c ∷ [])
request-answered answer c log a h = ap (λ r. of_result r (log ++ c ∷ [])) h

module _ {Key : Type 0} (service : Service) (crypto : Crypto Key) (md5 : Option (Bytes → Text))
    (tus : TusClient Key) (source : Bytes) (part_chunks rounds : ℕ) (some_chunks : 1 ≤ part_chunks)
    (open_ : IsOpen service) where
  abbrev mark : Call
  mark = Call.patch_asset (Patch.complete_with (sha256_hex crypto source))

  abbrev uploaded_as : AssetRow → Transfer → List Call → UploadResult
  uploaded_as a r log = record {
    plaintext_sha256 = sha256_hex crypto source;
    ciphertext_size = a.ciphertext_size;
    chunk_rows = open_.rows_at (log ++ mark ∷ [] ++ Call.count_rows ∷ []);
    transfer = r;
  }

  finish-returned :
      (a : AssetRow) (r : Transfer) (log : List Call)
      → finish service crypto md5 tus source part_chunks rounds a r log
        ≡ (returned (uploaded_as a r log), log ++ mark ∷ [] ++ Call.count_rows ∷ [])
  unfolding finish
  finish-returned a r log =
      let result : ℕ → UploadResult = λ n. record {
        plaintext_sha256 = sha256_hex crypto source;
        ciphertext_size = a.ciphertext_size;
        chunk_rows = n;
        transfer = r;
      } in
      let marked = log ++ mark ∷ [] in
      then-returned (request service.patch_asset mark)
        (λ _. request service.count_rows Call.count_rows >>= λ n. pure (result n)) log marked tt
        (request-answered service.patch_asset mark log tt (open_.patches marked))
      ∙ then-returned (request service.count_rows Call.count_rows) (λ n. pure (result n)) marked
          (marked ++ Call.count_rows ∷ []) (open_.rows_at (marked ++ Call.count_rows ∷ []))
          (request-answered service.count_rows Call.count_rows marked
            (open_.rows_at (marked ++ Call.count_rows ∷ []))
            (open_.counts (marked ++ Call.count_rows ∷ [])))

  abbrev parts_then_finish : AssetRow → Key → Program UploadResult
  parts_then_finish a key = run_parts service crypto md5 key a source part_chunks [] rounds >>= λ r.
      finish service crypto md5 tus source part_chunks rounds a (in_parts r)

  -- what an upload in parts has sent when it returns, from its first request on
  pub record IsUploaded (a : AssetRow) (key : Key) (log later : List Call) : Type 0 where
    pub begun : Text
    pub sent : List Call
    pub completed : List CompletedPart
    pub requests :
        later
        ≡ log
          ++ Call.create_upload ∷ []
          ++ Call.patch_asset (Patch.upload_id begun) ∷ []
          ++ sent
          ++ Call.complete completed ∷ []
          ++ mark ∷ []
          ++ Call.count_rows ∷ []
    pub object :
        assembled (part_count a part_chunks) 0 sent
        ≡ cipher_from crypto key a source a.chunk_count 0
    pub rows : sent_rows sent ≡ hash_rows crypto key a source a.chunk_count 0
    pub tagged : some_of (λ p. lacks p.etag) completed ≡ false
    pub every_part :
        (n : ℕ)
        → 1 ≤ n
        → n ≤ part_count a part_chunks
        → some_of (λ p. p.part_number == n) completed ≡ true
    pub unmarked : marks sent ≡ []

  listing-marks : (calls : List Call) → AreListing calls → marks calls ≡ []
  listing-marks [] h = refl
  listing-marks (Call.list_parts m ∷ rest) h = listing-marks rest h
  listing-marks (Call.upsert_chunks r ∷ rest) h = absurd h
  listing-marks (Call.upload_part n b ∷ rest) h = absurd h
  listing-marks (Call.complete ps ∷ rest) h = absurd h
  listing-marks (Call.create_upload ∷ rest) h = absurd h
  listing-marks (Call.patch_asset p ∷ rest) h = absurd h
  listing-marks (Call.count_rows ∷ rest) h = absurd h

  part_calls-marks :
      (key : Key) (a : AssetRow) (row : IsRow a source) (k p : ℕ)
      → marks (part_calls crypto key a source row part_chunks some_chunks [] k p) ≡ []
  unfolding part_calls map_get
  part_calls-marks key a row zero p = refl
  part_calls-marks key a row (suc k) p = part_calls-marks key a row k (suc p)

  IsUploaded-of_IsComplete :
      (a : AssetRow) (key : Key) (row : IsRow a source) (log ended : List Call) (id : Text)
      → IsComplete service crypto md5 key a source part_chunks [] row some_chunks
          (log ++ Call.create_upload ∷ [] ++ Call.patch_asset (Patch.upload_id id) ∷ [])
          ended
      → IsUploaded a key log (ended ++ mark ∷ [] ++ Call.count_rows ∷ [])
  IsUploaded-of_IsComplete a key row log ended id done =
      let count = part_count a part_chunks in
      let parts = part_calls crypto key a source row part_chunks some_chunks [] count 0 in
      let before = log ++ Call.create_upload ∷ [] ++ Call.patch_asset (Patch.upload_id id) ∷ [] in
      let all : a.chunk_count - 0 * part_chunks ≡ a.chunk_count = omega arith in
      let first : 0 * part_chunks ≡ 0 = omega arith in
      record {
        begun = id;
        sent = parts ++ done.listing;
        completed = done.completed;
        requests =
            ap (λ l. l ++ mark ∷ [] ++ Call.count_rows ∷ [])
              (done.sent
                ∙ ap (λ l. l ++ Call.complete done.completed ∷ [])
                    (append_assoc before parts done.listing));
        object =
            assembled-listing count 0 parts done.listing done.only_lists
            ∙ assembled-part_calls crypto key a source row part_chunks some_chunks;
        rows =
            sent_rows-append parts done.listing
            ∙ ap (◌++◌ (sent_rows parts)) (listing-rows done.listing done.only_lists)
            ∙ append-nil (sent_rows parts)
            ∙ sent_rows-part_calls crypto key a source row part_chunks some_chunks [] count 0
                (omega arith)
            ∙ ap (λ k. hash_rows crypto key a source k (0 * part_chunks)) all
            ∙ ap (hash_rows crypto key a source a.chunk_count) first;
        tagged = done.tagged;
        every_part = done.every_part;
        unmarked =
            marks-append parts done.listing
            ∙ ap (◌++◌ (marks parts)) (listing-marks done.listing done.only_lists)
            ∙ append-nil (marks parts)
            ∙ part_calls-marks key a row count 0;
      }

  -- An upload by "s3-multipart" of a created asset, whose row describes the source and whose key can
  -- be imported, to a service that accepts every request, returns the digest of the source. Between
  -- the request that begins it, the one that stores its id, and the one that completes it, with an
  -- ETag in every entry and an entry for every part, it has sent parts that, put together by their
  -- numbers, are the ciphertext of the source, and the hashes of all its chunks in order; and it
  -- marks the asset complete once, with that digest, right after the completion.
  pub upload-object :
      (a : AssetRow) (dek : Bytes) (key : Key) (log : List Call)
      → IsRow a source
      → import_dek crypto dek ≡ ok key
      → (r : UploadResult) × (later : List Call) × (upload service crypto md5 tus source part_chunks
            rounds "s3-multipart"
            (ok (a, dek))
            log
          ≡ (returned r, later))
        × (r.plaintext_sha256 ≡ sha256_hex crypto source)
        × IsUploaded a key log later
  unfolding upload upload_under store
  upload-object a dek key log row imported =
      let id = open_.id_head ∷ open_.id_rest in
      let patch = Call.patch_asset (Patch.upload_id id) in
      let created = log ++ Call.create_upload ∷ [] in
      let patched = created ++ patch ∷ [] in
      let (r, ended, returns, _, _) =
        run_parts-object crypto md5 key a source row part_chunks some_chunks service open_.accepting
          rounds patched in
      let done =
        run_parts-IsComplete service crypto md5 key a source part_chunks [] row some_chunks rounds r
          patched ended returns in
      let marked = ended ++ mark ∷ [] in
      (
        uploaded_as a (in_parts r) ended,
        marked ++ Call.count_rows ∷ [],
        then-returned (request service.create_upload Call.create_upload)
              (upload_under service crypto md5 tus source part_chunks rounds a dek) log created
              (some id)
              (request-answered service.create_upload Call.create_upload log (some id)
                (open_.creates created))
            ∙ then-returned (request service.patch_asset patch)
                (λ _. store service crypto md5 tus source part_chunks rounds a dek []) created
                patched tt
                (request-answered service.patch_asset patch created tt (open_.patches patched))
            ∙ then-returned (of_result (import_dek crypto dek)) (parts_then_finish a) patched
                patched key (ap (λ k. of_result k patched) imported)
            ∙ then-returned (run_parts service crypto md5 key a source part_chunks [] rounds)
                (λ r. finish service crypto md5 tus source part_chunks rounds a (in_parts r))
                patched ended r returns
            ∙ finish-returned a (in_parts r) ended,
        refl,
        IsUploaded-of_IsComplete a key row log ended id done,
      )
