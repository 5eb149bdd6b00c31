-- ===== src/Envelope/Multipart/Object.antt =====
-- experiments/client-keyed-objects/client/src/upload.ts: the parts of an upload to a storage that
-- accepts every request.
use supabase_lab.Common.{
  ℕ, zero, suc, ◌+◌, ◌-◌, ◌*◌, ◌≤◌, ◌<◌, ◌≡◌, refl, ap, ◌∙◌, min, Option, none, some, Bool, false,
  List, [], ◌∷◌, ◌++◌, some_of, some_of-sort, sort, leb, arith,
}
use mathlib.Core.List.{append-nil}
use supabase_lab.Envelope.{Bytes, ok, Crypto}
use supabase_lab.Envelope.Upload.{AssetRow, encrypt_range}
use supabase_lab.Envelope.Object.{IsRow, cipher_from, hash_rows}
use supabase_lab.Envelope.Multipart.{
  Service, Progress, PartsResult, EtagSource, map_get, map_set, lacks, part_count, place_part,
  parts_from, all_etags, complete_upload, to_parts, run_parts,
}
use supabase_lab.Envelope.Multipart.Steps.{
  Text, Call, Program, returned, pure, of_result, request, followed, ◌>>=◌,
}
use supabase_lab.Envelope.Multipart.Parts.{encrypt_range-part, part_cipher}
use supabase_lab.Envelope.Multipart.Calls.{part_calls, part_rest}
use supabase_lab.Envelope.Multipart.Joined.{
  bodies, sent_rows, bodies-append, sent_rows-append, bodies-part_calls, sent_rows-part_calls,
}
use supabase_lab.Envelope.Multipart.Etags.{listing-bodies, listing-rows, some_of-map}
use supabase_lab.Envelope.Multipart.Done.{run_parts-IsComplete, parts_result, completion}

-- a catalogue and a storage that accept every request, and show an ETag for every part
pub record IsAccepting (service : Service) : Type 0 where
  pub upserts : (log : List Call) → service.upsert_chunks log ≡ ok tt
  pub etag_of : List Call → Text
  pub uploads : (log : List Call) → service.upload_part log ≡ ok (some (etag_of log))
  pub shows : (log : List Call) → lacks (some (etag_of log)) ≡ false
  pub completes : (log : List Call) → service.complete log ≡ ok tt

abbrev no_etag : ℕ × Option Text → Bool
no_etag entry = lacks entry.1

map_set-tagged :
    (k : ℕ) (v : Option Text) (etags : List (ℕ × Option Text))
    → lacks v ≡ false
    → some_of no_etag etags ≡ false
    → some_of no_etag (map_set k v etags) ≡ false
unfolding map_set
map_set-tagged k v [] h all = rw h refl
map_set-tagged k v (entry ∷ rest) h all = ground (arith, map_set-tagged k v rest h)

to_parts-tagged :
    (etags : List (ℕ × Option Text))
    → some_of no_etag etags ≡ false
    → some_of (λ p. lacks p.etag) (to_parts etags) ≡ false
unfolding to_parts
to_parts-tagged etags all =
    some_of-map (λ p. lacks p.etag) (λ entry. record { part_number = entry.0; etag = entry.1 })
      (sort (λ x y. leb x.0 y.0) etags)
    ∙ some_of-sort (λ x y. leb x.0 y.0) no_etag etags
    ∙ all

-- a step that returns is followed by the rest
pub then-returned :
    {A B : Type 0} (m : Program A) (f : A → Program B) (log mid : List Call) (a : A)
    → m log ≡ (returned a, mid)
    → (m >>= f) log ≡ f a mid
then-returned m f log mid a h = ap (λ r. followed r f) h

-- what only the second of four lists of requests adds
parts_of :
    {A : Type 0} (f : List Call → List A)
    → ((xs ys : List Call) → f (xs ++ ys) ≡ f xs ++ f ys)
    → (log sent listing last : List Call) → f listing ≡ []
    → f last ≡ []
    → f (log ++ sent ++ listing ++ last) ≡ f log ++ f sent
parts_of f splits log sent listing last h h' =
    splits (log ++ sent ++ listing) last
    ∙ ap (◌++◌ (f (log ++ sent ++ listing))) h'
    ∙ append-nil (f (log ++ sent ++ listing))
    ∙ splits (log ++ sent) listing
    ∙ ap (◌++◌ (f (log ++ sent))) h
    ∙ append-nil (f (log ++ sent))
    ∙ splits log sent

module _ {Key : Type 0} (crypto : Crypto Key) (md5 : Option (Bytes → Text)) (key : Key)
    (a : AssetRow) (source : Bytes) (row : IsRow a source) (part_chunks : ℕ)
    (some_chunks : 1 ≤ part_chunks) (service : Service) (accepting : IsAccepting service) where
  place_part-returned :
      (pn : ℕ) (bytes : Bytes) (st : Progress) (log : List Call)
      → some_of no_etag st.etags ≡ false
      → (st' : Progress) × (later : List Call) × (place_part service md5 none pn bytes st log
          ≡ (returned st', later))
        × (some_of no_etag st'.etags ≡ false)
  unfolding place_part
  place_part-returned pn bytes st log all =
      let c = Call.upload_part pn bytes in
      let etag = accepting.etag_of (log ++ c ∷ []) in
      (
        record st { etags = map_set pn (some etag) st.etags },
        log ++ c ∷ [],
        then-returned (request service.upload_part c)
            (λ e. pure (record st { etags = map_set pn e st.etags })) log (log ++ c ∷ [])
            (some etag) (ap (λ r. of_result r (log ++ c ∷ [])) (accepting.uploads (log ++ c ∷ []))),
        map_set-tagged pn (some etag) st.etags (accepting.shows (log ++ c ∷ [])) all,
      )

  parts_from-returned :
      (k p : ℕ) (st : Progress) (log : List Call)
      → p + k ≤ part_count a part_chunks
      → some_of no_etag st.etags ≡ false
      → (st' : Progress) × (later : List Call) × (parts_from service crypto md5 key a source
            part_chunks [] k p st log
          ≡ (returned st', later))
        × (some_of no_etag st'.etags ≡ false)
  unfolding parts_from map_get
  parts_from-returned zero p st log inside all = (st, log, refl, all)
  parts_from-returned (suc k) p st log inside all =
      let now : p < part_count a part_chunks = omega (arith, inside) in
      let e = part_cipher crypto key a source row part_chunks some_chunks p in
      let c = Call.upsert_chunks e.hashes in
      let (st', mid, placed, all') = place_part-returned (suc p) e.bytes st (log ++ c ∷ []) all in
      let (st'', later, loop, all'') =
        parts_from-returned k (suc p) st' mid (omega (arith, inside)) all' in
      (
        st'',
        later,
        then-returned
              (of_result (
                encrypt_range crypto key a source (p * part_chunks)
                  (min (a.chunk_count - 1) (p * part_chunks + part_chunks - 1))))
              (part_rest crypto key a source row part_chunks some_chunks [] service md5 k p st) log
              log e
              (ap (λ r. of_result r log)
                (encrypt_range-part crypto key a source row part_chunks some_chunks p now))
            ∙ ap
                (λ r. followed (of_result r (log ++ c ∷ [])) (λ _.
                  place_part service md5 none (suc p) e.bytes st
                  >>= parts_from service crypto md5 key a source part_chunks [] k (suc p)))
                (accepting.upserts (log ++ c ∷ []))
            ∙ ap
                (λ r.
                  followed r (parts_from service crypto md5 key a source part_chunks [] k (suc p)))
                placed
            ∙ loop,
        all'',
      )

  run_parts-returned :
      (rounds : ℕ) (log : List Call)
      → (r : PartsResult) × (later : List Call) × (run_parts service crypto md5 key a source
            part_chunks [] rounds log
          ≡ (returned r, later))
        × (r.etag_source ≡ EtagSource.upload_part_header)
  unfolding run_parts all_etags complete_upload
  run_parts-returned rounds log =
      let begun : Progress = record { etags = []; skipped = 0; matches = 0; mismatches = 0 } in
      let (st, looped, loop, tagged) =
        parts_from-returned (part_count a part_chunks) 0 begun log (omega arith) refl in
      let e : List (ℕ × Option Text) × EtagSource = (st.etags, EtagSource.upload_part_header) in
      let parts = to_parts st.etags in
      (
        parts_result service crypto md5 key a source part_chunks [] row some_chunks st e,
        looped ++ Call.complete parts ∷ [],
        then-returned
              (parts_from service crypto md5 key a source part_chunks [] (part_count a part_chunks)
                0 begun)
              (completion service crypto md5 key a source part_chunks [] row some_chunks rounds) log
              looped st loop
            ∙ rw tagged (
                then-returned (complete_upload service crypto md5 key a source part_chunks [] parts)
                  (λ _. pure (
                    parts_result service crypto md5 key a source part_chunks [] row some_chunks st
                      e))
                  looped (looped ++ Call.complete parts ∷ []) tt
                  (rw (to_parts-tagged st.etags tagged) (
                    ap (λ r. of_result r (looped ++ Call.complete parts ∷ []))
                      (accepting.completes (looped ++ Call.complete parts ∷ []))))),
        refl,
      )

  whole :
      {A : Type 0} (f : ℕ → ℕ → List A)
      → f (a.chunk_count - 0 * part_chunks) (0 * part_chunks) ≡ f a.chunk_count 0
  whole f =
      let n : a.chunk_count - 0 * part_chunks ≡ a.chunk_count = omega arith in
      let z : 0 * part_chunks ≡ 0 = omega arith in
      ap (λ k. f k (0 * part_chunks)) n ∙ ap (f a.chunk_count) z

  -- An upload in parts that begins, to a catalogue and a storage that accept every request and show
  -- an ETag for every part, returns; the parts that it has stored, put together, are the ciphertext
  -- of the whole source, and the rows that it has sent are those of all its chunks.
  pub run_parts-object :
      (rounds : ℕ) (log : List Call)
      → (r : PartsResult) × (later : List Call) × (run_parts service crypto md5 key a source
            part_chunks [] rounds log
          ≡ (returned r, later))
        × (bodies later ≡ bodies log ++ cipher_from crypto key a source a.chunk_count 0)
        × (sent_rows later ≡ sent_rows log ++ hash_rows crypto key a source a.chunk_count 0)
  run_parts-object rounds log =
      let (r, later, returns, _) = run_parts-returned rounds log in
      let done =
        run_parts-IsComplete service crypto md5 key a source part_chunks [] row some_chunks rounds r
          log later returns in
      let count = part_count a part_chunks in
      let sent = part_calls crypto key a source row part_chunks some_chunks [] count 0 in
      let last = Call.complete done.completed ∷ [] in
      (
        r,
        later,
        returns,
        ap bodies done.sent
            ∙ parts_of bodies bodies-append log sent done.listing last
                (listing-bodies done.listing done.only_lists) refl
            ∙ ap (◌++◌ (bodies log)) (
                bodies-part_calls crypto key a source row part_chunks some_chunks count 0
                  (omega arith)
                ∙ whole (cipher_from crypto key a source)),
        ap sent_rows done.sent
            ∙ parts_of sent_rows sent_rows-append log sent done.listing last
                (listing-rows done.listing done.only_lists) refl
            ∙ ap (◌++◌ (sent_rows log)) (
                sent_rows-part_calls crypto key a source row part_chunks some_chunks [] count 0
                  (omega arith)
                ∙ whole (hash_rows crypto key a source)),
      )
