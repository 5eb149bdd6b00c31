-- ===== src/Envelope/Multipart.antt =====
-- experiments/client-keyed-objects/client/src/upload.ts: `runParts` and `listParts`, the upload of an
-- object in parts, begun or resumed. The catalogue and the storage answer each request by any
-- function of the requests made before it and of the request itself. The reports of progress are left out;
-- `upsertChunks` makes no request for no rows, but a part has a chunk at least.
pub mod Steps
pub mod Parts
pub mod Calls
pub mod Joined
pub mod Etags
pub mod Done
pub mod Listing
pub mod Object
pub mod Asset
use supabase_lab.Common.{
  ℕ, zero, suc, ◌+◌, ◌-◌, ◌*◌, ◌/◌, min, String, Option, none, some, Bool, true, false, not, ◌||◌,
  List, [], ◌∷◌, ◌++◌, length, some_of, filter, sort, leb, ◌==◌, if◌then◌else◌, codes_equal, map,
}
use supabase_lab.Envelope.{Bytes, CkErrorCode, Result, Crypto}
use supabase_lab.Envelope.Upload.{AssetRow, HashRow, Encrypted, encrypt_range}
use supabase_lab.Envelope.Multipart.Steps.{
  Text, CompletedPart, Call, Outcome, Program, running, pure, raise, of_result, request, ◌>>=◌,
  ◌>>◌,
}

-- a `Map` by number: its entries, in the order in which their keys were first set
unfoldable pub map_get : {A : Type 0} → ℕ → List (ℕ × A) → Option A
map_get k [] = none
map_get k (entry ∷ rest) =
    let later = map_get k rest in if entry.0 == k then some entry.1 else later

unfoldable pub map_set : {A : Type 0} → ℕ → A → List (ℕ × A) → List (ℕ × A)
map_set k v [] = (k, v) ∷ []
map_set k v (entry ∷ rest) =
    let later = map_set k v rest in if entry.0 == k then (k, v) ∷ rest else entry ∷ later

-- a page of `ListPartsCommand`
pub record PartsPage : Type 0 where
  pub parts : List (Option ℕ × Option Text)
  pub is_truncated : Bool
  pub next_marker : Option Text

pub record Service : Type 0 where
  pub create_upload : List Call → Result (Option Text)
  pub patch_asset : List Call → Result (Unit {0})
  pub count_rows : List Call → Result ℕ
  pub upsert_chunks : List Call → Result (Unit {0})
  pub upload_part : List Call → Result (Option Text)
  pub list_parts : List Call → Result PartsPage
  pub complete : List Call → Result (Unit {0})

-- `!e`: an absent text and an empty one
unfoldable pub lacks : Option Text → Bool
lacks none = true
lacks (some []) = true
lacks (some (c ∷ cs)) = false

-- `for (const p of r.Parts ?? []) if (p.PartNumber && p.ETag) out.set(p.PartNumber, p.ETag)`
unfoldable pub add_parts : List (Option ℕ × Option Text) → List (ℕ × Text) → List (ℕ × Text)
unfolding map_set
add_parts [] out = out
add_parts ((some (suc n), some (c ∷ cs)) ∷ rest) out = add_parts rest (map_set (suc n) (c ∷ cs) out)
add_parts (_ ∷ rest) out = add_parts rest out

-- `if (!r.IsTruncated || !r.NextPartNumberMarker) break`
unfoldable pub is_last_page : PartsPage → Bool
unfolding lacks
is_last_page r = not r.is_truncated || lacks r.next_marker

-- `prior.replace(/"/g, "")`
without_quotes : Text → Text
without_quotes t = filter (λ c. not (c == 34)) t

-- `for (const [pn, e] of listed) if (!etags.get(pn)) etags.set(pn, e)`
lacking : Option (Option Text) → Bool
unfolding lacks
lacking none = true
lacking (some e) = lacks e

unfoldable pub fill : List (ℕ × Text) → List (ℕ × Option Text) → List (ℕ × Option Text)
unfolding lacking map_get map_set
fill [] etags = etags
fill (entry ∷ rest) etags =
    let filled = fill rest (map_set entry.0 (some entry.1) etags) in
    let same = fill rest etags in if lacking (map_get entry.0 etags) then filled else same

-- `[...etags.entries()].sort((x, y) => x[0] - y[0]).map(…)`
unfoldable pub to_parts : List (ℕ × Option Text) → List CompletedPart
unfolding sort
to_parts etags =
    map (λ entry. record { part_number = entry.0; etag = entry.1 })
      (sort (λ x y. leb x.0 y.0) etags)

-- the variables of the loop over the parts
pub record Progress : Type 0 where
  pub etags : List (ℕ × Option Text)
  pub skipped : ℕ
  pub matches : ℕ
  pub mismatches : ℕ

pub data EtagSource : Type 0 where
  upload_part_header : EtagSource
  list_parts_call : EtagSource

pub record PartsResult : Type 0 where
  pub parts : ℕ
  pub parts_skipped : ℕ
  pub resumed_etag_matches : ℕ
  pub resumed_etag_mismatches : ℕ
  pub etag_source : EtagSource

-- a part that was uploaded before: `md5` is that of the platform, where it has one
unfoldable pub resume_part : Option (Bytes → Text) → Text → ℕ → Bytes → Progress → Progress
unfolding map_set without_quotes codes_equal
resume_part none prior pn bytes st = record st {
  etags = map_set pn (some prior) st.etags;
  skipped = suc st.skipped;
}
resume_part (some md5) prior pn bytes st =
    let t = record st { etags = map_set pn (some prior) st.etags; skipped = suc st.skipped } in
    if codes_equal (without_quotes prior) (md5 bytes)
    then (record t { matches = suc st.matches })
    else (record t { mismatches = suc st.mismatches })

-- `Math.ceil(a.chunk_count / partChunks)`, for a positive `partChunks`
unfoldable pub part_count : AssetRow → ℕ → ℕ
part_count a part_chunks = (a.chunk_count + (part_chunks - 1)) / part_chunks

module _ (service : Service) where
  -- the loop from a marker on, with the parts of the pages before it
  unfoldable pub list_from : ℕ → Option Text → List (ℕ × Text) → Program (List (ℕ × Text))
  unfolding add_parts is_last_page
  list_from zero marker out log = (running, log)
  list_from (suc rounds) marker out log =
      (request service.list_parts (Call.list_parts marker) >>= λ r.
      let next = list_from rounds r.next_marker (add_parts r.parts out) in
      if is_last_page r then pure (add_parts r.parts out) else next)
        log

  -- `listParts`
  unfoldable pub list_parts : ℕ → Program (List (ℕ × Text))
  unfolding list_from
  list_parts rounds = list_from rounds none []

  -- the part is kept when it was uploaded before, and uploaded else
  unfoldable pub place_part :
      Option (Bytes → Text) → Option Text → ℕ → Bytes → Progress → Program Progress
  unfolding resume_part map_set
  place_part md5 (some prior) pn bytes st = pure (resume_part md5 prior pn bytes st)
  place_part md5 none pn bytes st = do
    etag ← request service.upload_part (Call.upload_part pn bytes)
    pure (record st { etags = map_set pn etag st.etags })

  module _ {Key : Type 0} (crypto : Crypto Key) (md5 : Option (Bytes → Text)) (key : Key)
      (a : AssetRow) (source : Bytes) (part_chunks : ℕ) (uploaded : List (ℕ × Text)) where
    -- `k` parts from part `p` on, counted from 0
    unfoldable pub parts_from : ℕ → ℕ → Progress → Program Progress
    unfolding encrypt_range place_part map_get
    parts_from zero p st = pure st
    parts_from (suc k) p st =
        let first = p * part_chunks in
        let last = min (a.chunk_count - 1) (first + part_chunks - 1) in
        do
          e ← of_result (encrypt_range crypto key a source first last)
          request service.upsert_chunks (Call.upsert_chunks e.hashes)
          st' ← place_part md5 (map_get (suc p) uploaded) (suc p) e.bytes st
          parts_from k (suc p) st'

    -- the ETags that the answers did not show are asked for
    unfoldable pub all_etags :
        ℕ → List (ℕ × Option Text) → Program (List (ℕ × Option Text) × EtagSource)
    unfolding list_parts lacks fill
    all_etags rounds etags =
        let listed = list_parts rounds >>= λ l. pure (fill l etags, EtagSource.list_parts_call) in
        if some_of (λ entry. lacks entry.1) etags
        then listed
        else pure (etags, EtagSource.upload_part_header)

    unfoldable pub complete_upload : List CompletedPart → Program (Unit {0})
    unfolding lacks
    complete_upload parts =
        if some_of (λ p. lacks p.etag) parts
        then raise CkErrorCode.storage_error
        else request service.complete (Call.complete parts)

    -- `runParts`, where `listParts` asks for as many pages as `rounds`
    unfoldable pub run_parts : ℕ → Program PartsResult
    unfolding parts_from all_etags complete_upload to_parts part_count
    run_parts rounds =
        let count = part_count a part_chunks in
        do
          st ← parts_from count 0 (record { etags = []; skipped = 0; matches = 0; mismatches = 0 })
          e ← all_etags rounds st.etags
          complete_upload (to_parts e.0)
          pure (record {
            parts = count;
            parts_skipped = st.skipped;
            resumed_etag_matches = st.matches;
            resumed_etag_mismatches = st.mismatches;
            etag_source = e.1;
          })
