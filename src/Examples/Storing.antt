-- ===== src/Examples/Storing.antt =====
-- Examples for the upload in parts of experiments/client-keyed-objects/client/src/upload.ts: an
-- object of three chunks in two parts, to a storage that lists its parts in two pages.
use supabase_lab.Common.{
  ℕ, ◌≡◌, refl, ap, Option, none, some, true, false, List, [], ◌∷◌, ◌++◌, arith, length, replicate,
}
use supabase_lab.Envelope.{Bytes, ok, sha256_hex, import_dek}
use supabase_lab.Envelope.Upload.{AssetRow}
use supabase_lab.Envelope.Multipart.{
  Service, PartsPage, PartsResult, EtagSource, lacks, list_parts, run_parts, add_parts, map_set,
  is_last_page,
}
use supabase_lab.Envelope.Multipart.Steps.{Text, Patch, Call, returned}
use supabase_lab.Envelope.Multipart.Done.{IsComplete, run_parts-IsComplete}
use supabase_lab.Envelope.Multipart.Listing.{
  last_page, page, entries, page_calls, list_parts-served,
}
use supabase_lab.Envelope.Multipart.Asset.{
  UploadResult, TusClient, records, stores_url, upload, resume,
}
use supabase_lab.Envelope.Multipart.Asset.Success.{IsOpen, IsUploaded, upload-object}
use supabase_lab.Envelope.Multipart.Asset.Quiet.{marks}
use supabase_lab.Envelope.Multipart.Asset.Marks.{
  MarksLast, IsCreated, IsGiven, upload-resume-MarksLast,
}
use supabase_lab.Envelope.Multipart.Object.{IsAccepting}
use supabase_lab.Examples.Toy.{toy}
use supabase_lab.Examples.Sealing.{pages, five, pages-IsRow}

abbrev second_marker : Text
second_marker = 49 ∷ []

abbrev first_page : PartsPage
first_page = record {
  parts = (some 1, some (97 ∷ [])) ∷ (some 0, some (98 ∷ [])) ∷ [];
  is_truncated = true;
  next_marker = some second_marker;
}

abbrev second_page : PartsPage
second_page = record {
  parts = (some 2, some (99 ∷ [])) ∷ (some 3, none) ∷ [];
  is_truncated = false;
  next_marker = none;
}

page_for : Option Text → PartsPage
page_for none = first_page
page_for (some m) = second_page

-- the page that the last request for one asks for
page_of : PartsPage → List Call → PartsPage
unfolding page_for
page_of p [] = p
page_of p (Call.list_parts m ∷ rest) = page_of (page_for m) rest
page_of p (Call.upsert_chunks _ ∷ rest) = page_of p rest
page_of p (Call.upload_part _ _ ∷ rest) = page_of p rest
page_of p (Call.complete _ ∷ rest) = page_of p rest
page_of p (Call.create_upload ∷ rest) = page_of p rest
page_of p (Call.patch_asset _ ∷ rest) = page_of p rest
page_of p (Call.count_rows ∷ rest) = page_of p rest

page_of-last :
    (p : PartsPage) (m : Option Text) (log : List Call)
    → page_of p (log ++ Call.list_parts m ∷ []) ≡ page_for m
unfolding page_of
page_of-last p m [] = refl
page_of-last p m (Call.list_parts n ∷ rest) = page_of-last (page_for n) m rest
page_of-last p m (Call.upsert_chunks _ ∷ rest) = page_of-last p m rest
page_of-last p m (Call.upload_part _ _ ∷ rest) = page_of-last p m rest
page_of-last p m (Call.complete _ ∷ rest) = page_of-last p m rest
page_of-last p m (Call.create_upload ∷ rest) = page_of-last p m rest
page_of-last p m (Call.patch_asset _ ∷ rest) = page_of-last p m rest
page_of-last p m (Call.count_rows ∷ rest) = page_of-last p m rest

abbrev storage : Service
storage = record {
  create_upload = λ log. ok (some (117 ∷ []));
  patch_asset = λ log. ok tt;
  count_rows = λ log. ok 3;
  upsert_chunks = λ log. ok tt;
  upload_part = λ log. ok (some (length log ∷ []));
  list_parts = λ log. ok (page_of first_page log);
  complete = λ log. ok tt;
}

list_parts-served_example : list_parts storage 2 [] ≡ (
  returned (add_parts (entries (first_page ∷ second_page ∷ [])) []),
  page_calls none (first_page ∷ second_page ∷ []),
)
unfolding is_last_page page_for lacks
list_parts-served_example =
    list_parts-served storage 2 (first_page ∷ second_page ∷ []) []
      (page first_page (λ log. ap ok (page_of-last first_page none log)) refl
        (last_page second_page (λ log. ap ok (page_of-last first_page (some second_marker) log))
          refl))
      (omega arith)

found_parts :
    add_parts (entries (first_page ∷ second_page ∷ [])) [] ≡ (1, 97 ∷ []) ∷ (2, 99 ∷ []) ∷ []
unfolding add_parts map_set
found_parts = refl

storage-IsAccepting : IsAccepting storage
unfolding lacks
storage-IsAccepting = record {
  upserts = λ log. refl;
  etag_of = λ log. length log ∷ [];
  uploads = λ log. refl;
  shows = λ log. refl;
  completes = λ log. refl;
}

-- the first part is there already
abbrev uploaded : List (ℕ × Text)
uploaded = (1, 97 ∷ []) ∷ []

abbrev resumed : PartsResult
resumed = record {
  parts = 2;
  parts_skipped = 1;
  resumed_etag_matches = 0;
  resumed_etag_mismatches = 0;
  etag_source = EtagSource.upload_part_header;
}

abbrev resumed_calls : List Call
resumed_calls = (run_parts storage toy none 3 pages five 2 uploaded 5 []).1

resumed_lem :
    run_parts storage toy none 3 pages five 2 uploaded 5 [] ≡ (returned resumed, resumed_calls)
unfolding run_parts replicate
resumed_lem = refl

run_parts-IsComplete_example :
    IsComplete storage toy none 3 pages five 2 uploaded pages-IsRow (omega arith) [] resumed_calls
run_parts-IsComplete_example =
    run_parts-IsComplete storage toy none 3 pages five 2 uploaded pages-IsRow (omega arith) 5
      resumed [] resumed_calls resumed_lem

abbrev stored_key : Bytes
stored_key = 1 ∷ 2 ∷ 3 ∷ []

-- a row of an upload in parts, and a client of the tus protocol
abbrev in_parts_row : AssetRow
in_parts_row = record pages { upload_method = some "s3-multipart" }

abbrev tus : TusClient ℕ
tus a key bytes log = (returned (some 0), stores_url (47 ∷ []) ∷ records [] ∷ [])

marked_by_tus :
    (resume storage toy none tus five 2 5 (ok pages) (ok stored_key) []).1
    ≡ Call.patch_asset (Patch.tus_url (47 ∷ []))
      ∷ Call.upsert_chunks []
      ∷ Call.patch_asset (Patch.complete_with (sha256_hex toy five))
      ∷ Call.count_rows
      ∷ []
unfolding resume
marked_by_tus = refl

marked_once :
    marks (resume storage toy none tus five 2 5 (ok in_parts_row) (ok stored_key) []).1
    ≡ sha256_hex toy five ∷ []
unfolding resume page_of replicate
marked_once = refl

-- a storage that gives no id of an upload
abbrev closed_storage : Service
closed_storage = record storage { create_upload = λ log. ok none }

not_marked :
    marks (upload closed_storage toy none tus five 2 5 "s3-multipart" (ok (pages, stored_key)) []).1
    ≡ []
unfolding upload
not_marked = refl

upload-resume-MarksLast_example :
    MarksLast storage toy none tus five 2 5
      (IsCreated storage toy none tus five 2 5 "s3-multipart" (ok (pages, stored_key)))
      []
      (upload storage toy none tus five 2 5 "s3-multipart" (ok (pages, stored_key)) []).1
    × MarksLast storage toy none tus five 2 5
        (IsGiven storage toy none tus five 2 5 (ok in_parts_row))
        []
        (resume storage toy none tus five 2 5 (ok in_parts_row) (ok stored_key) []).1
upload-resume-MarksLast_example =
    upload-resume-MarksLast storage toy none tus five 2 5 "s3-multipart" (ok (pages, stored_key))
      (ok in_parts_row) (ok stored_key) []

storage-IsOpen : IsOpen storage
storage-IsOpen = record {
  accepting = storage-IsAccepting;
  id_head = 117;
  id_rest = [];
  creates = λ log. refl;
  patches = λ log. refl;
  rows_at = λ log. 3;
  counts = λ log. refl;
}

toy_key : import_dek toy stored_key ≡ ok 3
unfolding import_dek
toy_key = refl

upload-object_example :
    (r : UploadResult) × (later : List Call) × (upload storage toy none tus five 2 5 "s3-multipart"
        (ok (pages, stored_key))
        []
      ≡ (returned r, later))
    × (r.plaintext_sha256 ≡ sha256_hex toy five)
    × IsUploaded storage toy none tus five 2 5 (omega arith) storage-IsOpen pages 3 [] later
upload-object_example =
    upload-object storage toy none tus five 2 5 (omega arith) storage-IsOpen pages stored_key 3 []
      pages-IsRow toy_key
