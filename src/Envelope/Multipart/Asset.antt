-- ===== src/Envelope/Multipart/Asset.antt =====
-- experiments/client-keyed-objects/client/src/upload.ts: `upload` and `resume` of an object in parts,
-- from the catalogue's row to the mark that it is complete. The id of the upload stands in every
-- request for a part; the names and the times of the result are left out. The client of the tus
-- protocol is a parameter: what an upload comes to, and the requests that its callbacks make to the
-- catalogue, which are the two that `runTus` gives it.
pub mod Quiet
pub mod Silent
pub mod Marks
pub mod Assembled
pub mod Success
use supabase_lab.Common.{
  ℕ, Option, none, some, Bool, true, false, List, [], ◌∷◌, ◌++◌, String, length, map, str_eq, ◌==◌,
  if◌then◌else◌,
}
use supabase_lab.Envelope.{Bytes, CkErrorCode, Result, Crypto, import_dek, sha256_hex}
use supabase_lab.Envelope.Upload.{AssetRow, HashRow}
use supabase_lab.Envelope.Multipart.{Service, PartsResult, list_parts, run_parts}
use supabase_lab.Envelope.Multipart.Steps.{
  Text, Patch, Call, Outcome, Program, pure, raise, of_result, request, ◌>>=◌, ◌>>◌,
}

-- what a transfer came to: the parts, or the offset at which the server resumed
pub data Transfer : Type 0 where
  in_parts : PartsResult → Transfer
  by_tus : Option ℕ → Transfer

pub record UploadResult : Type 0 where
  pub plaintext_sha256 : List ℕ
  pub ciphertext_size : ℕ
  pub chunk_rows : ℕ
  pub transfer : Transfer

-- the requests of `CipherSource.chunk` and of `onUploadUrlAvailable`
pub data TusRequest : Type 0 where
  records : List HashRow → TusRequest
  stores_url : Text → TusRequest

abbrev pub as_call : TusRequest → Call
as_call (records rows) = Call.upsert_chunks rows
as_call (stores_url url) = Call.patch_asset (Patch.tus_url url)

abbrev pub TusClient : Type 0 → Type 0
TusClient Key = AssetRow → Key → Bytes → List Call → Outcome (Option ℕ) × List TusRequest

-- `new tus.Upload(…)`, from its start to `onSuccess` or `onError`
unfoldable pub transported : (List Call → Outcome (Option ℕ) × List TusRequest) → Program (Option ℕ)
transported client log = ((client log).0, log ++ map as_call (client log).1)

-- `upload_method === "s3-multipart"`
unfoldable pub is_multipart : Option String → Bool
is_multipart none = false
is_multipart (some m) = str_eq m "s3-multipart"

module _ {Key : Type 0} (service : Service) (crypto : Crypto Key) (md5 : Option (Bytes → Text))
    (tus : TusClient Key) (source : Bytes) (part_chunks rounds : ℕ) where
  -- `finish`: the digest of the slices of the source is that of the source
  unfoldable pub finish : AssetRow → Transfer → Program UploadResult
  unfolding sha256_hex
  finish a r = do
    request service.patch_asset (Call.patch_asset (Patch.complete_with (sha256_hex crypto source)))
    rows ← request service.count_rows Call.count_rows
    pure (record {
      plaintext_sha256 = sha256_hex crypto source;
      ciphertext_size = a.ciphertext_size;
      chunk_rows = rows;
      transfer = r;
    })

  -- the parts under the key that is imported, and the mark
  unfoldable pub store : AssetRow → Bytes → List (ℕ × Text) → Program UploadResult
  unfolding import_dek run_parts finish
  store a dek uploaded = do
    key ← of_result (import_dek crypto dek)
    r ← run_parts service crypto md5 key a source part_chunks uploaded rounds
    finish a (in_parts r)

  -- `runTus`, and the mark
  unfoldable pub store_tus : AssetRow → Bytes → Program UploadResult
  unfolding import_dek transported finish
  store_tus a dek = do
    key ← of_result (import_dek crypto dek)
    offset ← transported (tus a key source)
    finish a (by_tus offset)

  unfoldable pub upload_under : AssetRow → Bytes → Option Text → Program UploadResult
  unfolding store
  upload_under a dek none = raise CkErrorCode.storage_error
  upload_under a dek (some []) = raise CkErrorCode.storage_error
  upload_under a dek (some (c ∷ cs)) = do
    request service.patch_asset (Call.patch_asset (Patch.upload_id (c ∷ cs)))
    store a dek []

  -- `upload` by a method of the asset that `createAsset` gives, or throws
  unfoldable pub upload : String → Result (AssetRow × Bytes) → Program UploadResult
  unfolding upload_under store_tus
  upload method created = do
    c ← of_result created
    let parts = request service.create_upload Call.create_upload >>= upload_under c.0 c.1
    if str_eq method "s3-multipart" then parts else store_tus c.0 c.1

  -- the key, for a source of the row's size
  unfoldable pub unwrapped : AssetRow → Result Bytes → Program Bytes
  unwrapped a dek =
      if a.plaintext_size == length source then of_result dek else raise CkErrorCode.integrity_error

  -- `resume`, with the row that the catalogue gives and the key that the key service unwraps
  unfoldable pub resume : Result AssetRow → Result Bytes → Program UploadResult
  unfolding list_parts store store_tus unwrapped is_multipart
  resume row dek = do
    a ← of_result row
    key_bytes ← unwrapped a dek
    let parts = list_parts service rounds >>= store a key_bytes
    if is_multipart a.upload_method then parts else store_tus a key_bytes
