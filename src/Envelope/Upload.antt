-- ===== src/Envelope/Upload.antt =====
-- experiments/client-keyed-objects/client/src/upload.ts and the row of catalogue.ts: the row of a new
-- asset, the ciphertext of a range of its chunks with their hashes, the parts of a multipart upload
-- and the windows that a resumable upload asks for.
use supabase_lab.Common.{
  ℕ, zero, suc, ◌+◌, ◌-◌, ◌*◌, min, String, Option, none, some, List, [], ◌∷◌, ◌++◌, ◌<>◌, subarray,
}
use supabase_lab.Envelope.{
  Bytes, Result, ok, ◌>>=◌, Crypto, chunk_bytes, chunk_count, cipher_size, plain_len, hex, unhex,
  encrypt_chunk, sha256_hex,
}

-- a text that is parsed or compared is the list of its code units
pub record AssetRow : Type 0 where
  pub id : String
  pub record_id : String
  pub tenant_id : String
  pub object_key : String
  pub plaintext_size : ℕ
  pub chunk_size : ℕ
  pub chunk_count : ℕ
  pub ciphertext_size : ℕ
  pub cipher : String
  pub key_id : String
  pub wrapped_dek : String
  pub nonce_prefix : List ℕ
  pub plaintext_sha256 : Option (List ℕ)
  pub upload_state : String
  pub upload_method : Option String
  pub s3_upload_id : Option String
  pub tus_url : Option String

object_key_of : String → String → String
object_key_of tenant asset = tenant <> "/" <> asset <> "/data"

-- `createAsset`: the row for the source's size, with the random prefix and the wrapped key
unfoldable pub create_row :
    String → String → String → String → String → String → Bytes → ℕ → AssetRow
unfolding chunk_count cipher_size hex object_key_of
create_row tenant record_id asset_id method key_id wrapped prefix size = record {
  id = asset_id;
  record_id = record_id;
  tenant_id = tenant;
  object_key = object_key_of tenant asset_id;
  plaintext_size = size;
  chunk_size = chunk_bytes;
  chunk_count = chunk_count size chunk_bytes;
  ciphertext_size = cipher_size size chunk_bytes;
  cipher = "aes-256-gcm";
  key_id = key_id;
  wrapped_dek = wrapped;
  nonce_prefix = hex prefix;
  plaintext_sha256 = none;
  upload_state = "uploading";
  upload_method = some method;
  s3_upload_id = none;
  tus_url = none;
}

pub record HashRow : Type 0 where
  pub idx : ℕ
  pub h : List ℕ

pub record Encrypted : Type 0 where
  pub bytes : Bytes
  pub hashes : List HashRow

module _ {Key : Type 0} (crypto : Crypto Key) where
  -- `k` chunks from chunk `i` on, of the plaintext from chunk `first` on
  unfoldable pub encrypt_from : Key → AssetRow → Bytes → ℕ → ℕ → ℕ → Result Encrypted
  unfolding encrypt_chunk sha256_hex plain_len unhex subarray
  encrypt_from key a plain first zero i = ok (record { bytes = []; hashes = [] })
  encrypt_from key a plain first (suc k) i =
      let off = (i - first) * a.chunk_size in
      do
        ct ←
            encrypt_chunk crypto key (unhex a.nonce_prefix) a.id i a.chunk_count
              (subarray plain off (off + plain_len i a.plaintext_size a.chunk_size))
        rest ← encrypt_from key a plain first k (suc i)
        ok (record {
          bytes = ct ++ rest.bytes;
          hashes = record { idx = i; h = sha256_hex crypto ct } ∷ rest.hashes;
        })

  -- chunks first to last of the source
  unfoldable pub encrypt_range : Key → AssetRow → Bytes → ℕ → ℕ → Result Encrypted
  unfolding encrypt_from subarray
  encrypt_range key a source first last =
      encrypt_from key a
        (subarray source (first * a.chunk_size) (min a.plaintext_size (suc last * a.chunk_size)))
        first (suc last - first) first
