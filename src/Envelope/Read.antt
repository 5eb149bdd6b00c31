-- ===== src/Envelope/Read.antt =====
-- experiments/client-keyed-objects/client/src/read.ts: the decryption of a range of the plaintext.
-- The catalogue, the key service and the storage are values of what they answer.
pub mod Loop
pub mod Span
pub mod Guards
pub mod Closed
pub mod Served
pub mod RoundTrip
pub mod Whole
use supabase_lab.Common.{
  ℕ, zero, suc, ◌+◌, ◌-◌, ◌*◌, ◌/◌, min, max, String, Option, none, some, Bool, true, false, not,
  ◌&&◌, ◌||◌, List, [], ◌∷◌, ◌++◌, length, leb, ltb, ◌==◌, if◌then◌else◌, subarray, replicate,
  set_at, str_eq, codes_equal, every,
}
use supabase_lab.Envelope.{
  Bytes, Result, ok, failed, ◌>>=◌, Crypto, CkErrorCode, tag_bytes, cipher_offset, plain_len, span,
  ChunkSpan, unhex, decrypt_chunk, import_dek, result_of, sha256_hex, range_error, truncated_object,
  chunk_hash_mismatch, integrity_error,
}
use supabase_lab.Envelope.Upload.{AssetRow}

pub record Fetched : Type 0 where
  pub bytes : Bytes
  pub status : ℕ
  pub content_range : List ℕ

-- an error of the request: a `CkError` with the status and the code of its detail, or any other
pub record FetchError : Type 0 where
  pub code : CkErrorCode
  pub is_ck : Bool
  pub status : Option ℕ
  pub detail_code : Option String

pub data Answer : Type 0 where
  got : Fetched → Answer
  refused : FetchError → Answer

pub record ReadOpts : Type 0 where
  pub verify_hashes : Bool
  pub log : Bool

-- what the asset's row, the key service, the storage and the catalogue answer, and which of the last
-- two is first when both fail
pub record World : Type 0 where
  pub asset : Result AssetRow
  pub dek : Result Bytes
  pub fetch : ℕ → ℕ → Answer
  pub chunk_hashes : ℕ → ℕ → Result (ℕ → Option (List ℕ))
  pub hashes_first : Bool
  pub logged : Result (Unit {0})

is_digit : ℕ → Bool
is_digit c = leb 48 c && leb c 57

unfoldable pub decimal_from : ℕ → List ℕ → ℕ
decimal_from n [] = n
decimal_from n (c ∷ cs) = decimal_from (10 * n + (c - 48)) cs

-- the number of `/\/(\d+)$/`
unfoldable pub content_total : List ℕ → Option ℕ
unfolding decimal_from is_digit
content_total [] = none
content_total (c ∷ cs) =
    let later = content_total cs in
    if c == 47 && (leb 1 (length cs) && every is_digit cs) then some (decimal_from 0 cs) else later

-- what becomes of a failed request
fetch_failure : FetchError → CkErrorCode
fetch_failure e =
    let unsatisfiable =
      elim e.status [ some s ↦ s == 416 | none ↦ false ]
      || elim e.detail_code [ some c ↦ str_eq c "InvalidRange" | none ↦ false ] in
    if e.is_ck && unsatisfiable then truncated_object else e.code

abbrev pub Hashes : Type 0
Hashes = ℕ → Option (List ℕ)

-- `Promise.all` of the request and of the hashes: the first failure in time, if both fail
unfoldable pub joined : Answer → Result Hashes → Bool → Result (Fetched × Hashes)
unfolding fetch_failure
joined (got f) (ok hs) hashes_first = ok (f, hs)
joined (got f) (failed e) hashes_first = failed e
joined (refused r) (ok hs) hashes_first = failed (fetch_failure r)
joined (refused r) (failed e) hashes_first = failed (if hashes_first then e else fetch_failure r)

unfoldable pub both : World → ReadOpts → ChunkSpan → Result (Fetched × Hashes)
unfolding joined
both w o sp =
    joined (w.fetch sp.c_start sp.c_end)
      (if o.verify_hashes then w.chunk_hashes sp.first sp.last else ok (λ i. none)) w.hashes_first

-- the window of a whole object that came back
unfoldable pub window : AssetRow → ChunkSpan → Fetched → Result Bytes
unfolding subarray
window a sp f =
    let need = sp.c_end - sp.c_start + 1 in
    if f.status == 200 && not (length f.bytes == need)
    then if ltb (length f.bytes) a.ciphertext_size
      then failed truncated_object
      else ok (subarray f.bytes sp.c_start (sp.c_end + 1))
    else ok f.bytes

-- a guard that throws
abbrev pub require : Bool → CkErrorCode → Result (Unit {0})
require true e = ok tt
require false e = failed e

-- `Number.isFinite(total) && total !== a.ciphertext_size`
abbrev pub same_total : Option ℕ → ℕ → Result (Unit {0})
same_total none size = ok tt
same_total (some total) size = require (total == size) truncated_object

unfoldable pub check_total : AssetRow → Fetched → Result (Unit {0})
unfolding content_total
check_total a f = same_total (content_total f.content_range) a.ciphertext_size

-- a body that is shorter than the range that was asked for
unfoldable pub check_need : ChunkSpan → Bytes → Result (Unit {0})
check_need sp body = require (not (ltb (length body) (sp.c_end - sp.c_start + 1))) truncated_object

-- the entry of the access log, if it is asked for
abbrev pub logged_if : Bool → Result (Unit {0}) → Result (Unit {0})
logged_if true answer = answer
logged_if false answer = ok tt

-- `plain.set`, which throws a `RangeError` when the bytes do not fit
unfoldable pub put : Bytes → Bytes → ℕ → Result Bytes
unfolding set_at
put plain bytes at = result_of range_error (set_at plain bytes at)

-- what chunk `i`, decrypted, adds to the plaintext of [start, end_excl)
unfoldable pub place : AssetRow → ℕ → ℕ → ℕ → Bytes → Bytes → Result Bytes
unfolding subarray put
place a start end_excl i pt plain =
    let p_start = i * a.chunk_size in
    let from = max start p_start in
    let to = min end_excl (p_start + length pt) in
    put plain (subarray pt (from - p_start) (to - p_start)) (from - start)

-- `k` chunks from chunk `i` on
unfoldable pub read_from : (ℕ → Result Bytes) → AssetRow → ℕ → ℕ → ℕ → ℕ → Bytes → Result Bytes
unfolding place
read_from chunk a start end_excl zero i plain = ok plain
read_from chunk a start end_excl (suc k) i plain = do
  pt ← chunk i
  plain' ← place a start end_excl i pt plain
  read_from chunk a start end_excl k (suc i) plain'

module _ {Key : Type 0} (crypto : Crypto Key) where
  unfoldable pub check_hash : Bool → (ℕ → Option (List ℕ)) → ℕ → Bytes → Result (Unit {0})
  unfolding sha256_hex
  check_hash false hashes i ct = ok tt
  check_hash true hashes i ct = do
    want ← result_of chunk_hash_mismatch (hashes i)
    _ ← require (not (length want == 0)) chunk_hash_mismatch
    require (codes_equal (sha256_hex crypto ct) want) chunk_hash_mismatch

  -- one chunk of the body: cut out, checked and decrypted
  unfoldable pub open_chunk :
      Key → AssetRow → Bool → (ℕ → Option (List ℕ)) → ℕ → Bytes → ℕ → Result Bytes
  unfolding check_hash decrypt_chunk cipher_offset plain_len subarray unhex
  open_chunk key a verify hashes c_start body i =
      let off = cipher_offset i a.chunk_size - c_start in
      let ct = subarray body off (off + plain_len i a.plaintext_size a.chunk_size + tag_bytes) in
      do
        _ ← check_hash verify hashes i ct
        decrypt_chunk crypto key (unhex a.nonce_prefix) a.id i a.chunk_count ct

  unfoldable pub read_body :
      Key → AssetRow → Bool → (ℕ → Option (List ℕ)) → ChunkSpan → ℕ → ℕ → Bytes → Result Bytes
  unfolding read_from open_chunk replicate
  read_body key a verify hashes sp start end_excl body =
      read_from (open_chunk key a verify hashes sp.c_start body) a start end_excl
        (suc sp.last - sp.first) sp.first (replicate (end_excl - start) 0)

  unfoldable pub read_range : World → ReadOpts → ℕ → ℕ → Result Bytes
  unfolding read_body window check_total check_need both import_dek span
  read_range w o start end_excl = do
    a ← w.asset
    _ ← require (str_eq a.upload_state "complete") integrity_error
    dek ← w.dek
    sp ← span start end_excl a.plaintext_size a.chunk_size
    answers ← both w o sp
    body ← window a sp answers.0
    _ ← check_total a answers.0
    _ ← check_need sp body
    key ← import_dek crypto dek
    plain ← read_body key a o.verify_hashes answers.1 sp start end_excl body
    _ ← logged_if o.log w.logged
    ok plain
