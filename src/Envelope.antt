-- ===== src/Envelope.antt =====
-- experiments/client-keyed-objects/client/src/envelope.ts and errors.ts: the layout of an encrypted
-- object, the nonces and the associated data of its chunks, and hexadecimal texts. A byte array is
-- the list of its bytes; a text that the code only splits or compares is the list of its UTF-16 code
-- units.
pub mod Hex
pub mod Binding
pub mod Layout
pub mod Object
pub mod Offsets
pub mod Upload
pub mod Windows
pub mod Multipart
pub mod Read
pub mod Needle
use supabase_lab.Common.{
  ℕ, zero, suc, String, ◌+◌, ◌-◌, ◌*◌, ◌/◌, ◌%◌, min, max, Option, none, some, Bool, true, false,
  ◌&&◌, ◌||◌, List, [], ◌∷◌, ◌++◌, length, leb, ltb, ◌==◌, if◌then◌else◌,
}

abbrev pub Bytes : Type 0
Bytes = List ℕ

-- `CkErrorCode`, and the other exceptions: a `RangeError`, an `Error` and any else
pub data CkErrorCode : Type 0 where
  unknown_tenant : CkErrorCode
  auth_error : CkErrorCode
  key_service_unavailable : CkErrorCode
  key_service_denied : CkErrorCode
  key_service_error : CkErrorCode
  catalogue_error : CkErrorCode
  storage_error : CkErrorCode
  chunk_hash_mismatch : CkErrorCode
  chunk_auth_failed : CkErrorCode
  truncated_object : CkErrorCode
  range_not_honoured : CkErrorCode
  integrity_error : CkErrorCode
  range_error : CkErrorCode
  other_error : CkErrorCode

-- what an operation returns or throws
pub data Result {ℓ} (A : Type ℓ) : Type ℓ where
  ok : A → Result A
  failed : CkErrorCode → Result A

infixl 5 ◌>>=◌
-- the step of a do block: what throws ends it
abbrev pub ◌>>=◌ {ℓ κ} : {A : Type ℓ} {B : Type κ} → Result A → (A → Result B) → Result B
ok a >>= f = f a
failed e >>= f = failed e

-- `try { … } catch { throw e }`
abbrev pub caught {ℓ} : {A : Type ℓ} → CkErrorCode → Result A → Result A
caught e (ok a) = ok a
caught e (failed e') = failed e

-- an operation of the platform, which throws when it has no result
abbrev pub result_of {ℓ} : {A : Type ℓ} → CkErrorCode → Option A → Result A
result_of e (some a) = ok a
result_of e none = failed e

abbrev pub chunk_bytes : ℕ
chunk_bytes = 8 * 1024 * 1024

abbrev pub tag_bytes : ℕ
tag_bytes = 16

-- `Math.ceil(plainSize / chunk)`, at least 1
unfoldable pub chunk_count : ℕ → ℕ → ℕ
chunk_count plain_size chunk = max 1 ((plain_size + (chunk - 1)) / chunk)

unfoldable pub cipher_size : ℕ → ℕ → ℕ
unfolding chunk_count
cipher_size plain_size chunk = plain_size + chunk_count plain_size chunk * tag_bytes

unfoldable pub cipher_offset : ℕ → ℕ → ℕ
cipher_offset i chunk = i * (chunk + tag_bytes)

-- `Math.max(0, Math.min(chunk, plainSize - i * chunk))`
unfoldable pub plain_len : ℕ → ℕ → ℕ → ℕ
plain_len i plain_size chunk = min chunk (plain_size - i * chunk)

pub record ChunkSpan : Type 0 where
  pub first : ℕ
  pub last : ℕ
  pub c_start : ℕ
  pub c_end : ℕ

unfoldable pub span : ℕ → ℕ → ℕ → ℕ → Result ChunkSpan
unfolding cipher_offset plain_len
span start end_excl plain_size chunk =
    if ltb plain_size end_excl || leb end_excl start
    then failed range_error
    else let first = start / chunk in
      let last = (end_excl - 1) / chunk in
      ok (record {
        first = first;
        last = last;
        c_start = cipher_offset first chunk;
        c_end = cipher_offset last chunk + plain_len last plain_size chunk + tag_bytes - 1;
      })

-- the four bytes of `setUint32`, most significant first
unfoldable pub uint32_be : ℕ → Bytes
uint32_be n = n / 16777216 % 256 ∷ n / 65536 % 256 ∷ n / 256 % 256 ∷ n % 256 ∷ []

unfoldable pub nonce : Bytes → ℕ → Result Bytes
unfolding uint32_be
nonce prefix idx = if length prefix == 8 then ok (prefix ++ uint32_be idx) else failed other_error

-- the asset's id is given as its UTF-8 bytes
unfoldable pub aad : Bytes → ℕ → ℕ → Bytes
unfolding uint32_be
aad asset_id idx count = asset_id ++ (uint32_be idx ++ uint32_be count)

-- the platform: AES-GCM under an imported key, SHA-256 and the encoding of a text
pub record Crypto (Key : Type 0) : Type 0 where
  pub import_key : Bytes → Option Key
  pub encrypt : Key → Bytes → Bytes → Bytes → Bytes
  pub decrypt : Key → Bytes → Bytes → Bytes → Option Bytes
  pub sha256 : Bytes → Bytes
  pub utf8 : String → Bytes

-- a digit of `toString(16)`
unfoldable pub hex_digit : ℕ → ℕ
hex_digit n = if ltb n 10 then 48 + n else 87 + n

unfoldable pub hex : Bytes → List ℕ
unfolding hex_digit
hex [] = []
hex (b ∷ bs) = hex_digit (b / 16) ∷ hex_digit (b % 16) ∷ hex bs

-- what `parseInt(_, 16)` reads of one code unit
unfoldable pub digit_of : ℕ → Option ℕ
digit_of c =
    if leb 48 c && leb c 57
    then some (c - 48)
    else if leb 97 c && leb c 102
    then some (c - 87)
    else if leb 65 c && leb c 70
    then some (c - 55)
    else none

-- a line end, which `.` does not match
unfoldable pub is_line_end : ℕ → Bool
is_line_end c = c == 10 || (c == 13 || (c == 8232 || c == 8233))

-- the other white space that `parseInt` skips
unfoldable pub is_blank : ℕ → Bool
is_blank c =
    c == 9
    || (c == 11
        || (c == 12
            || (c == 32
                || (c == 160
                    || (c == 5760
                        || ((leb 8192 c && leb c 8202)
                            || (c == 8239 || (c == 8287 || (c == 12288 || c == 65279)))))))))

-- the byte that the array keeps of `parseInt` of two code units; what is no number is 0
unfoldable pub parse_byte : ℕ → ℕ → ℕ
unfolding digit_of is_blank
parse_byte c d = elim (digit_of c) [
  | some a ↦ elim (digit_of d) [ some b ↦ 16 * a + b | none ↦ a ]
  | none ↦ elim (digit_of d) [
    | some b ↦ if is_blank c || c == 43 then b else if c == 45 then (256 - b) % 256 else 0
    | none ↦ 0
  ]
]

-- the bytes of the matches of `/../g`
unfoldable pub unhex : List ℕ → Bytes
unfolding parse_byte is_line_end
unhex [] = []
unhex (c ∷ []) = []
unhex (c ∷ d ∷ rest) =
    let next = unhex (d ∷ rest) in
    let after = unhex rest in
    if is_line_end c || is_line_end d then next else parse_byte c d ∷ after

module _ {Key : Type 0} (crypto : Crypto Key) where
  unfoldable pub import_dek : Bytes → Result Key
  import_dek raw = result_of other_error (crypto.import_key raw)

  unfoldable pub encrypt_chunk : Key → Bytes → String → ℕ → ℕ → Bytes → Result Bytes
  unfolding nonce aad
  encrypt_chunk key prefix asset_id idx count plain = do
    iv ← nonce prefix idx
    ok (crypto.encrypt key iv (aad (crypto.utf8 asset_id) idx count) plain)

  -- whatever fails, also the nonce, is a chunk that did not authenticate
  unfoldable pub decrypt_chunk : Key → Bytes → String → ℕ → ℕ → Bytes → Result Bytes
  unfolding nonce aad
  decrypt_chunk key prefix asset_id idx count ct = caught chunk_auth_failed (do
    iv ← nonce prefix idx
    result_of other_error (crypto.decrypt key iv (aad (crypto.utf8 asset_id) idx count) ct))

  unfoldable pub sha256_hex : Bytes → List ℕ
  unfolding hex
  sha256_hex u = hex (crypto.sha256 u)
