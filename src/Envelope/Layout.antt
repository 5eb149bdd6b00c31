-- ===== src/Envelope/Layout.antt =====
-- experiments/client-keyed-objects/client/src/envelope.ts and upload.ts: where the chunks of the
-- ciphertext are, and what the platform's cipher and hash promise.
use supabase_lab.Common.{
  ℕ, ◌+◌, ◌≡◌, refl, ap, ◌∙◌, ◌⊎◌, inl, inr, some, false, ◌++◌, length, arith, ◌==◌, Bool-cases,
}
use supabase_lab.Envelope.{
  Bytes, Result, ok, failed, ◌>>=◌, Crypto, CkErrorCode, aad, uint32_be, unhex, nonce,
  decrypt_chunk, chunk_auth_failed, other_error, caught, result_of,
}
use supabase_lab.Envelope.Hex.{IsBytes}
use supabase_lab.Envelope.Upload.{AssetRow}
use supabase_lab.Envelope.Read.Loop.{plain_chunk}

-- what AES-GCM and SHA-256 promise: decryption undoes encryption, a tag of 16 bytes, digests of bytes
pub record CryptoLaws {Key : Type 0} (crypto : Crypto Key) : Type 0 where
  pub decrypt_encrypt :
      (key : Key) (iv ad plain : Bytes)
      → crypto.decrypt key iv ad (crypto.encrypt key iv ad plain) ≡ some plain
  pub length_encrypt :
      (key : Key) (iv ad plain : Bytes)
      → length (crypto.encrypt key iv ad plain) ≡ length plain + 16
  pub sha256_bytes : (u : Bytes) → IsBytes (crypto.sha256 u)
  pub length_sha256 : (u : Bytes) → length (crypto.sha256 u) ≡ 32

-- what an operation that fails closed gives: an error, or the one right result
abbrev pub IsClosed : Result Bytes → Bytes → Type 0
IsClosed r right = ((e : CkErrorCode) × (r ≡ failed e)) ⊎ (r ≡ ok right)

pub bind-IsClosed :
    {A : Type 0} (m : Result A) (f : A → Result Bytes) (right : Bytes)
    → ((x : A) → m ≡ ok x → IsClosed (f x) right)
    → IsClosed (m >>= f) right
bind-IsClosed (ok x) f right h = h x refl
bind-IsClosed (failed e) f right h = inl (e, refl)

pub nonce_lem :
    (prefix : Bytes) (i : ℕ) → length prefix ≡ 8 → nonce prefix i ≡ ok (prefix ++ uint32_be i)
unfolding nonce
nonce_lem prefix i h = ground (arith, h)

nonce-failed :
    (prefix : Bytes) (i : ℕ) → (length prefix == 8) ≡ false → nonce prefix i ≡ failed other_error
unfolding nonce
nonce-failed prefix i h = rw h refl

module _ {Key : Type 0} (crypto : Crypto Key) (key : Key) (a : AssetRow) (source : Bytes) where
  -- the ciphertext of chunk `i`
  unfoldable pub cipher_chunk : ℕ → Bytes
  unfolding aad uint32_be unhex plain_chunk
  cipher_chunk i =
      crypto.encrypt key (unhex a.nonce_prefix ++ uint32_be i)
        (aad (crypto.utf8 a.id) i a.chunk_count) (plain_chunk a source i)

  module _ (laws : CryptoLaws crypto) where
    pub decrypt_chunk-cipher_chunk :
        (i : ℕ)
        → length (unhex a.nonce_prefix) ≡ 8
        → decrypt_chunk crypto key (unhex a.nonce_prefix) a.id i a.chunk_count (cipher_chunk i)
          ≡ ok (plain_chunk a source i)
    unfolding decrypt_chunk cipher_chunk
    decrypt_chunk-cipher_chunk i h =
        let iv = unhex a.nonce_prefix ++ uint32_be i in
        let ad = aad (crypto.utf8 a.id) i a.chunk_count in
        ap
          (λ n.
            caught chunk_auth_failed
              (n >>= λ v. result_of other_error (crypto.decrypt key v ad (cipher_chunk i))))
          (nonce_lem (unhex a.nonce_prefix) i h)
        ∙ ap (λ p. caught chunk_auth_failed (result_of other_error p))
            (laws.decrypt_encrypt key iv ad (plain_chunk a source i))

    -- a chunk of the right ciphertext decrypts to the source's, or not at all
    pub decrypt_chunk-IsClosed :
        (i : ℕ)
        → IsClosed
            (decrypt_chunk crypto key (unhex a.nonce_prefix) a.id i a.chunk_count (cipher_chunk i))
            (plain_chunk a source i)
    unfolding decrypt_chunk nonce
    decrypt_chunk-IsClosed i = elim (Bool-cases (length (unhex a.nonce_prefix) == 8)) [
      | inl e ↦ inr (decrypt_chunk-cipher_chunk i (ground (arith, e)))
      | inr e ↦ inl (
        chunk_auth_failed,
        ap
            (λ n. caught chunk_auth_failed (
              n >>= λ v.
              result_of other_error
                (crypto.decrypt key v (aad (crypto.utf8 a.id) i a.chunk_count) (cipher_chunk i))))
            (nonce-failed (unhex a.nonce_prefix) i e),
      )
    ]
