-- ===== src/Envelope/Object.antt =====
-- experiments/client-keyed-objects/client/src/upload.ts: the object that an upload stores, chunk by
-- chunk.
use supabase_lab.Common.{
  ℕ, zero, suc, String, ◌+◌, ◌-◌, ◌*◌, ◌/◌, ◌≤◌, ◌<◌, ◌≡◌, refl, ap, ◌∙◌, min, max, List, [], ◌∷◌,
  ◌++◌, length, subarray, subarray-subarray, arith,
}
use native.Mathlib.Nat.{lt-div-mul-add, div-mul-le_self}
use supabase_lab.Envelope.{
  Bytes, ok, ◌>>=◌, Crypto, plain_len, chunk_count, cipher_size, unhex, encrypt_chunk, sha256_hex,
  aad,
}
use supabase_lab.Envelope.Hex.{IsBytes, unhex-hex}
use supabase_lab.Envelope.Upload.{AssetRow, HashRow, encrypt_from, encrypt_range, create_row}
use supabase_lab.Envelope.Layout.{cipher_chunk, nonce_lem}
use supabase_lab.Envelope.Read.Loop.{plain_chunk}
use supabase_lab.Envelope.Read.Span.{mul-le}

-- a row that describes a source
pub record IsRow (a : AssetRow) (source : Bytes) : Type 0 where
  pub sized : length source ≡ a.plaintext_size
  pub positive : 1 ≤ a.chunk_size
  pub counted : a.chunk_count ≡ chunk_count a.plaintext_size a.chunk_size
  pub stored : a.ciphertext_size ≡ cipher_size a.plaintext_size a.chunk_size
  pub prefixed : length (unhex a.nonce_prefix) ≡ 8

covers :
    (n c q : ℕ)
    → 1 ≤ c
    → q * c ≤ n + (c - 1)
    → n + (c - 1) < q * c + c
    → (1 ≤ max 1 q) × (n ≤ max 1 q * c) × ((max 1 q - 1) * c ≤ n)
covers n c zero pos low high = (omega arith, omega (arith, pos, high), omega arith)
covers n c (suc q) pos low high =
    let whole : max 1 (suc q) ≡ suc q = omega arith in
    let less : suc q - 1 ≡ q = omega arith in
    rw (whole, less) (omega arith, omega (arith, pos, high), omega (arith, pos, low))

-- the chunks of a count hold the whole size, and the last one begins within it
pub chunk_count-covers :
    (n c : ℕ)
    → 1 ≤ c
    → (1 ≤ chunk_count n c) × (n ≤ chunk_count n c * c) × ((chunk_count n c - 1) * c ≤ n)
unfolding chunk_count
chunk_count-covers n c pos =
    let q = (n + (c - 1)) / c in
    covers n c q pos (div-mul-le_self (n + (c - 1)) c)
      (lt-div-mul-add {a = n + (c - 1)} {b = c} (omega (arith, pos)))

split-mul : (f i c : ℕ) → f ≤ i → f * c + (i - f) * c ≡ i * c
split-mul f i c h =
    let whole : f + (i - f) ≡ i = omega (arith, h) in
    let distributed : f * c + (i - f) * c ≡ (f + (i - f)) * c = omega arith in
    distributed ∙ ap (λ k. k * c) whole

module _ {Key : Type 0} (crypto : Crypto Key) (key : Key) (a : AssetRow) (source : Bytes) where
  -- the ciphertext of `k` chunks from chunk `i` on
  unfoldable pub cipher_from : ℕ → ℕ → Bytes
  cipher_from zero i = []
  cipher_from (suc k) i = cipher_chunk crypto key a source i ++ cipher_from k (suc i)

  -- the rows of their hashes
  unfoldable pub hash_rows : ℕ → ℕ → List HashRow
  unfolding sha256_hex
  hash_rows zero i = []
  hash_rows (suc k) i =
      record { idx = i; h = sha256_hex crypto (cipher_chunk crypto key a source i) }
      ∷ hash_rows k (suc i)

  cut-plain :
      (first last i : ℕ)
      → length source ≡ a.plaintext_size
      → first ≤ i
      → i ≤ last
      → last * a.chunk_size ≤ a.plaintext_size
      → subarray
          (subarray source (first * a.chunk_size) (min a.plaintext_size (suc last * a.chunk_size)))
          ((i - first) * a.chunk_size)
          ((i - first) * a.chunk_size + plain_len i a.plaintext_size a.chunk_size)
        ≡ plain_chunk a source i
  unfolding plain_chunk plain_len
  cut-plain first last i sized low high inside =
      let c = a.chunk_size in
      let n = a.plaintext_size in
      let at : first * c + (i - first) * c ≡ i * c = split-mul first i c low in
      let to : first * c + ((i - first) * c + plain_len i n c) ≡ i * c + plain_len i n c =
        omega (arith, at) in
      subarray-subarray source (first * c) (min n (suc last * c)) ((i - first) * c)
        ((i - first) * c + plain_len i n c) (omega (arith, at, mul-le i last c high, inside))
      ∙ ap (λ f. subarray source f (first * c + ((i - first) * c + plain_len i n c))) at
      ∙ ap (subarray source (i * c)) to

  encrypt_chunk-plain_chunk :
      (i : ℕ)
      → length (unhex a.nonce_prefix) ≡ 8
      → encrypt_chunk crypto key
          (unhex a.nonce_prefix)
          a.id
          i
          a.chunk_count
          (plain_chunk a source i)
        ≡ ok (cipher_chunk crypto key a source i)
  unfolding encrypt_chunk cipher_chunk
  encrypt_chunk-plain_chunk i h =
      ap
        (λ n. n >>= λ v.
          ok (
            crypto.encrypt key v (aad (crypto.utf8 a.id) i a.chunk_count) (plain_chunk a source i)))
        (nonce_lem (unhex a.nonce_prefix) i h)

  pub encrypt_from-eq :
      (first last k i : ℕ)
      → length source ≡ a.plaintext_size
      → length (unhex a.nonce_prefix) ≡ 8
      → last * a.chunk_size ≤ a.plaintext_size
      → first ≤ i
      → i + k ≡ suc last
      → encrypt_from crypto key a
          (subarray source (first * a.chunk_size) (min a.plaintext_size (suc last * a.chunk_size)))
          first
          k
          i
        ≡ ok (record { bytes = cipher_from k i; hashes = hash_rows k i })
  unfolding encrypt_from cipher_from hash_rows
  encrypt_from-eq first last zero i sized prefixed inside low total = refl
  encrypt_from-eq first last (suc k) i sized prefixed inside low total =
      let rest =
        encrypt_from-eq first last k (suc i) sized prefixed inside (omega (arith, low))
          (omega (arith, total)) in
      rw
        (
          cut-plain first last i sized low (omega (arith, total)) inside,
          encrypt_chunk-plain_chunk i prefixed,
          rest,
        )
        refl

  -- the upload's ciphertext of all the chunks, with a row of its hash for each
  pub encrypt_range-object :
      IsRow a source
      → encrypt_range crypto key a source 0 (a.chunk_count - 1)
        ≡ ok (record { bytes = cipher_from a.chunk_count 0; hashes = hash_rows a.chunk_count 0 })
  unfolding encrypt_range
  encrypt_range-object row =
      let last = a.chunk_count - 1 in
      let (some_chunk, _, inside) = chunk_count-covers a.plaintext_size a.chunk_size row.positive in
      let count : suc last ≡ a.chunk_count = omega (arith, some_chunk, row.counted) in
      let steps : suc last - 0 ≡ a.chunk_count = omega (arith, count) in
      let within : last * a.chunk_size ≤ a.plaintext_size =
        omega (arith, inside, ap (λ m. (m - 1) * a.chunk_size) row.counted) in
      ap
        (λ k.
          encrypt_from crypto key a
            (subarray source (0 * a.chunk_size) (min a.plaintext_size (suc last * a.chunk_size))) 0
            k 0)
        steps
      ∙ encrypt_from-eq 0 last a.chunk_count 0 row.sized row.prefixed within (omega arith)
          (omega (arith, count))

-- The row of a new asset describes its source, for a prefix of eight bytes below 256.
create_row-IsRow :
    (tenant record_id asset_id method key_id wrapped : String) (prefix source : Bytes)
    → length prefix ≡ 8
    → IsBytes prefix
    → IsRow
        (create_row tenant record_id asset_id method key_id wrapped prefix (length source))
        source
unfolding create_row
create_row-IsRow tenant record_id asset_id method key_id wrapped prefix source h b = record {
  sized = refl;
  positive = omega arith;
  counted = refl;
  stored = refl;
  prefixed = ap length (unhex-hex prefix b) ∙ h;
}
