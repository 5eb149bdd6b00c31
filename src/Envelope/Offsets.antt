-- ===== src/Envelope/Offsets.antt =====
-- experiments/client-keyed-objects/client/src/upload.ts: where the chunks of the stored object are.
use supabase_lab.Common.{
  ℕ, zero, suc, ◌+◌, ◌-◌, ◌*◌, ◌≤◌, ◌<◌, ◌≡◌, sym, ap, ◌∙◌, min, ◌++◌, length, length-append,
  subarray, length-subarray, take, drop, take-append, drop-append, drop-drop, take-congr,
  drop-congr, arith,
}
use supabase_lab.Envelope.{Bytes, Crypto, plain_len, cipher_size, unhex, uint32_be, aad}
use supabase_lab.Envelope.Upload.{AssetRow}
use supabase_lab.Envelope.Layout.{CryptoLaws, cipher_chunk}
use supabase_lab.Envelope.Read.Loop.{plain_chunk}
use supabase_lab.Envelope.Read.Span.{mul-le}
use supabase_lab.Envelope.Object.{IsRow, chunk_count-covers, cipher_from}

module _ {Key : Type 0} (crypto : Crypto Key) (key : Key) (a : AssetRow) (source : Bytes) where
  pub length-cipher_chunk :
      (i : ℕ)
      → CryptoLaws crypto
      → length source ≡ a.plaintext_size
      → length (cipher_chunk crypto key a source i) ≡ plain_len i a.plaintext_size a.chunk_size + 16
  unfolding cipher_chunk plain_chunk plain_len
  length-cipher_chunk i laws sized =
      let c = a.chunk_size in
      let iv = unhex a.nonce_prefix ++ uint32_be i in
      let ad = aad (crypto.utf8 a.id) i a.chunk_count in
      omega (
        arith,
        laws.length_encrypt key iv ad (plain_chunk a source i),
        length-subarray source (i * c) (i * c + plain_len i a.plaintext_size c),
        sized,
      )

  length-cipher_from :
      (k i : ℕ)
      → CryptoLaws crypto
      → length source ≡ a.plaintext_size
      → length (cipher_from crypto key a source k i)
        ≡ min a.plaintext_size ((i + k) * a.chunk_size)
          - min a.plaintext_size (i * a.chunk_size)
          + 16 * k
  unfolding cipher_from plain_len
  length-cipher_from zero i laws sized =
      let same : (i + 0) * a.chunk_size ≡ i * a.chunk_size =
        ap (λ n. n * a.chunk_size) (omega arith) in
      omega (arith, same)
  length-cipher_from (suc k) i laws sized =
      let c = a.chunk_size in
      let same : (suc i + k) * c ≡ (i + suc k) * c = ap (λ n. n * c) (omega arith) in
      let next : suc i * c ≡ i * c + c = omega arith in
      omega (
        arith,
        length-append (cipher_chunk crypto key a source i)
            (cipher_from crypto key a source k (suc i)),
        length-cipher_chunk i laws sized,
        length-cipher_from k (suc i) laws sized,
        mul-le (suc i) (suc i + k) c (omega arith),
        same,
        next,
      )

  whole_chunk :
      (i : ℕ)
      → CryptoLaws crypto
      → length source ≡ a.plaintext_size
      → suc i * a.chunk_size ≤ a.plaintext_size
      → length (cipher_chunk crypto key a source i) ≡ a.chunk_size + 16
  unfolding plain_len
  whole_chunk i laws sized inside = omega (arith, length-cipher_chunk i laws sized, inside)

  drop-chunk :
      (k i n : ℕ)
      → length (cipher_chunk crypto key a source i) ≡ n
      → drop n (cipher_from crypto key a source (suc k) i)
        ≡ cipher_from crypto key a source k (suc i)
  unfolding cipher_from
  drop-chunk k i n h =
      drop-append n (cipher_chunk crypto key a source i) (cipher_from crypto key a source k (suc i))
        h

  -- where the chunks before `i + d` are whole, they end after d * (chunk + tag) bytes
  drop-cipher_from :
      (d k i : ℕ)
      → CryptoLaws crypto
      → length source ≡ a.plaintext_size
      → (i + d) * a.chunk_size ≤ a.plaintext_size
      → drop (d * (a.chunk_size + 16)) (cipher_from crypto key a source (d + k) i)
        ≡ cipher_from crypto key a source k (i + d)
  unfolding drop
  drop-cipher_from zero k i laws sized inside =
      let none_of : 0 * (a.chunk_size + 16) ≡ 0 = omega arith in
      let all_of : 0 + k ≡ k = omega arith in
      let here : i ≡ i + 0 = omega arith in
      drop-congr (0 * (a.chunk_size + 16)) 0 (cipher_from crypto key a source (0 + k) i) none_of
      ∙ ap (λ m. cipher_from crypto key a source m i) all_of
      ∙ ap (cipher_from crypto key a source k) here
  drop-cipher_from (suc d) k i laws sized inside =
      let c = a.chunk_size in
      let here : suc i + d ≡ i + suc d = omega arith in
      let whole : length (cipher_chunk crypto key a source i) ≡ c + 16 =
        whole_chunk i laws sized
          (omega (arith, inside, mul-le (suc i) (i + suc d) c (omega arith))) in
      let count : suc d + k ≡ suc (d + k) = omega arith in
      drop-congr (suc d * (c + 16)) (c + 16 + d * (c + 16))
        (cipher_from crypto key a source (suc d + k) i) (omega arith)
      ∙ ap (λ m. drop (c + 16 + d * (c + 16)) (cipher_from crypto key a source m i)) count
      ∙ sym (drop-drop (d * (c + 16)) (c + 16) (cipher_from crypto key a source (suc (d + k)) i))
      ∙ ap (drop (d * (c + 16))) (drop-chunk (d + k) i (c + 16) whole)
      ∙ drop-cipher_from d k (suc i) laws sized (omega (arith, inside, ap (λ m. m * c) here))
      ∙ ap (cipher_from crypto key a source k) here

  -- chunk `d` of the object is where `cipher_offset` says
  pub cut-cipher_from :
      (d k : ℕ)
      → CryptoLaws crypto
      → length source ≡ a.plaintext_size
      → d * a.chunk_size ≤ a.plaintext_size
      → d < k
      → subarray
          (cipher_from crypto key a source k 0)
          (d * (a.chunk_size + 16))
          (d * (a.chunk_size + 16) + plain_len d a.plaintext_size a.chunk_size + 16)
        ≡ cipher_chunk crypto key a source d
  unfolding subarray cipher_from
  cut-cipher_from d k laws sized inside before =
      let c = a.chunk_size in
      let n = d * (c + 16) in
      let len = plain_len d a.plaintext_size c + 16 in
      let parts : k ≡ d + suc (k - suc d) = omega (arith, before) in
      let begins : 0 + d ≡ d = omega arith in
      take-congr (n + plain_len d a.plaintext_size c + 16 - n) len
        (drop n (cipher_from crypto key a source k 0)) (omega arith)
      ∙ ap (λ m. take len (drop n (cipher_from crypto key a source m 0))) parts
      ∙ ap (take len) (
          drop-cipher_from d (suc (k - suc d)) 0 laws sized
            (omega (arith, inside, ap (λ m. m * c) begins)))
      ∙ ap (λ m. take len (cipher_from crypto key a source (suc (k - suc d)) m)) begins
      ∙ take-append len (cipher_chunk crypto key a source d)
          (cipher_from crypto key a source (k - suc d) (suc d)) (length-cipher_chunk d laws sized)

  -- the stored object has the row's size
  pub length-object :
      CryptoLaws crypto
      → IsRow a source
      → length (cipher_from crypto key a source a.chunk_count 0) ≡ a.ciphertext_size
  unfolding cipher_size
  length-object laws row =
      let (_, covered, _) = chunk_count-covers a.plaintext_size a.chunk_size row.positive in
      let begins : 0 + a.chunk_count ≡ a.chunk_count = omega arith in
      omega (
        arith,
        length-cipher_from a.chunk_count 0 laws row.sized,
        ap (λ m. m * a.chunk_size) begins,
        ap (λ m. m * a.chunk_size) row.counted,
        covered,
        row.counted,
        row.stored,
      )
