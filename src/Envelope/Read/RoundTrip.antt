-- ===== src/Envelope/Read/RoundTrip.antt =====
-- experiments/client-keyed-objects/client/src/read.ts and upload.ts: what is uploaded is read back.
use supabase_lab.Common.{
  ℕ, zero, suc, ◌+◌, ◌-◌, ◌*◌, ◌/◌, ◌≤◌, ◌<◌, ◌≡◌, refl, sym, ap, ◌∙◌, ◌⊎◌, inl, inr, none, some,
  Bool, true, false, length, subarray, subarray-subarray, arith, ◌==◌, Bool-cases, str_eq, subst,
}
use native.Mathlib.Nat.{div-mul-le_self, div-lt_iff_lt-mul}
use supabase_lab.Envelope.{
  Bytes, ok, ◌>>=◌, Crypto, ChunkSpan, span, unhex, sha256_hex, decrypt_chunk, import_dek,
  result_of, cipher_offset, plain_len, cipher_size, integrity_error, other_error,
}
use supabase_lab.Envelope.Upload.{AssetRow, Encrypted, encrypt_range}
use supabase_lab.Envelope.Layout.{CryptoLaws, cipher_chunk, decrypt_chunk-cipher_chunk}
use supabase_lab.Envelope.Object.{
  IsRow, cipher_from, hash_rows, encrypt_range-object, chunk_count-covers,
}
use supabase_lab.Envelope.Offsets.{cut-cipher_from, length-object}
use supabase_lab.Envelope.Read.{
  World, ReadOpts, Answer, Fetched, Hashes, content_total, read_range, check_need, read_body,
  read_from, open_chunk, check_hash, both, window, check_total, require, logged_if,
}
use supabase_lab.Envelope.Read.Span.{
  mul-le, filled-start, filled-end, chunks-meet, span_lem, span-order,
}
use supabase_lab.Envelope.Read.Loop.{plain_chunk, filled, read_from-filled}
use supabase_lab.Envelope.Read.Served.{
  hash_of, IsServed, codes_equal_self, length-hex, enough_bytes, chunk_end-le, ok-injective,
  window-served, check_total-served, complete_state, logged_lem, bind-eq, asked, both-served,
}

module _ {Key : Type 0} (crypto : Crypto Key) (laws : CryptoLaws crypto) (key : Key) (a : AssetRow)
    (source : Bytes) where
  hash_of-hash_rows :
      (k i j : ℕ)
      → i ≤ j
      → j < i + k
      → hash_of (hash_rows crypto key a source k i) j
        ≡ some (sha256_hex crypto (cipher_chunk crypto key a source j))
  unfolding hash_of hash_rows
  hash_of-hash_rows zero i j low high = absurd (omega (arith, low, high))
  hash_of-hash_rows (suc k) i j low high = elim (Bool-cases (i == j)) [
    | inl e ↦
        let same : i ≡ j = ground (arith, e) in
        rw e (ap (λ n. some (sha256_hex crypto (cipher_chunk crypto key a source n))) same)
    | inr e ↦ rw e (hash_of-hash_rows k (suc i) j (ground (arith, e, low)) (omega (arith, high)))
  ]

  full_hash : (ct : Bytes) → (length (sha256_hex crypto ct) == 0) ≡ false
  unfolding sha256_hex
  full_hash ct = ground (arith, length-hex (crypto.sha256 ct), laws.length_sha256 ct)

  check_hash-cipher_chunk :
      (verify : Bool) (hashes : Hashes) (i : ℕ)
      → (verify ≡ true → hashes i ≡ some (sha256_hex crypto (cipher_chunk crypto key a source i)))
      → check_hash crypto verify hashes i (cipher_chunk crypto key a source i) ≡ ok tt
  unfolding check_hash
  check_hash-cipher_chunk false hashes i h = refl
  check_hash-cipher_chunk true hashes i h =
      let ct = cipher_chunk crypto key a source i in
      let full : (length (sha256_hex crypto ct) == 0) ≡ false = full_hash ct in
      rw (h refl, full, codes_equal_self (sha256_hex crypto ct)) refl

  cut-object :
      (c_start stop i : ℕ)
      → IsRow a source
      → i < a.chunk_count
      → i * a.chunk_size ≤ a.plaintext_size
      → c_start ≤ i * (a.chunk_size + 16)
      → i * (a.chunk_size + 16) + plain_len i a.plaintext_size a.chunk_size + 16 ≤ stop
      → let off = i * (a.chunk_size + 16) - c_start in
        subarray
          (subarray (cipher_from crypto key a source a.chunk_count 0) c_start stop)
          off
          (off + plain_len i a.plaintext_size a.chunk_size + 16)
        ≡ cipher_chunk crypto key a source i
  cut-object c_start stop i row before inside low high =
      let object = cipher_from crypto key a source a.chunk_count 0 in
      let n = i * (a.chunk_size + 16) in
      let off = n - c_start in
      let len = plain_len i a.plaintext_size a.chunk_size in
      let from : c_start + off ≡ n = omega (arith, low) in
      let to : c_start + (off + len + 16) ≡ n + len + 16 = omega (arith, low) in
      subarray-subarray object c_start stop off (off + len + 16) (omega (arith, low, high))
      ∙ ap (λ f. subarray object f (c_start + (off + len + 16))) from
      ∙ ap (subarray object n) to
      ∙ cut-cipher_from crypto key a source i a.chunk_count laws row.sized inside before

  -- every chunk of the body that the storage serves opens to the source's
  open_chunk-plain_chunk :
      (verify : Bool) (hashes : Hashes) (c_start stop i : ℕ)
      → IsRow a source
      → i < a.chunk_count
      → i * a.chunk_size ≤ a.plaintext_size
      → c_start ≤ i * (a.chunk_size + 16)
      → i * (a.chunk_size + 16) + plain_len i a.plaintext_size a.chunk_size + 16 ≤ stop
      → (verify ≡ true → hashes i ≡ some (sha256_hex crypto (cipher_chunk crypto key a source i)))
      → open_chunk crypto key a verify hashes c_start
          (subarray (cipher_from crypto key a source a.chunk_count 0) c_start stop)
          i
        ≡ ok (plain_chunk a source i)
  unfolding open_chunk cipher_offset
  open_chunk-plain_chunk verify hashes c_start stop i row before inside low high h =
      let body = subarray (cipher_from crypto key a source a.chunk_count 0) c_start stop in
      let opened = λ (ct : Bytes). check_hash crypto verify hashes i ct >>= λ _.
      decrypt_chunk crypto key (unhex a.nonce_prefix) a.id i a.chunk_count ct in
      let ct = cipher_chunk crypto key a source i in
      ap opened (cut-object c_start stop i row before inside low high)
      ∙ ap
          (λ checked. checked >>= λ _.
            decrypt_chunk crypto key (unhex a.nonce_prefix) a.id i a.chunk_count ct)
          (check_hash-cipher_chunk verify hashes i h)
      ∙ decrypt_chunk-cipher_chunk crypto key a source laws i row.prefixed

  -- where the last chunk of a range is
  last-inside :
      (start end_excl : ℕ)
      → IsRow a source
      → start < end_excl
      → end_excl ≤ length source
      → let last = (end_excl - 1) / a.chunk_size in
        (last < a.chunk_count)
        × (last * a.chunk_size ≤ a.plaintext_size)
        × (last * (a.chunk_size + 16) + plain_len last a.plaintext_size a.chunk_size + 16
            ≤ a.ciphertext_size)
  unfolding plain_len cipher_size
  last-inside start end_excl row nonempty inside =
      let c = a.chunk_size in
      let last = (end_excl - 1) / c in
      let (_, covered, _) = chunk_count-covers a.plaintext_size c row.positive in
      let meets = div-mul-le_self (end_excl - 1) c in
      let within : last * c ≤ a.plaintext_size = omega (arith, meets, inside, row.sized) in
      let before : last < a.chunk_count =
        (div-lt_iff_lt-mul {k = c} {x = end_excl - 1} {y = a.chunk_count}
            (omega (arith, row.positive))).1
          (omega (arith, nonempty, inside, row.sized, covered, ap (λ m. m * c) row.counted)) in
      (before, within, omega (arith, within, before, row.stored, row.counted))

  -- the loop over what the storage served
  read_body-served :
      (verify : Bool) (hashes : Hashes) (start end_excl : ℕ) (sp : ChunkSpan)
      → IsRow a source
      → start < end_excl
      → end_excl ≤ length source
      → span start end_excl a.plaintext_size a.chunk_size ≡ ok sp
      → ((i : ℕ)
          → i < a.chunk_count
          → verify ≡ true
          → hashes i ≡ some (sha256_hex crypto (cipher_chunk crypto key a source i)))
      → (read_body crypto key a verify hashes sp start end_excl
            (subarray (cipher_from crypto key a source a.chunk_count 0) sp.c_start (sp.c_end + 1))
          ≡ ok (subarray source start end_excl))
        × (check_need sp
              (subarray (cipher_from crypto key a source a.chunk_count 0) sp.c_start (sp.c_end + 1))
            ≡ ok tt)
        × (sp.c_start ≤ sp.c_end)
        × (sp.c_end + 1 ≤ a.ciphertext_size)
  unfolding check_need read_body cipher_offset
  read_body-served verify hashes start end_excl sp row nonempty inside e recorded =
      let c = a.chunk_size in
      let first = start / c in
      let last = (end_excl - 1) / c in
      let object = cipher_from crypto key a source a.chunk_count 0 in
      let (before, within, stored) = last-inside start end_excl row nonempty inside in
      let (ordered, reaches) = span-order c start end_excl row.positive nonempty in
      let fits : end_excl ≤ a.plaintext_size = omega (arith, inside, row.sized) in
      let c_start = first * (c + 16) in
      let c_end = last * (c + 16) + plain_len last a.plaintext_size c + 16 - 1 in
      let body = subarray object c_start (c_end + 1) in
      let low = mul-le first last (c + 16) ordered in
      let long =
        enough_bytes object c_start c_end (omega (arith, low))
          (omega (arith, stored, length-object crypto key a source laws row)) in
      let loop =
        read_from-filled a source row.sized start end_excl nonempty inside
          (open_chunk crypto key a verify hashes c_start body) (suc last - first) first
          (λ j l u.
            let upto : j ≤ last = omega (arith, u, ordered) in
            (
              chunks-meet c start end_excl j row.positive nonempty l (omega (arith, upto)),
              open_chunk-plain_chunk verify hashes c_start (c_end + 1) j row
                  (omega (arith, upto, before)) (omega (arith, mul-le j last c upto, within))
                  (mul-le first j (c + 16) l)
                  (omega (arith, chunk_end-le a.plaintext_size c j last upto within))
                  (recorded j (omega (arith, upto, before))),
            )) in
      let after : first + (suc last - first) ≡ suc last = omega (arith, ordered) in
      let whole =
        ap
          (read_from (open_chunk crypto key a verify hashes c_start body) a start end_excl
            (suc last - first) first)
          (sym (filled-start source start end_excl (first * c) nonempty (div-mul-le_self start c)))
        ∙ loop
        ∙ ap (λ n. ok (filled source start end_excl (n * c))) after
        ∙ ap ok (filled-end source start end_excl (suc last * c) nonempty reaches) in
      subst
        (λ (s : ChunkSpan).
          (read_body crypto key a verify hashes s start end_excl
              (subarray object s.c_start (s.c_end + 1))
            ≡ ok (subarray source start end_excl))
          × (check_need s (subarray object s.c_start (s.c_end + 1)) ≡ ok tt)
          × (s.c_start ≤ s.c_end)
          × (s.c_end + 1 ≤ a.ciphertext_size))
        (ok-injective _ sp (sym (span_lem start end_excl a.plaintext_size c nonempty fits) ∙ e))
        (whole, rw long refl, omega (arith, low), omega (arith, stored))

  -- A read of [start, end_excl) of an asset whose ciphertext and hashes are those of `encrypt_range`
  -- over all its chunks gives those bytes of the source, for every range inside it that is not empty,
  -- with and without a check of the hashes. Assumed are the laws of the cipher and of the hash, a
  -- complete row that describes the source, the asset's key from the key service, the stored hashes
  -- from the catalogue, a log that is written, and from the storage either the range that is asked
  -- for, with status 206, or the whole object, with status 200, and no total or the right one.
  pub read_range-encrypt_range :
      (stored : Encrypted) (w : World) (o : ReadOpts) (start end_excl : ℕ) (sp : ChunkSpan)
      (f : Fetched) (dek : Bytes)
      → IsRow a source
      → a.upload_state ≡ "complete"
      → encrypt_range crypto key a source 0 (a.chunk_count - 1) ≡ ok stored
      → start < end_excl
      → end_excl ≤ length source
      → span start end_excl a.plaintext_size a.chunk_size ≡ ok sp
      → w.asset ≡ ok a
      → w.dek ≡ ok dek
      → crypto.import_key dek ≡ some key
      → w.chunk_hashes sp.first sp.last ≡ ok (hash_of stored.hashes)
      → w.fetch sp.c_start sp.c_end ≡ Answer.got f
      → IsServed stored.bytes sp.c_start sp.c_end f
      → (content_total f.content_range ≡ none)
        ⊎ (content_total f.content_range ≡ some a.ciphertext_size)
      → w.logged ≡ ok tt
      → read_range crypto w o start end_excl ≡ ok (subarray source start end_excl)
  unfolding read_range both import_dek
  read_range-encrypt_range stored w o start end_excl sp f dek row complete e nonempty inside e_sp
        asset dek_is key_is hashes fetched served total logged =
      let right = ok (subarray source start end_excl) in
      let object = cipher_from crypto key a source a.chunk_count 0 in
      let same = ok-injective _ stored (sym (encrypt_range-object crypto key a source row) ∙ e) in
      let hashed = asked o.verify_hashes (hash_of stored.hashes) in
      let (read, enough, order, end_inside) =
        read_body-served o.verify_hashes hashed start end_excl sp row nonempty inside e_sp (λ i u v.
          ap (λ b. asked b (hash_of stored.hashes) i) v
          ∙ ap (λ (s : Encrypted). hash_of s.hashes i) (sym same)
          ∙ hash_of-hash_rows a.chunk_count 0 i (omega arith) (omega (arith, u))) in
      let size = length-object crypto key a source laws row in
      let part =
        subst (λ (s : Encrypted). IsServed s.bytes sp.c_start sp.c_end f) (sym same) served in
      let body = subarray object sp.c_start (sp.c_end + 1) in
      bind-eq w.asset _ right a asset (
        bind-eq (require (str_eq a.upload_state "complete") integrity_error) _ right tt
          (complete_state a complete)
          (bind-eq w.dek _ right dek dek_is (
            bind-eq (span start end_excl a.plaintext_size a.chunk_size) _ right sp e_sp (
              bind-eq (both w o sp) _ right (f, hashed)
                (both-served w o sp f (hash_of stored.hashes) fetched hashes)
                (bind-eq (window a sp f) _ right body
                  (window-served a sp object f order (omega (arith, end_inside, size)) size part)
                  (bind-eq (check_total a f) _ right tt (check_total-served a f total) (
                    bind-eq (check_need sp body) _ right tt enough (
                      bind-eq (import_dek crypto dek) _ right key
                        (ap (result_of other_error) key_is)
                        (bind-eq
                          (read_body crypto key a o.verify_hashes hashed sp start end_excl body) _
                          right (subarray source start end_excl) read
                          (bind-eq (logged_if o.log w.logged) _ right tt
                            (logged_lem o.log w.logged logged) refl))))))))))
