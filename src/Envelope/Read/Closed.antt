-- ===== src/Envelope/Read/Closed.antt =====
-- experiments/client-keyed-objects/client/src/read.ts: a read fails closed.
use supabase_lab.Common.{
  ℕ, suc, ◌+◌, ◌-◌, ◌*◌, ◌/◌, ◌≤◌, ◌<◌, ◌≡◌, sym, ap, ◌∙◌, inl, inr, Option, some, Bool, true, List,
  ◌||◌, length, subarray, replicate, arith, ltb, leb, Bool-cases, str_eq, subst,
}
use native.Mathlib.Nat.{div-mul-le_self}
use supabase_lab.Envelope.{
  Bytes, Result, ok, Crypto, ChunkSpan, span, unhex, sha256_hex, decrypt_chunk, import_dek,
  cipher_offset, plain_len, integrity_error,
}
use supabase_lab.Envelope.Hex.{unhex-hex}
use supabase_lab.Envelope.Upload.{AssetRow}
use supabase_lab.Envelope.Layout.{
  CryptoLaws, IsClosed, bind-IsClosed, cipher_chunk, decrypt_chunk-IsClosed,
}
use supabase_lab.Envelope.Read.{
  World, ReadOpts, read_range, check_need, read_body, open_chunk, check_hash, Hashes, read_from,
  both, window, check_total, require, logged_if,
}
use supabase_lab.Envelope.Read.Span.{filled-start, filled-end, chunks-meet, span_lem, span-order}
use supabase_lab.Envelope.Read.Loop.{plain_chunk, filled, read_from-closed}
use supabase_lab.Envelope.Read.Guards.{
  checked, joined-hashes, ok-injective, same_pair, import_dek-key, logged-IsClosed,
}

module _ {Key : Type 0} (crypto : Crypto Key) (laws : CryptoLaws crypto) (key : Key) (a : AssetRow)
    (source : Bytes) where
  -- no other bytes have the digest of a chunk of the ciphertext
  abbrev pub NoCollision : Type 0
  NoCollision =
      (i : ℕ) (ct : Bytes)
      → crypto.sha256 ct ≡ crypto.sha256 (cipher_chunk crypto key a source i)
      → ct ≡ cipher_chunk crypto key a source i

  -- what the catalogue records are the digests of the ciphertext
  abbrev pub IsRecorded : (ℕ → Option (List ℕ)) → Type 0
  IsRecorded hashes =
      (i : ℕ) (want : List ℕ)
      → hashes i ≡ some want
      → want ≡ sha256_hex crypto (cipher_chunk crypto key a source i)

  sha256_hex-injective :
      (u v : Bytes) → sha256_hex crypto u ≡ sha256_hex crypto v → crypto.sha256 u ≡ crypto.sha256 v
  unfolding sha256_hex
  sha256_hex-injective u v e =
      sym (unhex-hex (crypto.sha256 u) (laws.sha256_bytes u))
      ∙ ap unhex e
      ∙ unhex-hex (crypto.sha256 v) (laws.sha256_bytes v)

  check_hash-IsCipher :
      (hashes : ℕ → Option (List ℕ)) (i : ℕ) (ct : Bytes) (t : Unit {0})
      → NoCollision
      → IsRecorded hashes
      → check_hash crypto true hashes i ct ≡ ok t
      → ct ≡ cipher_chunk crypto key a source i
  unfolding check_hash
  check_hash-IsCipher hashes i ct t unique recorded e =
      let (want, found, same) = checked (hashes i) (sha256_hex crypto ct) t e in
      unique i ct (
        sha256_hex-injective ct (cipher_chunk crypto key a source i) (same ∙ recorded i want found))

  open_chunk-IsClosed :
      (hashes : ℕ → Option (List ℕ)) (c_start : ℕ) (body : Bytes) (i : ℕ)
      → NoCollision
      → IsRecorded hashes
      → IsClosed (open_chunk crypto key a true hashes c_start body i) (plain_chunk a source i)
  unfolding open_chunk
  open_chunk-IsClosed hashes c_start body i unique recorded =
      let off = cipher_offset i a.chunk_size - c_start in
      let ct = subarray body off (off + plain_len i a.plaintext_size a.chunk_size + 16) in
      bind-IsClosed (check_hash crypto true hashes i ct)
        (λ _. decrypt_chunk crypto key (unhex a.nonce_prefix) a.id i a.chunk_count ct)
        (plain_chunk a source i)
        (λ t e.
          subst
            (λ u.
              IsClosed (decrypt_chunk crypto key (unhex a.nonce_prefix) a.id i a.chunk_count u)
                (plain_chunk a source i))
            (sym (check_hash-IsCipher hashes i ct t unique recorded e))
            (decrypt_chunk-IsClosed crypto key a source laws i))

  module _ (sized : length source ≡ a.plaintext_size) (pos : 1 ≤ a.chunk_size) (start end_excl : ℕ)
      (nonempty : start < end_excl) (inside : end_excl ≤ length source) where
    read_from-IsClosed :
        (chunk : ℕ → Result Bytes)
        → ((i : ℕ) → IsClosed (chunk i) (plain_chunk a source i))
        → let first = start / a.chunk_size in
          let last = (end_excl - 1) / a.chunk_size in
          IsClosed
            (read_from chunk a start end_excl
              (suc last - first)
              first
              (replicate (end_excl - start) 0))
            (subarray source start end_excl)
    read_from-IsClosed chunk h =
        let c = a.chunk_size in
        let first = start / c in
        let last = (end_excl - 1) / c in
        let (ordered, reaches) = span-order c start end_excl pos nonempty in
        let begun =
          filled-start source start end_excl (first * c) nonempty (div-mul-le_self start c) in
        let after : first + (suc last - first) ≡ suc last = omega (arith, ordered) in
        let done =
          ap (λ n. filled source start end_excl (n * c)) after
          ∙ filled-end source start end_excl (suc last * c) nonempty reaches in
        let closed =
          read_from-closed a source sized start end_excl nonempty inside chunk (suc last - first)
            first
            (λ j l u.
              (chunks-meet c start end_excl j pos nonempty l (subst (λ n. j < n) after u), h j)) in
        subst
          (λ plain.
            IsClosed (read_from chunk a start end_excl (suc last - first) first plain)
              (subarray source start end_excl))
          begun
          (subst
            (λ right.
              IsClosed
                (read_from chunk a start end_excl (suc last - first) first
                  (filled source start end_excl (first * c)))
                right)
            done closed)

  read_body-IsClosed :
      (hashes : Hashes) (sp : ChunkSpan) (start end_excl : ℕ) (body : Bytes)
      → length source ≡ a.plaintext_size
      → 1 ≤ a.chunk_size
      → NoCollision
      → IsRecorded hashes
      → span start end_excl a.plaintext_size a.chunk_size ≡ ok sp
      → IsClosed
          (read_body crypto key a true hashes sp start end_excl body)
          (subarray source start end_excl)
  unfolding read_body span
  read_body-IsClosed hashes sp start end_excl body sized pos unique recorded e =
      elim (Bool-cases (ltb a.plaintext_size end_excl || leb end_excl start)) [
        | inl outside ↦ absurd (ground (arith, rw outside at e))
        | inr within ↦
            let nonempty : start < end_excl = ground (arith, within) in
            let fits : end_excl ≤ a.plaintext_size = ground (arith, within) in
            let same =
              ok-injective _ sp
                (sym (span_lem start end_excl a.plaintext_size a.chunk_size nonempty fits) ∙ e) in
            subst
              (λ (s : ChunkSpan).
                IsClosed (read_body crypto key a true hashes s start end_excl body)
                  (subarray source start end_excl))
              same
              (read_from-IsClosed sized pos start end_excl nonempty (omega (arith, fits, sized)) _
                (λ i. open_chunk-IsClosed hashes _ body i unique recorded))
      ]

  -- Whatever the storage, the catalogue and the key service answer, a read that checks the hashes
  -- gives the bytes [start, end_excl) of the source or fails. Assumed are: the row is the source's,
  -- with its size and chunks of at least one byte; a key that the key service returns is the one that
  -- encrypted; the hashes that the catalogue returns are those of the ciphertext, and no other bytes
  -- have them; and the laws of the cipher and of the hash.
  pub read_range-IsClosed :
      (w : World) (log : Bool) (start end_excl : ℕ)
      → length source ≡ a.plaintext_size
      → 1 ≤ a.chunk_size
      → w.asset ≡ ok a
      → ((dek : Bytes) → w.dek ≡ ok dek → crypto.import_key dek ≡ some key)
      → ((first last : ℕ) (hashes : Hashes)
          → w.chunk_hashes first last ≡ ok hashes
          → IsRecorded hashes)
      → NoCollision
      → IsClosed
          (read_range crypto w (record { verify_hashes = true; log = log }) start end_excl)
          (subarray source start end_excl)
  unfolding read_range both
  read_range-IsClosed w log start end_excl sized pos asset dek recorded unique =
      let o : ReadOpts = record { verify_hashes = true; log = log } in
      let right = subarray source start end_excl in
      bind-IsClosed w.asset _ right (λ row row_is.
        let same : row ≡ a = ok-injective row a (sym row_is ∙ asset) in
        bind-IsClosed (require (str_eq row.upload_state "complete") integrity_error) _ right (λ _ _.
          bind-IsClosed w.dek _ right (λ d d_is.
            bind-IsClosed (span start end_excl row.plaintext_size row.chunk_size) _ right
              (λ sp sp_is. bind-IsClosed (both w o sp) _ right (λ answers answers_are.
                bind-IsClosed (window row sp answers.0) _ right (λ body _.
                  bind-IsClosed (check_total row answers.0) _ right (λ _ _.
                    bind-IsClosed (check_need sp body) _ right (λ _ _.
                      bind-IsClosed (import_dek crypto d) _ right (λ k k_is.
                        let hashes_are = joined-hashes _ _ _ answers answers_are in
                        let span_is =
                          ap (λ (r : AssetRow). span start end_excl r.plaintext_size r.chunk_size)
                            (sym same)
                          ∙ sp_is in
                        let body_closed =
                          read_body-IsClosed answers.1 sp start end_excl body sized pos unique
                            (recorded sp.first sp.last answers.1 hashes_are) span_is in
                        logged-IsClosed
                          (read_body crypto k row true answers.1 sp start end_excl body)
                          (logged_if log w.logged)
                          (subst
                            (λ (t : Key × AssetRow).
                              IsClosed
                                (read_body crypto t.0 t.1 true answers.1 sp start end_excl body)
                                right)
                            (same_pair (sym (import_dek-key crypto d key k (dek d d_is) k_is))
                              (sym same))
                            body_closed))))))))))
