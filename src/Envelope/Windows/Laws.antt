-- ===== src/Envelope/Windows/Laws.antt =====
-- experiments/client-keyed-objects/client/src/upload.ts: the windows are those of the stored object.
use supabase_lab.Common.{
  ℕ, zero, suc, ◌+◌, ◌-◌, ◌*◌, ◌/◌, ◌≤◌, ◌<◌, ◌≡◌, refl, sym, ap, ◌∙◌, inl, inr, min, some, false,
  ◌++◌, length, subarray, subarray-subarray, replicate, set_at, set_at-window, take, drop, arith,
  ltb, ltb→lt, leb, Bool-cases,
}
use mathlib.Core.List.{append-nil}
use supabase_lab.Envelope.{Bytes, ok, Crypto, plain_len, cipher_offset, result_of, range_error}
use supabase_lab.Envelope.Upload.{AssetRow, Encrypted, encrypt_range}
use supabase_lab.Envelope.Layout.{CryptoLaws, cipher_chunk}
use supabase_lab.Envelope.Object.{IsRow, cipher_from, encrypt_range-object}
use supabase_lab.Envelope.Offsets.{cut-cipher_from, length-object, length-cipher_chunk}
use supabase_lab.Envelope.Windows.{
  CipherSource, cached, chunk, slice_from, slice, Catalogue, or_thrown, finished,
}
use supabase_lab.Envelope.Windows.Chunks.{
  Accepts, IsSound, chunk_of-eq, position, not_lt→ltb, at_end, bytes_of,
}

module _ {Key : Type 0} (crypto : Crypto Key) (laws : CryptoLaws crypto) (key : Key) (a : AssetRow)
    (source : Bytes) (row : IsRow a source) where
  -- the part of a chunk that the loop copies is the object's
  cut-chunk :
      (pos n : ℕ)
      → pos < a.ciphertext_size
      → let i = pos / (a.chunk_size + 16) in
        let off = pos - i * (a.chunk_size + 16) in
        off + n ≤ length (cipher_chunk crypto key a source i)
        → subarray (cipher_chunk crypto key a source i) off (off + n)
          ≡ subarray (cipher_from crypto key a source a.chunk_count 0) pos (pos + n)
  cut-chunk pos n h fits =
      let c = a.chunk_size in
      let i = pos / (c + 16) in
      let p = i * (c + 16) in
      let off = pos - p in
      let len = plain_len i a.plaintext_size c in
      let object = cipher_from crypto key a source a.chunk_count 0 in
      let (before, inside, low, _) = position crypto laws key a source row pos h in
      let from : p + off ≡ pos = omega (arith, low) in
      let to : p + (off + n) ≡ pos + n = omega (arith, low) in
      ap (λ ct. subarray ct off (off + n))
        (sym (cut-cipher_from crypto key a source i a.chunk_count laws row.sized inside before))
      ∙ subarray-subarray object p (p + len + 16) off (off + n)
          (omega (arith, fits, length-cipher_chunk crypto key a source i laws row.sized))
      ∙ ap (λ f. subarray object f (p + (off + n))) from
      ∙ ap (subarray object pos) to

  module _ (upsert : Catalogue) (accepts : Accepts upsert) (start end : ℕ)
      (inside : end ≤ a.ciphertext_size) where
    -- the bytes of the window up to `pos`, in an array of the window's length
    abbrev window_to : ℕ → Bytes
    window_to pos =
        subarray (cipher_from crypto key a source a.chunk_count 0) start pos
        ++ replicate (end - pos) 0

    window_to-end :
        (pos : ℕ)
        → pos ≡ end
        → window_to pos ≡ subarray (cipher_from crypto key a source a.chunk_count 0) start end
    unfolding replicate
    window_to-end pos e =
        let nothing : end - end ≡ 0 = omega arith in
        let object = cipher_from crypto key a source a.chunk_count 0 in
        ap window_to e
        ∙ ap (λ n. subarray object start end ++ replicate n 0) nothing
        ∙ append-nil (subarray object start end)

    slice_from-eq :
        (rounds pos : ℕ) (st : CipherSource)
        → IsSound crypto laws key a source row st
        → start ≤ pos
        → pos ≤ end
        → end ≤ pos + rounds
        → (st' : CipherSource) × (slice_from crypto upsert key a source rounds start end pos
              (window_to pos)
              st
            ≡ some (ok (subarray (cipher_from crypto key a source a.chunk_count 0) start end, st')))
          × IsSound crypto laws key a source row st'
    unfolding slice_from chunk cipher_offset
    slice_from-eq zero pos st s low high enough =
        let over : ltb pos end ≡ false = not_lt→ltb pos end (omega (arith, enough)) in
        (
          st,
          rw over (ap (λ w. some (ok (w, st))) (window_to-end pos (omega (arith, high, enough)))),
          s,
        )
    slice_from-eq (suc rounds) pos st s low high enough = elim (Bool-cases (ltb pos end)) [
      | inr e ↦
          (st, rw e (ap (λ w. some (ok (w, st))) (window_to-end pos (at_end pos end high e))), s)
      | inl e ↦
          let running : pos < end = ltb→lt pos end e in
          let at : pos < a.ciphertext_size = omega (arith, running, inside) in
          let i = pos / (a.chunk_size + 16) in
          let off = pos - i * (a.chunk_size + 16) in
          let ct = cipher_chunk crypto key a source i in
          let n = min (length ct - off) (end - pos) in
          let (before, within, from, to) = position crypto laws key a source row pos at in
          let len = length-cipher_chunk crypto key a source i laws row.sized in
          let progress : 1 ≤ n = omega (arith, from, to, len, running) in
          let (st', chunk_is, s') =
            chunk_of-eq crypto laws key a source row upsert accepts (cached i st.cache) i st s
              within refl in
          let (final, rest, sound) =
            slice_from-eq rounds (pos + n) st' s' (omega (arith, low)) (omega (arith, high))
              (omega (arith, enough, progress)) in
          let written =
            set_at-window (cipher_from crypto key a source a.chunk_count 0) 0 start end
              (omega (arith, inside, length-object crypto key a source laws row)) pos (pos + n) low
              (omega arith) (omega (arith, high)) in
          let out = window_to pos in
          let next = λ (st : CipherSource) (out' : Bytes).
            slice_from crypto upsert key a source rounds start end (pos + n) out' st in
          (
            final,
            rw e (
                ap
                  (λ r. or_thrown r λ (c : Bytes × CipherSource).
                    let m = min (length c.0 - off) (end - pos) in
                    or_thrown
                      (result_of range_error
                        (set_at out (subarray c.0 off (off + m)) (pos - start)))
                      λ out'.
                        slice_from crypto upsert key a source rounds start end (pos + m) out' c.1)
                  chunk_is
                ∙ ap
                    (λ part.
                      or_thrown (result_of range_error (set_at out part (pos - start))) (next st'))
                    (cut-chunk pos n at (omega (arith, from, to, len)))
                ∙ ap (λ o. or_thrown (result_of range_error o) (next st')) written
                ∙ rest),
            sound,
          )
    ]

  -- If the catalogue takes every hash that it is sent, then from any state whose cache holds
  -- ciphertext, a window that begins within the object, and within
  -- its own end, is read to its end: it is the bytes of the ciphertext of all the chunks between its
  -- start and the lesser of its end and the object's, it is the last one just when it reaches the
  -- object's end, and the state it leaves again holds ciphertext and has sent only right hashes.
  pub slice-encrypt_range :
      (upsert : Catalogue) (stored : Encrypted) (start stop : ℕ) (st : CipherSource)
      → Accepts upsert
      → encrypt_range crypto key a source 0 (a.chunk_count - 1) ≡ ok stored
      → IsSound crypto laws key a source row st
      → start ≤ min stop a.ciphertext_size
      → (st' : CipherSource) × (slice crypto upsert key a source start stop st
          ≡ some (
              ok (
                record {
                  value = subarray stored.bytes start (min stop a.ciphertext_size);
                  done = leb a.ciphertext_size (min stop a.ciphertext_size);
                },
                st',
              )))
        × IsSound crypto laws key a source row st'
  unfolding slice subarray take
  slice-encrypt_range upsert stored start stop st accepts e s h =
      let end = min stop a.ciphertext_size in
      let object = cipher_from crypto key a source a.chunk_count 0 in
      let done = leb a.ciphertext_size end in
      let same : object ≡ stored.bytes =
        bytes_of (sym (encrypt_range-object crypto key a source row) ∙ e) in
      let (st', loop, sound) =
        slice_from-eq upsert accepts start end (omega arith) (end - start) start st s (omega arith)
          h (omega (arith, h)) in
      let nothing : start - start ≡ 0 = omega arith in
      (
        st',
        ap
              (λ n. finished done (
                slice_from crypto upsert key a source (end - start) start end start
                  (take n (drop start object) ++ replicate (end - start) 0) st))
              (sym nothing)
            ∙ ap (finished done) loop
            ∙ ap
                (λ (b : Bytes).
                  some (ok (record { value = subarray b start end; done = done }, st')))
                same,
        sound,
      )
