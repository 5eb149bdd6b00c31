-- ===== src/Envelope/Read/Whole.antt =====
-- experiments/client-keyed-objects/client/src/read.ts: `readAll`, a read of the whole asset in
-- windows, whose digest is compared with the catalogue's. The
-- platform's stream of a digest is `sha256` of what it is fed. The count of a needle is not modelled.
use supabase_lab.Common.{
  ℕ, zero, suc, ◌+◌, ◌-◌, ◌*◌, ◌≤◌, ◌<◌, ◌≡◌, refl, sym, ap, ◌∙◌, ◌⊎◌, inl, inr, min, Option, none,
  some, Bool, true, false, List, [], ◌++◌, length, subarray, subarray-append, take, take-all, drop,
  arith, ltb, ltb→lt, if◌then◌else◌, Bool-cases, codes_equal, subst,
}
use supabase_lab.Envelope.{
  Bytes, Result, ok, failed, ◌>>=◌, Crypto, CkErrorCode, sha256_hex, integrity_error,
}
use supabase_lab.Envelope.Upload.{AssetRow}
use supabase_lab.Envelope.Layout.{CryptoLaws, IsClosed}
use supabase_lab.Envelope.Windows.{or_thrown}
use supabase_lab.Envelope.Windows.Chunks.{not_lt→ltb, ltb→not_lt}
use supabase_lab.Envelope.Read.Span.{mul-le}
use supabase_lab.Envelope.Read.{World, ReadOpts, Hashes, read_range, require}
use supabase_lab.Envelope.Read.Guards.{codes_equal-eq}
use supabase_lab.Envelope.Read.Closed.{NoCollision, IsRecorded, read_range-IsClosed}

-- the loop from `p`: what the digest is fed, and `none` when the loop still runs after as many rounds
-- as are given
unfoldable whole_from : (ℕ → ℕ → Result Bytes) → ℕ → ℕ → ℕ → ℕ → Bytes → Option (Result Bytes)
whole_from read size step zero p fed = if ltb p size then none else some (ok fed)
whole_from read size step (suc rounds) p fed =
    if ltb p size
    then or_thrown (read p (min size (p + step)))
        (λ plain. whole_from read size step rounds (p + step) (fed ++ plain))
    else some (ok fed)

-- what follows a loop that has ended
abbrev and_then : {A B : Type 0} → Option (Result A) → (A → Result B) → Option (Result B)
and_then none f = none
and_then (some r) f = some (r >>= f)

-- `sha !== a.plaintext_sha256`
same_sum : Option (List ℕ) → List ℕ → Bool
same_sum none sha = false
same_sum (some expected) sha = codes_equal sha expected

whole_window :
    (source : Bytes) (p : ℕ)
    → length source ≤ p
    → subarray source 0 (min p (length source)) ≡ source
unfolding subarray drop
whole_window source p h = take-all (min p (length source) - 0) source (omega (arith, h))

-- after the loop: the log, the comparison and the digest
summed-cases :
    (logged : Result (Unit {0})) (recorded : Option (List ℕ)) (sha : List ℕ)
    → let r = do _ ← logged; _ ← require (same_sum recorded sha) integrity_error; ok sha
      in ((e : CkErrorCode) × (r ≡ failed e)) ⊎ ((r ≡ ok sha) × (recorded ≡ some sha))
unfolding same_sum
summed-cases (failed e) recorded sha = inl (e, refl)
summed-cases (ok t) none sha = inl (integrity_error, refl)
summed-cases (ok t) (some expected) sha = elim (Bool-cases (codes_equal sha expected)) [
  | inl e ↦ inr (rw e refl, ap some (sym (codes_equal-eq sha expected e)))
  | inr e ↦ inl (integrity_error, rw e refl)
]

module _ {Key : Type 0} (crypto : Crypto Key) where
  -- a window has `window_chunks` chunks, and every round reads a byte at least, so that the size is
  -- rounds enough
  unfoldable pub read_all : World → Bool → ℕ → Option (Result (List ℕ))
  unfolding whole_from same_sum
  read_all w verify window_chunks = or_thrown w.asset (λ (a : AssetRow).
      and_then
        (whole_from (read_range crypto w (record { verify_hashes = verify; log = false }))
          a.plaintext_size (window_chunks * a.chunk_size) a.plaintext_size 0 [])
        (λ fed. do
          _ ← w.logged
          _ ← require (same_sum a.plaintext_sha256 (sha256_hex crypto fed)) integrity_error
          ok (sha256_hex crypto fed)))

  -- windows of which each fails or is right feed the digest the whole source, or the loop fails
  whole_from-IsClosed :
      (read : ℕ → ℕ → Result Bytes) (source : Bytes) (step rounds p : ℕ)
      → ((s e : ℕ) → IsClosed (read s e) (subarray source s e))
      → 1 ≤ step
      → length source ≤ p + rounds
      → (r : Result Bytes) × (whole_from read
            (length source)
            step
            rounds
            p
            (subarray source 0 (min p (length source)))
          ≡ some r)
        × IsClosed r source
  unfolding whole_from
  whole_from-IsClosed read source step zero p h pos enough =
      let n = length source in
      let over : ltb p n ≡ false = not_lt→ltb p n (omega (arith, enough)) in
      (
        ok source,
        rw over (ap (λ fed. some (ok fed)) (whole_window source p (omega (arith, enough)))),
        inr refl,
      )
  whole_from-IsClosed read source step (suc rounds) p h pos enough =
      elim (Bool-cases (ltb p (length source))) [
        | inr e ↦ (
          ok source,
          rw e (ap (λ fed. some (ok fed)) (whole_window source p (ltb→not_lt p (length source) e))),
          inr refl,
        )
        | inl e ↦
            let n = length source in
            let running : p < n = ltb→lt p n e in
            elim (h p (min n (p + step))) [
              | inl bad ↦ (failed bad.0, rw (e, bad.1) refl, inl (bad.0, refl))
              | inr good ↦
                  let (r, rest, closed) =
                    whole_from-IsClosed read source step rounds (p + step) h pos
                      (omega (arith, enough, pos)) in
                  let here : min p n ≡ p = omega (arith, running) in
                  let fed : subarray source 0 (min p n) ++ subarray source p (min n (p + step))
                      ≡ subarray source 0 (min (p + step) n) =
                    ap (λ q. subarray source 0 q ++ subarray source p (min n (p + step))) here
                    ∙ subarray-append source 0 p (min n (p + step)) (omega arith)
                        (omega (arith, running))
                    ∙ ap (subarray source 0) (omega arith) in
                  (
                    r,
                    rw (e, good) (ap (whole_from read n step rounds (p + step)) fed ∙ rest),
                    closed,
                  )
            ]
      ]

  module _ (laws : CryptoLaws crypto) (key : Key) (a : AssetRow) (source : Bytes) where
    -- A read of the whole asset always ends, and whatever the storage, the catalogue and the key
    -- service answer it fails or returns the digest of the source, which then is the catalogue's.
    -- Assumed is what a read of a range assumes, and that a window has a chunk at least.
    pub read_all-IsClosed :
        (w : World) (window_chunks : ℕ)
        → length source ≡ a.plaintext_size
        → 1 ≤ a.chunk_size
        → 1 ≤ window_chunks
        → w.asset ≡ ok a
        → ((dek : Bytes) → w.dek ≡ ok dek → crypto.import_key dek ≡ some key)
        → ((first last : ℕ) (hashes : Hashes)
            → w.chunk_hashes first last ≡ ok hashes
            → IsRecorded crypto laws key a source hashes)
        → NoCollision crypto laws key a source
        → (r : Result (List ℕ)) × (read_all w true window_chunks ≡ some r)
          × (((e : CkErrorCode) × (r ≡ failed e))
              ⊎ ((r ≡ ok (sha256_hex crypto source))
                  × (a.plaintext_sha256 ≡ some (sha256_hex crypto source))))
    unfolding read_all subarray take drop
    read_all-IsClosed w window_chunks sized pos many asset dek recorded unique =
        let o : ReadOpts = record { verify_hashes = true; log = false } in
        let read = read_range crypto w o in
        let n = a.plaintext_size in
        let step = window_chunks * a.chunk_size in
        let each = λ (s e : ℕ).
          read_range-IsClosed crypto laws key a source w false s e sized pos asset dek recorded
            unique in
        let wide : 1 ≤ step = omega (arith, mul-le 1 window_chunks a.chunk_size many, pos) in
        let (loop, ran, closed) =
          whole_from-IsClosed read source step (length source) 0 each wide (omega arith) in
        let nothing : min 0 (length source) - 0 ≡ 0 = omega arith in
        let whole : whole_from read n step n 0 [] ≡ some loop =
          ap (λ m. whole_from read m step m 0 []) (sym sized)
          ∙ ap
              (λ m. whole_from read (length source) step (length source) 0 (take m (drop 0 source)))
              (sym nothing)
          ∙ ran in
        let after = λ (fed : Bytes). w.logged >>= λ _.
        require (same_sum a.plaintext_sha256 (sha256_hex crypto fed)) integrity_error >>= λ _.
        ok (sha256_hex crypto fed) in
        (
          loop >>= after,
          ap
                (λ (found : Result AssetRow). or_thrown found (λ (row : AssetRow).
                  and_then
                    (whole_from read row.plaintext_size (window_chunks * row.chunk_size)
                      row.plaintext_size 0 [])
                    (λ fed. w.logged >>= λ _.
                      require (same_sum row.plaintext_sha256 (sha256_hex crypto fed))
                        integrity_error
                      >>= λ _. ok (sha256_hex crypto fed))))
                asset
              ∙ ap (λ t. and_then t after) whole,
          elim closed [
            | inl bad ↦ inl (bad.0, ap (λ l. l >>= after) bad.1)
            | inr good ↦
                subst
                  (λ (l : Result Bytes).
                    ((e : CkErrorCode) × ((l >>= after) ≡ failed e))
                    ⊎ (((l >>= after) ≡ ok (sha256_hex crypto source))
                        × (a.plaintext_sha256 ≡ some (sha256_hex crypto source))))
                  (sym good) (summed-cases w.logged a.plaintext_sha256 (sha256_hex crypto source))
          ],
        )
