-- ===== src/Envelope/Read/Loop.antt =====
-- experiments/client-keyed-objects/client/src/read.ts: the loop over the chunks fills the plaintext
-- from the left.
use supabase_lab.Common.{
  ℕ, zero, suc, ◌+◌, ◌-◌, ◌*◌, ◌≤◌, ◌<◌, ◌≡◌, refl, ap, ◌∙◌, ◌⊎◌, inl, inr, min, max, some, ◌++◌,
  length, subarray, replicate, set_at, set_at-window, subarray-subarray, length-subarray, arith,
}
use supabase_lab.Envelope.{
  Bytes, Result, ok, failed, CkErrorCode, plain_len, range_error, result_of,
}
use supabase_lab.Envelope.Upload.{AssetRow}
use supabase_lab.Envelope.Read.{place, read_from, put}

-- the plaintext of chunk `i`
unfoldable pub plain_chunk : AssetRow → Bytes → ℕ → Bytes
unfolding subarray plain_len
plain_chunk a source i =
    subarray source (i * a.chunk_size)
      (i * a.chunk_size + plain_len i a.plaintext_size a.chunk_size)

-- how far the chunks before offset `p` reach into [start, end_excl)
abbrev pub reach : ℕ → ℕ → ℕ → ℕ
reach start end_excl p = min end_excl (max start p)

-- the plaintext array when the chunks before offset `p` are in it
unfoldable pub filled : Bytes → ℕ → ℕ → ℕ → Bytes
unfolding subarray replicate
filled source start end_excl p =
    subarray source start (reach start end_excl p)
    ++ replicate (end_excl - reach start end_excl p) 0

put_of_set_at :
    (xs ys : Bytes) (at : ℕ) {zs : Bytes} → set_at xs ys at ≡ some zs → put xs ys at ≡ ok zs
unfolding put
put_of_set_at xs ys at e = ap (result_of range_error) e

module _ (a : AssetRow) (source : Bytes) (sized : length source ≡ a.plaintext_size)
    (start end_excl : ℕ) (nonempty : start < end_excl) (inside : end_excl ≤ length source) where
  -- chunk `i` meets [start, end_excl)
  abbrev Meets : ℕ → Type 0
  Meets i = (i * a.chunk_size < end_excl) × (start < i * a.chunk_size + a.chunk_size)

  length-plain_chunk :
      (i : ℕ)
      → length (plain_chunk a source i) ≡ min a.chunk_size (length source - i * a.chunk_size)
  unfolding plain_chunk plain_len
  length-plain_chunk i = omega (
    arith,
    length-subarray source (i * a.chunk_size)
        (i * a.chunk_size + plain_len i a.plaintext_size a.chunk_size),
    sized,
  )

  -- what the loop cuts out of chunk `i` is the part of the source that it adds
  cut-plain_chunk :
      (i from to : ℕ)
      → i * a.chunk_size ≤ from
      → to ≤ i * a.chunk_size + length (plain_chunk a source i)
      → i * a.chunk_size ≤ to
      → subarray (plain_chunk a source i) (from - i * a.chunk_size) (to - i * a.chunk_size)
        ≡ subarray source from to
  unfolding plain_chunk plain_len
  cut-plain_chunk i from to h k l =
      let p = i * a.chunk_size in
      let low : p + (from - p) ≡ from = omega (arith, h) in
      let high : p + (to - p) ≡ to = omega (arith, l) in
      let fits : p + (to - p) ≤ p + plain_len i a.plaintext_size a.chunk_size =
        omega (arith, k, l, length-plain_chunk i, sized) in
      subarray-subarray source p (p + plain_len i a.plaintext_size a.chunk_size) (from - p) (to - p)
        fits
      ∙ ap (λ f. subarray source f (p + (to - p))) low
      ∙ ap (subarray source from) high

  place-filled :
      (i : ℕ)
      → Meets i
      → place a start end_excl i
          (plain_chunk a source i)
          (filled source start end_excl (i * a.chunk_size))
        ≡ ok (filled source start end_excl (i * a.chunk_size + a.chunk_size))
  unfolding place filled
  place-filled i m =
      let c = a.chunk_size in
      let p = i * c in
      let here = reach start end_excl p in
      let next = reach start end_excl (p + c) in
      let len = length-plain_chunk i in
      let from : max start p ≡ here = omega (arith, m.0, nonempty) in
      let to : min end_excl (p + length (plain_chunk a source i)) ≡ next =
        omega (arith, m.1, inside, len, nonempty) in
      let piece = λ (f t : ℕ). subarray (plain_chunk a source i) (f - p) (t - p) in
      let array = filled source start end_excl p in
      let whole = min end_excl (p + length (plain_chunk a source i)) in
      ap (λ f. put array (piece f whole) (f - start)) from
      ∙ ap (λ t. put array (piece here t) (here - start)) to
      ∙ ap (λ ys. put array ys (here - start))
          (cut-plain_chunk i here next (omega (arith, m.0)) (omega (arith, len, inside, m.1))
            (omega (arith, m.0, m.1)))
      ∙ put_of_set_at array (subarray source here next) (here - start) (
          set_at-window source 0 start end_excl inside here next (omega (arith, nonempty))
            (omega arith) (omega arith))

  step :
      (chunk : ℕ → Result Bytes) (k i : ℕ) (plain : Bytes) {pt plain' : Bytes}
      → chunk i ≡ ok pt
      → place a start end_excl i pt plain ≡ ok plain'
      → read_from chunk a start end_excl (suc k) i plain
        ≡ read_from chunk a start end_excl k (suc i) plain'
  unfolding read_from
  step chunk k i plain e f = rw (e, f) refl

  -- chunks that all decrypt to the source's fill the array
  pub read_from-filled :
      (chunk : ℕ → Result Bytes) (k i : ℕ)
      → ((j : ℕ) → i ≤ j → j < i + k → Meets j × (chunk j ≡ ok (plain_chunk a source j)))
      → read_from chunk a start end_excl k i (filled source start end_excl (i * a.chunk_size))
        ≡ ok (filled source start end_excl ((i + k) * a.chunk_size))
  unfolding read_from
  read_from-filled chunk zero i h =
      let same : i ≡ i + 0 = omega arith in
      ap (λ n. ok (filled source start end_excl (n * a.chunk_size))) same
  read_from-filled chunk (suc k) i h =
      let now = h i (omega arith) (omega arith) in
      let rest =
        read_from-filled chunk k (suc i) (λ j l u. h j (omega (arith, l)) (omega (arith, u))) in
      let next : i * a.chunk_size + a.chunk_size ≡ suc i * a.chunk_size = omega arith in
      let same : suc i + k ≡ i + suc k = omega arith in
      step chunk k i (filled source start end_excl (i * a.chunk_size)) now.1 (place-filled i now.0)
      ∙ ap (λ n. read_from chunk a start end_excl k (suc i) (filled source start end_excl n)) next
      ∙ rest
      ∙ ap (λ n. ok (filled source start end_excl (n * a.chunk_size))) same

  -- chunks of which each fails or decrypts to the source's fill the array, or the loop fails
  pub read_from-closed :
      (chunk : ℕ → Result Bytes) (k i : ℕ)
      → ((j : ℕ)
          → i ≤ j
          → j < i + k
          → Meets j
            × (((e : CkErrorCode) × (chunk j ≡ failed e))
                ⊎ (chunk j ≡ ok (plain_chunk a source j))))
      → ((e : CkErrorCode) × (read_from chunk a start end_excl k i
              (filled source start end_excl (i * a.chunk_size))
            ≡ failed e))
        ⊎ (read_from chunk a start end_excl k i (filled source start end_excl (i * a.chunk_size))
            ≡ ok (filled source start end_excl ((i + k) * a.chunk_size)))
  unfolding read_from
  read_from-closed chunk zero i h = inr (
      let same : i ≡ i + 0 = omega arith in
      ap (λ n. ok (filled source start end_excl (n * a.chunk_size))) same)
  read_from-closed chunk (suc k) i h =
      let now = h i (omega arith) (omega arith) in
      let rest =
        read_from-closed chunk k (suc i) (λ j l u. h j (omega (arith, l)) (omega (arith, u))) in
      elim now.1 [
        | inl bad ↦ inl (bad.0, rw bad.1 refl)
        | inr good ↦
            let next : i * a.chunk_size + a.chunk_size ≡ suc i * a.chunk_size = omega arith in
            let same : suc i + k ≡ i + suc k = omega arith in
            let first =
              step chunk k i (filled source start end_excl (i * a.chunk_size)) good
                (place-filled i now.0)
              ∙ ap
                  (λ n. read_from chunk a start end_excl k (suc i) (filled source start end_excl n))
                  next in
            elim rest [
              | inl bad ↦ inl (bad.0, first ∙ bad.1)
              | inr done ↦ inr (
                  first
                  ∙ done
                  ∙ ap (λ n. ok (filled source start end_excl (n * a.chunk_size))) same)
            ]
      ]
