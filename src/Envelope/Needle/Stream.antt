-- ===== src/Envelope/Needle/Stream.antt =====
-- experiments/client-keyed-objects/client/src/read.ts: the hits of a stream that comes in windows.
use supabase_lab.Common.{
  ℕ, suc, ◌+◌, ◌-◌, ◌≤◌, ◌<◌, ◌≡◌, refl, sym, ap, ◌∙◌, inl, inr, false, ◌&&◌, List, [], ◌∷◌, ◌++◌,
  length, length-append, drop, drop-congr, take, leb, leb→le, ◌==◌, if◌then◌else◌, codes_equal,
  Bool-cases, arith,
}
use mathlib.Core.List.{append-nil, append_assoc}
use supabase_lab.Envelope.{Bytes}
use supabase_lab.Envelope.Needle.{
  NeedleCounter, starts_with, scan, new_hits, tail_of, new_counter, feed, feed_all,
}

-- the number of places where the bytes that follow are the needle
unfoldable pub occurrences : Bytes → Bytes → ℕ
occurrences n [] = 0
occurrences n (b ∷ buf) =
    let later = occurrences n buf in
    if codes_equal (take (length n) (b ∷ buf)) n then suc later else later

starts_with-take : (n buf : Bytes) → starts_with n buf ≡ codes_equal (take (length n) buf) n
unfolding starts_with take codes_equal
starts_with-take [] [] = refl
starts_with-take [] (b ∷ buf) = refl
starts_with-take (x ∷ n) [] = refl
starts_with-take (x ∷ n) (b ∷ buf) = ap (λ r. b == x && r) (starts_with-take n buf)

scan-occurrences : (first : ℕ) (n buf : Bytes) → scan first n buf ≡ occurrences (first ∷ n) buf
unfolding scan occurrences take codes_equal
scan-occurrences first n [] = refl
scan-occurrences first n (b ∷ buf) =
    ground (arith, scan-occurrences first n buf, starts_with-take n buf)

starts_with-short : (n buf : Bytes) → length buf < length n → starts_with n buf ≡ false
unfolding starts_with
starts_with-short [] buf h = absurd (omega (arith, h))
starts_with-short (x ∷ n) [] h = refl
starts_with-short (x ∷ n) (b ∷ buf) h = ground (arith, starts_with-short n buf (omega (arith, h)))

starts_with-append :
    (n buf u : Bytes) → length n ≤ length buf → starts_with n (buf ++ u) ≡ starts_with n buf
unfolding starts_with
starts_with-append [] buf u h = refl
starts_with-append (x ∷ n) [] u h = absurd (omega (arith, h))
starts_with-append (x ∷ n) (b ∷ buf) u h =
    ap (λ r. b == x && r) (starts_with-append n buf u (omega (arith, h)))

not_short : (a b : ℕ) → leb (suc a) b ≡ false → b ≤ a
not_short a b e = ground (arith, e)

abbrev pub concat : List Bytes → Bytes
concat [] = []
concat (u ∷ us) = u ++ concat us

module _ (first : ℕ) (n : Bytes) where
  scan-short : (buf : Bytes) → length buf ≤ length n → scan first n buf ≡ 0
  unfolding scan
  scan-short [] h = refl
  scan-short (b ∷ buf) h =
      ground (arith, starts_with-short n buf (omega (arith, h)), scan-short buf (omega (arith, h)))

  -- a place with enough bytes after it does not look at what is appended
  scan-cons :
      (b : ℕ) (buf u : Bytes) (k : ℕ)
      → length n ≤ length buf
      → scan first n (buf ++ u) ≡ scan first n buf + k
      → scan first n (b ∷ buf ++ u) ≡ scan first n (b ∷ buf) + k
  unfolding scan
  scan-cons b buf u k h rest = ground (arith, rest, starts_with-append n buf u h)

  tail_of-short : (buf : Bytes) → length buf ≤ length n → tail_of (first ∷ n) buf ≡ buf
  unfolding tail_of drop
  tail_of-short buf h = drop-congr (length buf + 1 - suc (length n)) 0 buf (omega (arith, h))

  tail_of-cons :
      (b : ℕ) (buf : Bytes)
      → length n ≤ length buf
      → tail_of (first ∷ n) (b ∷ buf) ≡ tail_of (first ∷ n) buf
  unfolding tail_of drop
  tail_of-cons b buf h =
      drop-congr (suc (length buf) + 1 - suc (length n)) (suc (length buf + 1 - suc (length n)))
        (b ∷ buf) (omega (arith, h))

  -- the hits in a buffer that grows: those in it, and those from its tail on
  scan-append :
      (buf u : Bytes)
      → scan first n (buf ++ u) ≡ scan first n buf + scan first n (tail_of (first ∷ n) buf ++ u)
  scan-append [] u =
      let none_in : scan first n [] ≡ 0 = scan-short [] (omega arith) in
      let same : tail_of (first ∷ n) [] ++ u ≡ u =
        ap (λ t. t ++ u) (tail_of-short [] (omega arith)) in
      omega (arith, none_in, ap (scan first n) same)
  scan-append (b ∷ buf) u = elim (Bool-cases (leb (suc (length buf)) (length n))) [
    | inl e ↦
        let short = leb→le (suc (length buf)) (length n) e in
        let none_in = scan-short (b ∷ buf) short in
        let same = ap (λ t. scan first n (t ++ u)) (tail_of-short (b ∷ buf) short) in
        omega (arith, none_in, same)
    | inr e ↦
        let long = not_short (length buf) (length n) e in
        let same = ap (λ t. scan first n (t ++ u)) (tail_of-cons b buf long) in
        scan-cons b buf u (scan first n (tail_of (first ∷ n) (b ∷ buf) ++ u)) long
          (scan-append buf u ∙ ap (λ k. scan first n buf + k) (sym same))
  ]

  tail_of-append :
      (buf u : Bytes)
      → tail_of (first ∷ n) (tail_of (first ∷ n) buf ++ u) ≡ tail_of (first ∷ n) (buf ++ u)
  tail_of-append [] u = ap (λ t. tail_of (first ∷ n) (t ++ u)) (tail_of-short [] (omega arith))
  tail_of-append (b ∷ buf) u = elim (Bool-cases (leb (suc (length buf)) (length n))) [
    | inl e ↦
        ap (λ t. tail_of (first ∷ n) (t ++ u))
          (tail_of-short (b ∷ buf) (leb→le (suc (length buf)) (length n) e))
    | inr e ↦
        let long = not_short (length buf) (length n) e in
        ap (λ t. tail_of (first ∷ n) (t ++ u)) (tail_of-cons b buf long)
        ∙ tail_of-append buf u
        ∙ sym (tail_of-cons b (buf ++ u) (omega (arith, length-append buf u, long)))
  ]

  -- a counter that has been fed a buffer
  abbrev fed : Bytes → NeedleCounter
  fed buf = record { tail = tail_of (first ∷ n) buf; hits = scan first n buf }

  feed-fed : (buf u : Bytes) → feed (first ∷ n) u (fed buf) ≡ fed (buf ++ u)
  unfolding feed new_hits
  feed-fed buf u =
      ap
        (λ t. record {
          tail = t;
          hits = scan first n buf + scan first n (tail_of (first ∷ n) buf ++ u);
        })
        (tail_of-append buf u)
      ∙ ap (λ k. record { tail = tail_of (first ∷ n) (buf ++ u); hits = k })
          (sym (scan-append buf u))

  feed_all-fed :
      (us : List Bytes) (buf : Bytes) → feed_all (first ∷ n) us (fed buf) ≡ fed (buf ++ concat us)
  unfolding feed_all
  feed_all-fed [] buf = ap fed (sym (append-nil buf))
  feed_all-fed (u ∷ us) buf =
      ap (feed_all (first ∷ n) us) (feed-fed buf u)
      ∙ feed_all-fed us (buf ++ u)
      ∙ ap fed (append_assoc buf u (concat us))

  new_counter-fed : new_counter ≡ fed []
  unfolding new_counter scan
  new_counter-fed = ap (λ t. record { tail = t; hits = 0 }) (sym (tail_of-short [] (omega arith)))

  -- A counter of a needle that is not empty, fed the windows of a stream in order, has as many hits as
  -- the needle has occurrences in the whole stream, however it is cut into windows.
  pub feed_all-occurrences :
      (us : List Bytes)
      → (feed_all (first ∷ n) us new_counter).hits ≡ occurrences (first ∷ n) (concat us)
  feed_all-occurrences us =
      ap (λ st. (feed_all (first ∷ n) us st).hits) new_counter-fed
      ∙ ap (λ st. st.hits) (feed_all-fed us [])
      ∙ scan-occurrences first n (concat us)
