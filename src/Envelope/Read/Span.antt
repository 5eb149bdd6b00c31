-- ===== src/Envelope/Read/Span.antt =====
-- experiments/client-keyed-objects/client/src/envelope.ts and read.ts: the chunks of a span and the
-- plaintext array before and after the loop.
use supabase_lab.Common.{
  ℕ, suc, ◌+◌, ◌-◌, ◌*◌, ◌/◌, ◌≤◌, ◌<◌, ◌≡◌, refl, ap, ◌∙◌, false, ◌++◌, ◌||◌, subarray, replicate,
  take, drop, arith, ltb, leb,
}
use native.Mathlib.Nat.{lt-div-mul-add, div-mul-le_self, mul-le-mul_left, le-div_iff_mul-le}
use mathlib.Core.List.{append-nil}
use supabase_lab.Envelope.{Bytes, ok, span, cipher_offset, plain_len}
use supabase_lab.Envelope.Read.Loop.{filled, reach}

pub mul-le : (m n c : ℕ) → m ≤ n → m * c ≤ n * c
mul-le m n c h = omega (arith, mul-le-mul_left c h)

-- the window of the source that is filled in the end
pub filled-end :
    (source : Bytes) (start end_excl p : ℕ)
    → start < end_excl
    → end_excl ≤ p
    → filled source start end_excl p ≡ subarray source start end_excl
unfolding filled replicate
filled-end source start end_excl p h k =
    let whole : reach start end_excl p ≡ end_excl = omega (arith, h, k) in
    let nothing : end_excl - end_excl ≡ 0 = omega arith in
    ap (λ r. subarray source start r ++ replicate (end_excl - r) 0) whole
    ∙ ap (λ n. subarray source start end_excl ++ replicate n 0) nothing
    ∙ append-nil (subarray source start end_excl)

pub filled-start :
    (source : Bytes) (start end_excl p : ℕ)
    → start < end_excl
    → p ≤ start
    → filled source start end_excl p ≡ replicate (end_excl - start) 0
unfolding filled subarray take
filled-start source start end_excl p h k =
    let empty : reach start end_excl p ≡ start = omega (arith, h, k) in
    let nothing : start - start ≡ 0 = omega arith in
    ap (λ r. subarray source start r ++ replicate (end_excl - r) 0) empty
    ∙ ap (λ n. take n (drop start source) ++ replicate (end_excl - start) 0) nothing

-- the chunks from `start / c` to `(end_excl - 1) / c` meet [start, end_excl)
pub chunks-meet :
    (c start end_excl j : ℕ)
    → 1 ≤ c
    → start < end_excl
    → start / c ≤ j
    → j < suc ((end_excl - 1) / c)
    → (j * c < end_excl) × (start < j * c + c)
chunks-meet c start end_excl j pos h l u = (
  omega (
    arith,
    h,
    mul-le j ((end_excl - 1) / c) c (omega (arith, u)),
    div-mul-le_self (end_excl - 1) c,
  ),
  omega (arith, mul-le (start / c) j c l, lt-div-mul-add {a = start} {b = c} (omega (arith, pos))),
)

pub span_lem :
    (start end_excl n c : ℕ)
    → start < end_excl
    → end_excl ≤ n
    → span start end_excl n c
      ≡ ok (record {
        first = start / c;
        last = (end_excl - 1) / c;
        c_start = cipher_offset (start / c) c;
        c_end = cipher_offset ((end_excl - 1) / c) c + plain_len ((end_excl - 1) / c) n c + 16 - 1;
      })
unfolding span
span_lem start end_excl n c h k =
    let inside : (ltb n end_excl || leb end_excl start) ≡ false = ground (arith, h, k) in
    simp inside refl

-- the chunks of a span in order, and the last one reaches its end
pub span-order :
    (c start end_excl : ℕ)
    → 1 ≤ c
    → start < end_excl
    → (start / c ≤ (end_excl - 1) / c) × (end_excl ≤ suc ((end_excl - 1) / c) * c)
span-order c start end_excl pos h = (
  (le-div_iff_mul-le {k = c} {x = start / c} {y = end_excl - 1} (omega (arith, pos))).1
      (omega (arith, div-mul-le_self start c, h)),
  omega (arith, lt-div-mul-add {a = end_excl - 1} {b = c} (omega (arith, pos))),
)
