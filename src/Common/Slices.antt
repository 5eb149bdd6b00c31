-- ===== src/Common/Slices.antt =====
-- `subarray`, `set` and the numbers of a byte array, on lists measured by native numbers.
use Prim.Native.Nat.{ℕ, zero, suc, ◌+◌, ◌-◌, ◌≤◌, min}
use mathlib.Core.Path.{◌≡◌, refl, sym, ap, ◌∙◌}
use mathlib.Core.Bool.{true}
use mathlib.Core.Option.{Option, none, some}
use mathlib.Core.List.{List, [], ◌∷◌, ◌++◌}
use native.Mathlib.Omega.{arith}
use supabase_lab.Common.Tests.{if◌then◌else◌, leb}
use supabase_lab.Common.Lists.{length, length-append}

module _ {ℓ} {A : Type ℓ} where
  unfoldable pub take : ℕ → List A → List A
  take zero xs = []
  take (suc n) [] = []
  take (suc n) (x ∷ xs) = x ∷ take n xs

  unfoldable pub drop : ℕ → List A → List A
  drop zero xs = xs
  drop (suc n) [] = []
  drop (suc n) (x ∷ xs) = drop n xs

  -- `xs.subarray(from, to)` for indices that are not negative
  unfoldable pub subarray : List A → ℕ → ℕ → List A
  subarray xs from to = take (to - from) (drop from xs)

  unfoldable pub replicate : ℕ → A → List A
  replicate zero a = []
  replicate (suc n) a = a ∷ replicate n a

  -- `xs.set(ys, at)`, which throws when ys does not fit
  unfoldable pub set_at : List A → List A → ℕ → Option (List A)
  set_at xs ys at =
      if leb (at + length ys) (length xs)
      then some (take at xs ++ ys ++ drop (at + length ys) xs)
      else none

  length-take : (n : ℕ) (xs : List A) → length (take n xs) ≡ min n (length xs)
  unfolding take
  length-take zero xs = omega arith
  length-take (suc n) [] = omega arith
  length-take (suc n) (x ∷ xs) = omega (arith, length-take n xs)

  length-drop : (n : ℕ) (xs : List A) → length (drop n xs) ≡ length xs - n
  unfolding drop
  length-drop zero xs = omega arith
  length-drop (suc n) [] = omega arith
  length-drop (suc n) (x ∷ xs) = omega (arith, length-drop n xs)

  pub length-subarray :
      (xs : List A) (from to : ℕ)
      → length (subarray xs from to) ≡ min (to - from) (length xs - from)
  unfolding subarray
  length-subarray xs from to =
      omega (arith, length-take (to - from) (drop from xs), length-drop from xs)

  pub length-replicate : (n : ℕ) (a : A) → length (replicate n a) ≡ n
  unfolding replicate
  length-replicate zero a = refl
  length-replicate (suc n) a = ap suc (length-replicate n a)

  drop-replicate : (k n : ℕ) (a : A) → drop k (replicate n a) ≡ replicate (n - k) a
  unfolding drop replicate
  drop-replicate zero n a = ap (λ k. replicate k a) (omega arith)
  drop-replicate (suc k) zero a =
      let same : 0 ≡ 0 - suc k = omega arith in ap (λ j. replicate j a) same
  drop-replicate (suc k) (suc n) a =
      let same : n - k ≡ suc n - suc k = omega arith in
      drop-replicate k n a ∙ ap (λ j. replicate j a) same

  pub take-congr : (m n : ℕ) (xs : List A) → m ≡ n → take m xs ≡ take n xs
  take-congr m n xs e = ap (λ k. take k xs) e

  pub drop-congr : (m n : ℕ) (xs : List A) → m ≡ n → drop m xs ≡ drop n xs
  drop-congr m n xs e = ap (λ k. drop k xs) e

  pub take-all : (n : ℕ) (xs : List A) → length xs ≤ n → take n xs ≡ xs
  unfolding take
  take-all zero [] h = refl
  take-all zero (x ∷ xs) h = absurd (omega (arith, h))
  take-all (suc n) [] h = refl
  take-all (suc n) (x ∷ xs) h = ap (◌∷◌ x) (take-all n xs (omega (arith, h)))

  drop-all : (n : ℕ) (xs : List A) → length xs ≤ n → drop n xs ≡ []
  unfolding drop
  drop-all zero [] h = refl
  drop-all zero (x ∷ xs) h = absurd (omega (arith, h))
  drop-all (suc n) [] h = refl
  drop-all (suc n) (x ∷ xs) h = drop-all n xs (omega (arith, h))

  pub take-append : (n : ℕ) (xs ys : List A) → length xs ≡ n → take n (xs ++ ys) ≡ xs
  unfolding take
  take-append zero [] ys h = refl
  take-append zero (x ∷ xs) ys h = absurd (omega (arith, h))
  take-append (suc n) [] ys h = absurd (omega (arith, h))
  take-append (suc n) (x ∷ xs) ys h = ap (◌∷◌ x) (take-append n xs ys (omega (arith, h)))

  pub drop-append : (n : ℕ) (xs ys : List A) → length xs ≡ n → drop n (xs ++ ys) ≡ ys
  unfolding drop
  drop-append zero [] ys h = refl
  drop-append zero (x ∷ xs) ys h = absurd (omega (arith, h))
  drop-append (suc n) [] ys h = absurd (omega (arith, h))
  drop-append (suc n) (x ∷ xs) ys h = drop-append n xs ys (omega (arith, h))

  take-take : (m n : ℕ) (xs : List A) → take m (take n xs) ≡ take (min m n) xs
  unfolding take
  take-take zero n xs = let e : min 0 n ≡ 0 = omega arith in rw e refl
  take-take (suc m) zero xs = let e : min (suc m) 0 ≡ 0 = omega arith in rw e refl
  take-take (suc m) (suc n) [] = sym (take-all (min (suc m) (suc n)) [] (omega arith))
  take-take (suc m) (suc n) (x ∷ xs) =
      let same : suc (min m n) ≡ min (suc m) (suc n) = omega arith in
      ap (◌∷◌ x) (take-take m n xs) ∙ take-congr (suc (min m n)) (min (suc m) (suc n)) (x ∷ xs) same

  pub drop-drop : (m n : ℕ) (xs : List A) → drop m (drop n xs) ≡ drop (n + m) xs
  unfolding drop
  drop-drop m zero xs = ap (λ k. drop k xs) (omega arith)
  drop-drop m (suc n) [] = drop-all m [] (omega arith) ∙ sym (drop-all (suc n + m) [] (omega arith))
  drop-drop m (suc n) (x ∷ xs) =
      drop-drop m n xs ∙ drop-congr (suc (n + m)) (suc n + m) (x ∷ xs) (omega arith)

  drop-take : (m n : ℕ) (xs : List A) → drop m (take n xs) ≡ take (n - m) (drop m xs)
  unfolding drop take
  drop-take zero n xs = ap (λ k. take k xs) (omega arith)
  drop-take (suc m) zero xs = let e : 0 - suc m ≡ 0 = omega arith in rw e refl
  drop-take (suc m) (suc n) [] = sym (take-all (suc n - suc m) [] (omega arith))
  drop-take (suc m) (suc n) (x ∷ xs) =
      drop-take m n xs ∙ take-congr (n - m) (suc n - suc m) (drop m xs) (omega arith)

  take-drop : (m n : ℕ) (xs : List A) → take m xs ++ take n (drop m xs) ≡ take (m + n) xs
  unfolding drop take
  take-drop zero n xs = ap (λ k. take k xs) (omega arith)
  take-drop (suc m) n [] = take-all n [] (omega arith) ∙ sym (take-all (suc m + n) [] (omega arith))
  take-drop (suc m) n (x ∷ xs) =
      ap (◌∷◌ x) (take-drop m n xs) ∙ take-congr (suc (m + n)) (suc m + n) (x ∷ xs) (omega arith)

  -- a window of a window
  pub subarray-subarray :
      (xs : List A) (a b c d : ℕ)
      → a + d ≤ b
      → subarray (subarray xs a b) c d ≡ subarray xs (a + c) (a + d)
  unfolding subarray
  subarray-subarray xs a b c d h =
      ap (take (d - c)) (drop-take c (b - a) (drop a xs))
      ∙ take-take (d - c) ((b - a) - c) (drop c (drop a xs))
      ∙ ap (λ ys. take (min (d - c) ((b - a) - c)) ys) (drop-drop c a xs)
      ∙ ap (λ k. take k (drop (a + c) xs)) (omega (arith, h))

  -- two windows that meet
  pub subarray-append :
      (xs : List A) (a b c : ℕ)
      → a ≤ b
      → b ≤ c
      → subarray xs a b ++ subarray xs b c ≡ subarray xs a c
  unfolding subarray
  subarray-append xs a b c h k =
      ap (λ ys. take (b - a) (drop a xs) ++ take (c - b) ys)
        (ap (λ n. drop n xs) (omega (arith, h)) ∙ sym (drop-drop (b - a) a xs))
      ∙ take-drop (b - a) (c - b) (drop a xs)
      ∙ ap (λ n. take n (drop a xs)) (omega (arith, h, k))

  -- writing where the written part ends
  set_at-append :
      (xs ys zs : List A) (at : ℕ)
      → length xs ≡ at
      → length ys ≤ length zs
      → set_at (xs ++ zs) ys at ≡ some (xs ++ ys ++ drop (length ys) zs)
  unfolding set_at
  set_at-append xs ys zs at h k =
      let fits : leb (at + length ys) (length (xs ++ zs)) ≡ true =
        ground (arith, length-append xs zs, h, k) in
      rw fits (
        ap some (
          ap (λ t. t ++ ys ++ drop (at + length ys) (xs ++ zs)) (take-append at xs zs h)
          ∙ ap (λ t. xs ++ ys ++ t)
              (sym (drop-drop (length ys) at (xs ++ zs))
                ∙ ap (drop (length ys)) (drop-append at xs zs h))))

  -- an array that holds a window up to `here`, with the next part of the window set there
  pub set_at-window :
      (source : List A) (z : A) (start end_excl : ℕ)
      → end_excl ≤ length source
      → (here next : ℕ) → start ≤ here
      → here ≤ next
      → next ≤ end_excl
      → set_at
          (subarray source start here ++ replicate (end_excl - here) z)
          (subarray source here next)
          (here - start)
        ≡ some (subarray source start next ++ replicate (end_excl - next) z)
  set_at-window source z start end_excl inside here next h k l =
      let len : length (subarray source here next) ≡ next - here =
        omega (arith, length-subarray source here next, inside, k, l) in
      let left : end_excl - here - length (subarray source here next) ≡ end_excl - next =
        omega (arith, len, k, l) in
      set_at-append (subarray source start here) (subarray source here next)
        (replicate (end_excl - here) z) (here - start)
        (omega (arith, length-subarray source start here, inside, h, k, l))
        (omega (arith, len, length-replicate (end_excl - here) z, k, l))
      ∙ ap some (
          ap (λ t. subarray source start here ++ subarray source here next ++ t)
            (drop-replicate (length (subarray source here next)) (end_excl - here) z
              ∙ ap (λ n. replicate n z) left)
          ∙ ap (λ t. t ++ replicate (end_excl - next) z)
              (subarray-append source start here next h k))
