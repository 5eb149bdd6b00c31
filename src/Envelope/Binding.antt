-- ===== src/Envelope/Binding.antt =====
-- experiments/client-keyed-objects/client/src/envelope.ts: what the nonce and the associated data of
-- a chunk bind.
use supabase_lab.Common.{
  ℕ, ◌<◌, ◌≡◌, refl, ap, sym, ◌∙◌, [], ◌∷◌, ◌++◌, arith, length, length-append, drop,
}
use supabase_lab.Envelope.{Bytes, ok, nonce, aad, uint32_be}

uint32_be-injective :
    (m n : ℕ) → m < 4294967296 → n < 4294967296 → uint32_be m ≡ uint32_be n → m ≡ n
unfolding uint32_be
uint32_be-injective m n hm hn e = ground (arith, hm, hn, e)

length-uint32 : (n : ℕ) → length (uint32_be n) ≡ 4
unfolding uint32_be
length-uint32 n = refl

length-uint32_pair : (m n : ℕ) → length (uint32_be m ++ uint32_be n) ≡ 8
unfolding uint32_be
length-uint32_pair m n = refl

append_cancel : (xs ys s t : Bytes) → length s ≡ length t → xs ++ s ≡ ys ++ t → (xs ≡ ys) × (s ≡ t)
unfolding drop
append_cancel [] [] s t h e = (refl, e)
append_cancel [] (y ∷ ys) s t h e = absurd (omega (arith, h, ap length e, length-append (y ∷ ys) t))
append_cancel (x ∷ xs) [] s t h e = absurd (omega (arith, h, ap length e, length-append (x ∷ xs) s))
append_cancel (x ∷ xs) (y ∷ ys) s t h e =
    let rest = append_cancel xs ys s t h (ap (drop 1) e) in ground (arith, e, rest.0, rest.1)

-- Chunks of one asset never share a nonce: for one prefix the nonces of two indices below 2^32 are
-- the same only if the indices are.
pub nonce-injective :
    (prefix iv : Bytes) (i j : ℕ)
    → i < 4294967296
    → j < 4294967296
    → nonce prefix i ≡ ok iv
    → nonce prefix j ≡ ok iv
    → i ≡ j
unfolding nonce
nonce-injective prefix iv i j hi hj p q =
    let same : prefix ++ uint32_be i ≡ prefix ++ uint32_be j = ground (arith, p, q) in
    let (_, e) =
      append_cancel prefix prefix (uint32_be i) (uint32_be j)
        (length-uint32 i ∙ sym (length-uint32 j)) same in
    uint32_be-injective i j hi hj e

-- The associated data binds the asset, the index and the count: it is the same for two chunks, with
-- indices and counts below 2^32, only if they are of one asset, at one index and of one count.
pub aad-injective :
    (s t : Bytes) (i j m n : ℕ)
    → i < 4294967296
    → j < 4294967296
    → m < 4294967296
    → n < 4294967296
    → aad s i m ≡ aad t j n
    → (s ≡ t) × (i ≡ j) × (m ≡ n)
unfolding aad
aad-injective s t i j m n hi hj hm hn e =
    let (same, tails) =
      append_cancel s t (uint32_be i ++ uint32_be m) (uint32_be j ++ uint32_be n)
        (length-uint32_pair i m ∙ sym (length-uint32_pair j n)) e in
    let (a, b) =
      append_cancel (uint32_be i) (uint32_be j) (uint32_be m) (uint32_be n)
        (length-uint32 m ∙ sym (length-uint32 n)) tails in
    (same, uint32_be-injective i j hi hj a, uint32_be-injective m n hm hn b)
