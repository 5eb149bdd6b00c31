-- ===== src/Envelope/Windows/Chunks.antt =====
-- experiments/client-keyed-objects/client/src/upload.ts: the chunks behind the windows.
use supabase_lab.Common.{
  ℕ, suc, ◌+◌, ◌-◌, ◌*◌, ◌/◌, ◌≤◌, ◌<◌, ◌≡◌, refl, ap, ◌∙◌, inl, inr, min, Option, none, some, Bool,
  false, List, [], ◌∷◌, ◌++◌, filter, subarray, arith, All, ◌==◌, ltb, Bool-cases, subst,
}
use native.Mathlib.Nat.{div-mul-le_self, lt-div-mul-add, div-lt_iff_lt-mul}
use mathlib.Core.List.{append-nil}
use supabase_lab.Envelope.{Bytes, Result, ok, ◌>>=◌, Crypto, plain_len, cipher_size, sha256_hex}
use supabase_lab.Envelope.Upload.{AssetRow, HashRow, Encrypted, encrypt_from, encrypt_range}
use supabase_lab.Envelope.Layout.{CryptoLaws, cipher_chunk}
use supabase_lab.Envelope.Object.{
  IsRow, cipher_from, hash_rows, encrypt_from-eq, chunk_count-covers,
}
use supabase_lab.Envelope.Read.Span.{mul-le}
use supabase_lab.Envelope.Windows.{CipherSource, cached, kept, chunk_of, Catalogue}

-- the catalogue takes every hash
abbrev pub Accepts : Catalogue → Type 0
Accepts upsert = (sent rows : List HashRow) → upsert sent rows ≡ ok tt

pub not_lt→ltb : (a b : ℕ) → b ≤ a → ltb a b ≡ false
not_lt→ltb a b h = ground (arith, h)

pub ltb→not_lt : (a b : ℕ) → ltb a b ≡ false → b ≤ a
ltb→not_lt a b h = ground (arith, h)

pub at_end : (a b : ℕ) → a ≤ b → ltb a b ≡ false → a ≡ b
at_end a b h e = omega (arith, h, ltb→not_lt a b e)

pub bytes_of : {x y : Encrypted} → ok x ≡ ok y → x.bytes ≡ y.bytes
bytes_of e = ground (arith, e)

All-filter :
    {A : Type 0} (P : A → Type 0) (p : A → Bool) (xs : List A) → All P xs → All P (filter p xs)
All-filter P p [] h = tt
All-filter P p (x ∷ xs) h = elim (Bool-cases (p x)) [
  | inl e ↦ rw e (h.0, All-filter P p xs h.1)
  | inr e ↦ rw e (All-filter P p xs h.1)
]

All-append : {A : Type 0} (P : A → Type 0) (xs ys : List A) → All P xs → All P ys → All P (xs ++ ys)
All-append P [] ys h k = k
All-append P (x ∷ xs) ys h k = (h.0, All-append P xs ys h.1 k)

cached-All :
    (P : ℕ → Bytes → Type 0) (i : ℕ) (cache : List (ℕ × Bytes)) (b : Bytes)
    → All (λ entry. P entry.0 entry.1) cache
    → cached i cache ≡ some b
    → P i b
unfolding cached
cached-All P i [] b h e = absurd (ground (arith, e))
cached-All P i (entry ∷ rest) b h e = elim (Bool-cases (entry.0 == i)) [
  | inl k ↦
      let here : entry.0 ≡ i = ground (arith, k) in
      let found : some entry.1 ≡ some b = rw k at e in
      let same : entry.1 ≡ b = ground (arith, found) in
      subst (λ (t : ℕ × Bytes). P t.0 t.1) (λ j. (here j, same j)) h.0
  | inr k ↦ cached-All P i rest b h.1 (rw k at e)
]

module _ {Key : Type 0} (crypto : Crypto Key) (laws : CryptoLaws crypto) (key : Key) (a : AssetRow)
    (source : Bytes) (row : IsRow a source) where
  -- what is cached is the ciphertext, and what was sent are its hashes
  pub record IsSound (st : CipherSource) : Type 0 where
    pub caches :
        All (λ (entry : ℕ × Bytes). entry.1 ≡ cipher_chunk crypto key a source entry.0) st.cache
    pub sends : All (λ r. r.h ≡ sha256_hex crypto (cipher_chunk crypto key a source r.idx)) st.sent

  encrypt_range-one :
      (i : ℕ)
      → i * a.chunk_size ≤ a.plaintext_size
      → encrypt_range crypto key a source i i
        ≡ ok (record {
          bytes = cipher_chunk crypto key a source i;
          hashes =
              record { idx = i; h = sha256_hex crypto (cipher_chunk crypto key a source i) } ∷ [];
        })
  unfolding encrypt_range cipher_from hash_rows
  encrypt_range-one i inside =
      let one : suc i - i ≡ 1 = omega arith in
      ap
        (λ k.
          encrypt_from crypto key a
            (subarray source (i * a.chunk_size) (min a.plaintext_size (suc i * a.chunk_size))) i k
            i)
        one
      ∙ encrypt_from-eq crypto key a source i i 1 i row.sized row.prefixed inside (omega arith)
          (omega arith)
      ∙ ap
          (λ b. ok (record {
            bytes = b;
            hashes =
                record { idx = i; h = sha256_hex crypto (cipher_chunk crypto key a source i) } ∷ [];
          }))
          (append-nil (cipher_chunk crypto key a source i))

  pub chunk_of-eq :
      (upsert : Catalogue)
      → Accepts upsert
      → (found : Option Bytes) (i : ℕ) (st : CipherSource) → IsSound st
      → i * a.chunk_size ≤ a.plaintext_size
      → cached i st.cache ≡ found
      → (st' : CipherSource) × (chunk_of crypto upsert key a source found i st
          ≡ ok (cipher_chunk crypto key a source i, st'))
        × IsSound st'
  unfolding chunk_of kept
  chunk_of-eq upsert accepts (some b) i st s inside e = (
    st,
    ap (λ t. ok (t, st))
        (cached-All (λ j t. t ≡ cipher_chunk crypto key a source j) i st.cache b s.caches e),
    s,
  )
  chunk_of-eq upsert accepts none i st s inside e =
      let ct = cipher_chunk crypto key a source i in
      let entry : HashRow = record { idx = i; h = sha256_hex crypto ct } in
      let stored : Bytes → List HashRow → Result (Bytes × CipherSource) = λ bytes rows.
        ok (
          bytes,
          record { cache = kept i (st.cache ++ (i, bytes) ∷ []); sent = st.sent ++ rows },
        ) in
      (
        record { cache = kept i (st.cache ++ (i, ct) ∷ []); sent = st.sent ++ entry ∷ [] },
        ap (λ r. r >>= λ (e : Encrypted). upsert st.sent e.hashes >>= λ _. stored e.bytes e.hashes)
              (encrypt_range-one i inside)
            ∙ ap (λ r. r >>= λ _. stored ct (entry ∷ [])) (accepts st.sent (entry ∷ [])),
        record {
          caches =
              All-filter _ _ (st.cache ++ (i, ct) ∷ [])
                (All-append _ st.cache ((i, ct) ∷ []) s.caches (refl, tt));
          sends = All-append _ st.sent (entry ∷ []) s.sends (refl, tt);
        },
      )

  -- a position of the object lies in the chunk that the loop takes
  pub position :
      (pos : ℕ)
      → pos < a.ciphertext_size
      → let i = pos / (a.chunk_size + 16) in
        (i < a.chunk_count)
        × (i * a.chunk_size ≤ a.plaintext_size)
        × (i * (a.chunk_size + 16) ≤ pos)
        × (pos < i * (a.chunk_size + 16) + plain_len i a.plaintext_size a.chunk_size + 16)
  unfolding cipher_size plain_len
  position pos h =
      let c = a.chunk_size in
      let n = a.plaintext_size in
      let i = pos / (c + 16) in
      let (_, covered, inside) = chunk_count-covers n c row.positive in
      let whole : n ≤ a.chunk_count * c = omega (arith, covered, ap (λ m. m * c) row.counted) in
      let last : (a.chunk_count - 1) * c ≤ n =
        omega (arith, inside, ap (λ m. (m - 1) * c) row.counted) in
      let size : a.ciphertext_size ≡ n + a.chunk_count * 16 =
        omega (arith, row.stored, row.counted) in
      let stride : 0 < c + 16 = omega arith in
      let total : a.chunk_count * (c + 16) ≡ a.chunk_count * c + a.chunk_count * 16 = omega arith in
      let before : i < a.chunk_count =
        (div-lt_iff_lt-mul {k = c + 16} {x = pos} {y = a.chunk_count} stride).1
          (omega (arith, h, size, whole, total)) in
      let low = div-mul-le_self pos (c + 16) in
      let high = lt-div-mul-add {a = pos} {b = c + 16} stride in
      let within : i * c ≤ n =
        omega (arith, mul-le i (a.chunk_count - 1) c (omega (arith, before)), last) in
      let parts : i * (c + 16) ≡ i * c + i * 16 = omega arith in
      (
        before,
        within,
        low,
        elim (Bool-cases (suc i == a.chunk_count)) [
          | inl e ↦
              let at_end : suc i ≡ a.chunk_count = ground (arith, e) in
              omega (arith, h, size, at_end, within, parts, high)
          | inr e ↦
              let later : suc i ≤ a.chunk_count - 1 = ground (arith, e, before) in
              let next : suc i * c ≡ i * c + c = omega arith in
              omega (arith, high, mul-le (suc i) (a.chunk_count - 1) c later, last, next)
        ],
      )
