-- ===== src/Envelope/Multipart/Joined.antt =====
-- experiments/client-keyed-objects/client/src/upload.ts: the parts of an object, put together.
use supabase_lab.Common.{
  ℕ, zero, suc, ◌+◌, ◌-◌, ◌*◌, ◌/◌, ◌≤◌, ◌<◌, ◌≡◌, refl, sym, ap, ◌∙◌, ◌⊎◌, inl, inr, Option, none,
  some, List, [], ◌∷◌, ◌++◌, Bool-cases, leb, leb→le, arith,
}
use mathlib.Core.List.{append-nil, append_assoc}
use native.Mathlib.Nat.{lt-div-mul-add}
use supabase_lab.Envelope.{Bytes, Crypto, sha256_hex}
use supabase_lab.Envelope.Layout.{cipher_chunk}
use supabase_lab.Envelope.Upload.{AssetRow, HashRow}
use supabase_lab.Envelope.Object.{IsRow, chunk_count-covers, cipher_from, hash_rows}
use supabase_lab.Envelope.Multipart.{map_get, part_count}
use supabase_lab.Envelope.Multipart.Steps.{Text, Call}
use supabase_lab.Envelope.Multipart.Parts.{part_size, body_calls, part_first-inside}
use supabase_lab.Envelope.Multipart.Calls.{part_calls}

-- the bytes of the parts that the requests store, and the rows that they send
abbrev pub bodies : List Call → Bytes
bodies [] = []
bodies (Call.upload_part n bytes ∷ rest) = bytes ++ bodies rest
bodies (_ ∷ rest) = bodies rest

abbrev pub sent_rows : List Call → List HashRow
sent_rows [] = []
sent_rows (Call.upsert_chunks rows ∷ rest) = rows ++ sent_rows rest
sent_rows (_ ∷ rest) = sent_rows rest

pub bodies-append : (log rest : List Call) → bodies (log ++ rest) ≡ bodies log ++ bodies rest
bodies-append [] rest = refl
bodies-append (Call.upload_part n bytes ∷ log) rest =
    ap (◌++◌ bytes) (bodies-append log rest) ∙ sym (append_assoc bytes (bodies log) (bodies rest))
bodies-append (Call.upsert_chunks r ∷ log) rest = bodies-append log rest
bodies-append (Call.list_parts m ∷ log) rest = bodies-append log rest
bodies-append (Call.complete ps ∷ log) rest = bodies-append log rest
bodies-append (Call.create_upload ∷ log) rest = bodies-append log rest
bodies-append (Call.patch_asset p ∷ log) rest = bodies-append log rest
bodies-append (Call.count_rows ∷ log) rest = bodies-append log rest

pub sent_rows-append :
    (log rest : List Call) → sent_rows (log ++ rest) ≡ sent_rows log ++ sent_rows rest
sent_rows-append [] rest = refl
sent_rows-append (Call.upsert_chunks r ∷ log) rest =
    ap (◌++◌ r) (sent_rows-append log rest) ∙ sym (append_assoc r (sent_rows log) (sent_rows rest))
sent_rows-append (Call.upload_part n bytes ∷ log) rest = sent_rows-append log rest
sent_rows-append (Call.list_parts m ∷ log) rest = sent_rows-append log rest
sent_rows-append (Call.complete ps ∷ log) rest = sent_rows-append log rest
sent_rows-append (Call.create_upload ∷ log) rest = sent_rows-append log rest
sent_rows-append (Call.patch_asset p ∷ log) rest = sent_rows-append log rest
sent_rows-append (Call.count_rows ∷ log) rest = sent_rows-append log rest

-- a part sends no rows of its own
no_rows :
    (prior : Option Text) (pn : ℕ) (bytes : Bytes) → sent_rows (body_calls prior pn bytes) ≡ []
no_rows (some t) pn bytes = refl
no_rows none pn bytes = refl

-- a list that is gathered from the numbers from `i` on
module _ {A : Type 0} (f : ℕ → ℕ → List A) (g : ℕ → List A) (begins : (i : ℕ) → f zero i ≡ [])
    (grows : (k i : ℕ) → f (suc k) i ≡ g i ++ f k (suc i)) where
  gathered-append : (n m i : ℕ) → f (n + m) i ≡ f n i ++ f m (i + n)
  gathered-append zero m i =
      let same : zero + m ≡ m = omega arith in
      let at : i ≡ i + zero = omega arith in
      ap (λ k. f k i) same ∙ ap (f m) at ∙ ap (λ l. l ++ f m (i + zero)) (sym (begins i))
  gathered-append (suc n) m i =
      let same : suc n + m ≡ suc (n + m) = omega arith in
      let at : suc i + n ≡ i + suc n = omega arith in
      ap (λ k. f k i) same
      ∙ grows (n + m) i
      ∙ ap (◌++◌ (g i)) (gathered-append n m (suc i) ∙ ap (λ j. f n (suc i) ++ f m j) at)
      ∙ sym (append_assoc (g i) (f n (suc i)) (f m (i + suc n)))
      ∙ ap (λ l. l ++ f m (i + suc n)) (sym (grows n i))

  -- the second piece may begin anywhere when it is empty
  gathered-split :
      (n m total i j : ℕ) → n + m ≡ total → (m ≡ 0) ⊎ (i + n ≡ j) → f n i ++ f m j ≡ f total i
  gathered-split n m total i j whole (inl none_left) =
      let same : n ≡ total = omega (arith, whole, none_left) in
      ap (λ k. f n i ++ f k j) none_left
      ∙ ap (◌++◌ (f n i)) (begins j)
      ∙ append-nil (f n i)
      ∙ ap (λ k. f k i) same
  gathered-split n m total i j whole (inr at) =
      ap (λ k. f n i ++ f m k) (sym at) ∙ sym (gathered-append n m i) ∙ ap (λ k. f k i) whole

module _ {Key : Type 0} (crypto : Crypto Key) (key : Key) (a : AssetRow) (source : Bytes)
    (row : IsRow a source) (part_chunks : ℕ) (some_chunks : 1 ≤ part_chunks) where
  -- the chunks of a part and those after it are the chunks from the part on
  part_step :
      (p : ℕ)
      → p < part_count a part_chunks
      → (part_size a part_chunks p + (a.chunk_count - suc p * part_chunks)
          ≡ a.chunk_count - p * part_chunks)
        × ((a.chunk_count - suc p * part_chunks ≡ 0)
            ⊎ (p * part_chunks + part_size a part_chunks p ≡ suc p * part_chunks))
  part_step p h =
      let low : p * part_chunks ≤ a.chunk_count - 1 =
        part_first-inside crypto key a source row part_chunks some_chunks p h in
      let (some_chunk, _, _) = chunk_count-covers a.plaintext_size a.chunk_size row.positive in
      let some_here : 1 ≤ a.chunk_count = omega (arith, some_chunk, row.counted) in
      let next : suc p * part_chunks ≡ p * part_chunks + part_chunks = omega arith in
      (
        omega (arith, next, low, some_here, some_chunks),
        elim (Bool-cases (leb a.chunk_count (suc p * part_chunks))) [
          | inl e ↦
              let over = leb→le a.chunk_count (suc p * part_chunks) e in inl (omega (arith, over))
          | inr e ↦
              let inside : suc p * part_chunks < a.chunk_count = ground (arith, e) in
              inr (omega (arith, next, inside, low, some_chunks))
        ],
      )

  -- the parts end with the object
  parts-end : (p : ℕ) → p + 0 ≡ part_count a part_chunks → a.chunk_count - p * part_chunks ≡ 0
  unfolding part_count
  parts-end p h =
      let same : p ≡ (a.chunk_count + (part_chunks - 1)) / part_chunks = omega (arith, h) in
      omega (
        arith,
        lt-div-mul-add {a = a.chunk_count + (part_chunks - 1)} {b = part_chunks}
            (omega (arith, some_chunks)),
        ap (λ q. q * part_chunks) same,
        some_chunks,
      )

  abbrev ciphertext : ℕ → ℕ → Bytes
  ciphertext = cipher_from crypto key a source

  abbrev row_list : ℕ → ℕ → List HashRow
  row_list = hash_rows crypto key a source

  -- the parts of an upload that begins are those of the object
  pub bodies-part_calls :
      (k p : ℕ)
      → p + k ≡ part_count a part_chunks
      → bodies (part_calls crypto key a source row part_chunks some_chunks [] k p)
        ≡ cipher_from crypto key a source (a.chunk_count - p * part_chunks) (p * part_chunks)
  unfolding part_calls map_get cipher_from
  bodies-part_calls zero p h = ap (λ n. ciphertext n (p * part_chunks)) (sym (parts-end p h))
  bodies-part_calls (suc k) p h =
      let (whole, at) = part_step p (omega (arith, h)) in
      let n = part_size a part_chunks p in
      ap (◌++◌ (ciphertext n (p * part_chunks))) (bodies-part_calls k (suc p) (omega (arith, h)))
      ∙ gathered-split ciphertext (cipher_chunk crypto key a source) (λ i. refl) (λ k' i. refl) n
          (a.chunk_count - suc p * part_chunks) (a.chunk_count - p * part_chunks) (p * part_chunks)
          (suc p * part_chunks) whole at

  -- and the rows are those of all its chunks, of the parts that were uploaded before too
  pub sent_rows-part_calls :
      (uploaded : List (ℕ × Text)) (k p : ℕ)
      → p + k ≡ part_count a part_chunks
      → sent_rows (part_calls crypto key a source row part_chunks some_chunks uploaded k p)
        ≡ hash_rows crypto key a source (a.chunk_count - p * part_chunks) (p * part_chunks)
  unfolding part_calls hash_rows
  sent_rows-part_calls uploaded zero p h =
      ap (λ n. row_list n (p * part_chunks)) (sym (parts-end p h))
  sent_rows-part_calls uploaded (suc k) p h =
      let (whole, at) = part_step p (omega (arith, h)) in
      let n = part_size a part_chunks p in
      let later = part_calls crypto key a source row part_chunks some_chunks uploaded k (suc p) in
      ap (◌++◌ (row_list n (p * part_chunks))) (
        sent_rows-append
          (body_calls (map_get (suc p) uploaded) (suc p) (ciphertext n (p * part_chunks))) later
        ∙ ap (λ l. l ++ sent_rows later)
            (no_rows (map_get (suc p) uploaded) (suc p) (ciphertext n (p * part_chunks)))
        ∙ sent_rows-part_calls uploaded k (suc p) (omega (arith, h)))
      ∙ gathered-split row_list
          (λ i. record { idx = i; h = sha256_hex crypto (cipher_chunk crypto key a source i) } ∷ [])
          (λ i. refl) (λ k' i. refl) n (a.chunk_count - suc p * part_chunks)
          (a.chunk_count - p * part_chunks) (p * part_chunks) (suc p * part_chunks) whole at
