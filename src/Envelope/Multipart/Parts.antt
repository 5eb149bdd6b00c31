-- ===== src/Envelope/Multipart/Parts.antt =====
-- experiments/client-keyed-objects/client/src/upload.ts: the chunks of a part, and the numbers of the
-- parts in a map.
use supabase_lab.Common.{
  ℕ, suc, ◌+◌, ◌-◌, ◌*◌, ◌/◌, ◌≤◌, ◌<◌, ◌≡◌, ap, min, Option, none, some, Bool, true, List, [], ◌∷◌,
  some_of, ◌==◌, arith,
}
use native.Mathlib.Nat.{div-mul-le_self}
use supabase_lab.Envelope.{Bytes, ok, Crypto}
use supabase_lab.Envelope.Upload.{AssetRow, Encrypted, encrypt_range}
use supabase_lab.Envelope.Read.Span.{mul-le}
use supabase_lab.Envelope.Object.{
  IsRow, chunk_count-covers, cipher_from, hash_rows, encrypt_from-eq,
}
use supabase_lab.Envelope.Multipart.{map_set, part_count}
use supabase_lab.Envelope.Multipart.Steps.{Text, Call}

-- the first chunk of part `p`, counted from 0, and the number of its chunks
abbrev part_first : ℕ → ℕ → ℕ
part_first part_chunks p = p * part_chunks

abbrev pub part_size : AssetRow → ℕ → ℕ → ℕ
part_size a part_chunks p =
    suc (min (a.chunk_count - 1) (p * part_chunks + part_chunks - 1)) - p * part_chunks

-- the request that stores a part, unless it was uploaded before
abbrev pub body_calls : Option Text → ℕ → Bytes → List Call
body_calls (some prior) pn bytes = []
body_calls none pn bytes = Call.upload_part pn bytes ∷ []

-- an entry of the map has the number
abbrev pub has_number : {A : Type 0} → ℕ → List (ℕ × A) → Bool
has_number n etags = some_of (λ entry. entry.0 == n) etags

pub has_number-map_set :
    {A : Type 0} (k : ℕ) (v : A) (etags : List (ℕ × A)) → has_number k (map_set k v etags) ≡ true
unfolding map_set
has_number-map_set k v [] = ground arith
has_number-map_set k v (entry ∷ rest) = ground (arith, has_number-map_set k v rest)

pub map_set-keeps_number :
    {A : Type 0} (n k : ℕ) (v : A) (etags : List (ℕ × A))
    → has_number n etags ≡ true
    → has_number n (map_set k v etags) ≡ true
unfolding map_set
map_set-keeps_number n k v [] h = cc
map_set-keeps_number n k v (entry ∷ rest) h = ground (arith, map_set-keeps_number n k v rest)

module _ {Key : Type 0} (crypto : Crypto Key) (key : Key) (a : AssetRow) (source : Bytes)
    (row : IsRow a source) (part_chunks : ℕ) (some_chunks : 1 ≤ part_chunks) where
  -- a part begins at a chunk of the object
  pub part_first-inside :
      (p : ℕ) → p < part_count a part_chunks → p * part_chunks ≤ a.chunk_count - 1
  unfolding part_count
  part_first-inside p h =
      let q = (a.chunk_count + (part_chunks - 1)) / part_chunks in
      let (some_chunk, _, _) = chunk_count-covers a.plaintext_size a.chunk_size row.positive in
      omega (
        arith,
        mul-le (suc p) q part_chunks h,
        div-mul-le_self (a.chunk_count + (part_chunks - 1)) part_chunks,
        some_chunk,
        row.counted,
        some_chunks,
      )

  abbrev pub part_cipher : ℕ → Encrypted
  part_cipher p = record {
    bytes = cipher_from crypto key a source (part_size a part_chunks p) (p * part_chunks);
    hashes = hash_rows crypto key a source (part_size a part_chunks p) (p * part_chunks);
  }

  pub encrypt_range-part :
      (p : ℕ)
      → p < part_count a part_chunks
      → encrypt_range crypto key a source
          (p * part_chunks)
          (min (a.chunk_count - 1) (p * part_chunks + part_chunks - 1))
        ≡ ok (part_cipher p)
  unfolding encrypt_range
  encrypt_range-part p h =
      let first = p * part_chunks in
      let last = min (a.chunk_count - 1) (first + part_chunks - 1) in
      let low = part_first-inside p h in
      let (some_chunk, _, inside) = chunk_count-covers a.plaintext_size a.chunk_size row.positive in
      encrypt_from-eq crypto key a source first last (suc last - first) first row.sized row.prefixed
        (omega (
          arith,
          inside,
          ap (λ m. (m - 1) * a.chunk_size) row.counted,
          mul-le last (a.chunk_count - 1) a.chunk_size (omega arith),
        ))
        (omega arith) (omega (arith, low, some_chunks))
