-- ===== src/Envelope/Multipart/Asset/Assembled.antt =====
-- experiments/client-keyed-objects/client/src/upload.ts: the object that a storage puts together from
-- the requests for parts of one upload, by their numbers.
use supabase_lab.Common.{
  ℕ, zero, suc, ◌-◌, ◌*◌, ◌≤◌, ◌≡◌, refl, ap, ◌∙◌, Option, none, some, true, false, List, [], ◌∷◌,
  ◌++◌, ◌==◌, if◌then◌else◌, arith,
}
use supabase_lab.Envelope.{Bytes, Crypto}
use supabase_lab.Envelope.Upload.{AssetRow, HashRow}
use supabase_lab.Envelope.Object.{IsRow, cipher_from}
use supabase_lab.Envelope.Multipart.{part_count, map_get}
use supabase_lab.Envelope.Multipart.Steps.{Call}
use supabase_lab.Envelope.Multipart.Parts.{part_size}
use supabase_lab.Envelope.Multipart.Calls.{part_calls}
use supabase_lab.Envelope.Multipart.Joined.{bodies, bodies-part_calls}
use supabase_lab.Envelope.Multipart.Etags.{AreListing}

-- a later part of the same number replaces the one before
abbrev pub or_earlier : Option Bytes → Option Bytes → Option Bytes
or_earlier none earlier = earlier
or_earlier (some later) earlier = some later

-- the bytes of the part with a number
abbrev pub part_body : ℕ → List Call → Option Bytes
part_body n [] = none
part_body n (Call.upload_part m bytes ∷ rest) =
    or_earlier (part_body n rest) (if m == n then some bytes else none)
part_body n (_ ∷ rest) = part_body n rest

abbrev pub bytes_of : Option Bytes → Bytes
bytes_of none = []
bytes_of (some bytes) = bytes

-- the parts with the numbers `p + 1` to `p + k`, in this order
abbrev pub assembled : ℕ → ℕ → List Call → Bytes
assembled zero p calls = []
assembled (suc k) p calls = bytes_of (part_body (suc p) calls) ++ assembled k (suc p) calls

part_body-listing : (n : ℕ) (calls : List Call) → AreListing calls → part_body n calls ≡ none
part_body-listing n [] h = refl
part_body-listing n (Call.list_parts m ∷ rest) h = part_body-listing n rest h
part_body-listing n (Call.upsert_chunks r ∷ rest) h = absurd h
part_body-listing n (Call.upload_part m b ∷ rest) h = absurd h
part_body-listing n (Call.complete ps ∷ rest) h = absurd h
part_body-listing n (Call.create_upload ∷ rest) h = absurd h
part_body-listing n (Call.patch_asset p ∷ rest) h = absurd h
part_body-listing n (Call.count_rows ∷ rest) h = absurd h

part_body-before_listing :
    (n : ℕ) (calls listing : List Call)
    → AreListing listing
    → part_body n (calls ++ listing) ≡ part_body n calls
part_body-before_listing n [] listing h = part_body-listing n listing h
part_body-before_listing n (Call.upload_part m b ∷ rest) listing h =
    ap (λ o. or_earlier o (if m == n then some b else none))
      (part_body-before_listing n rest listing h)
part_body-before_listing n (Call.list_parts m ∷ rest) listing h =
    part_body-before_listing n rest listing h
part_body-before_listing n (Call.upsert_chunks r ∷ rest) listing h =
    part_body-before_listing n rest listing h
part_body-before_listing n (Call.complete ps ∷ rest) listing h =
    part_body-before_listing n rest listing h
part_body-before_listing n (Call.create_upload ∷ rest) listing h =
    part_body-before_listing n rest listing h
part_body-before_listing n (Call.patch_asset p ∷ rest) listing h =
    part_body-before_listing n rest listing h
part_body-before_listing n (Call.count_rows ∷ rest) listing h =
    part_body-before_listing n rest listing h

-- requests that only list add nothing to the object
pub assembled-listing :
    (k p : ℕ) (calls listing : List Call)
    → AreListing listing
    → assembled k p (calls ++ listing) ≡ assembled k p calls
assembled-listing zero p calls listing h = refl
assembled-listing (suc k) p calls listing h =
    rw
      (
        part_body-before_listing (suc p) calls listing h,
        assembled-listing k (suc p) calls listing h,
      )
      refl

-- nor does a part of a smaller number to the parts that follow it
assembled-skip :
    (k p n : ℕ) (bytes : Bytes) (calls : List Call)
    → n ≤ p
    → assembled k p (Call.upload_part n bytes ∷ calls) ≡ assembled k p calls
assembled-skip zero p n bytes calls h = refl
assembled-skip (suc k) p n bytes calls h =
    let other : (n == suc p) ≡ false = ground (arith, h) in
    let same : or_earlier (part_body (suc p) calls) none ≡ part_body (suc p) calls =
      or_none (part_body (suc p) calls) in
    rw (other, same, assembled-skip k (suc p) n bytes calls (omega (arith, h))) refl
  where
    or_none : (o : Option Bytes) → or_earlier o none ≡ o
    or_none none = refl
    or_none (some b) = refl

-- nor do the rows of a part's hashes
assembled-rows :
    (k p : ℕ) (rows : List HashRow) (calls : List Call)
    → assembled k p (Call.upsert_chunks rows ∷ calls) ≡ assembled k p calls
assembled-rows zero p rows calls = refl
assembled-rows (suc k) p rows calls = rw (assembled-rows k (suc p) rows calls) refl

module _ {Key : Type 0} (crypto : Crypto Key) (key : Key) (a : AssetRow) (source : Bytes)
    (row : IsRow a source) (part_chunks : ℕ) (some_chunks : 1 ≤ part_chunks) where
  abbrev calls_from : ℕ → ℕ → List Call
  calls_from = part_calls crypto key a source row part_chunks some_chunks []

  part_body-below : (k p n : ℕ) → n ≤ p → part_body n (calls_from k p) ≡ none
  unfolding part_calls map_get
  part_body-below zero p n h = refl
  part_body-below (suc k) p n h =
      let other : (suc p == n) ≡ false = ground (arith, h) in
      rw (part_body-below k (suc p) n (omega (arith, h)), other) refl

  part_body-first :
      (k p : ℕ)
      → part_body (suc p) (calls_from (suc k) p)
        ≡ some (cipher_from crypto key a source (part_size a part_chunks p) (p * part_chunks))
  unfolding part_calls map_get
  part_body-first k p =
      let here : (suc p == suc p) ≡ true = ground arith in
      rw (part_body-below k (suc p) (suc p) (omega arith), here) refl

  assembled-bodies : (k p : ℕ) → assembled k p (calls_from k p) ≡ bodies (calls_from k p)
  unfolding part_calls map_get
  assembled-bodies zero p = refl
  assembled-bodies (suc k) p =
      let bytes = cipher_from crypto key a source (part_size a part_chunks p) (p * part_chunks) in
      let rest = calls_from k (suc p) in
      let tail : assembled k (suc p) (Call.upload_part (suc p) bytes ∷ rest) ≡ bodies rest =
        assembled-skip k (suc p) (suc p) bytes rest (omega arith) ∙ assembled-bodies k (suc p) in
      let first : part_body (suc p) (Call.upload_part (suc p) bytes ∷ rest) ≡ some bytes =
        part_body-first k p in
      let both = Call.upload_part (suc p) bytes ∷ rest in
      ap (λ o. bytes_of o ++ assembled k (suc p) (calls_from (suc k) p)) first
      ∙ ap (λ l. bytes ++ l) (assembled-rows k (suc p) _ both)
      ∙ ap (λ l. bytes ++ l) tail

  -- the parts that the loop sends are put together to the object
  pub assembled-part_calls :
      assembled (part_count a part_chunks) 0 (calls_from (part_count a part_chunks) 0)
      ≡ cipher_from crypto key a source a.chunk_count 0
  assembled-part_calls =
      let all : a.chunk_count - 0 * part_chunks ≡ a.chunk_count = omega arith in
      let first : 0 * part_chunks ≡ 0 = omega arith in
      assembled-bodies (part_count a part_chunks) 0
      ∙ bodies-part_calls crypto key a source row part_chunks some_chunks (part_count a part_chunks)
          0 (omega arith)
      ∙ ap (λ k. cipher_from crypto key a source k (0 * part_chunks)) all
      ∙ ap (cipher_from crypto key a source a.chunk_count) first
