-- ===== src/Envelope/Read/Served.antt =====
-- experiments/client-keyed-objects/client/src/read.ts and upload.ts: what a storage that serves an object
-- gives the read.
use supabase_lab.Common.{
  ℕ, zero, suc, ◌+◌, ◌-◌, ◌*◌, ◌≤◌, ◌≡◌, refl, sym, ap, ◌∙◌, ◌⊎◌, inl, inr, min, none, some, Bool,
  true, false, List, [], ◌∷◌, length, subarray, length-subarray, take-all, drop, arith, ◌==◌, ltb,
  if◌then◌else◌, Bool-cases, codes_equal, str_eq,
}
use supabase_lab.Envelope.{
  Bytes, Result, ok, ◌>>=◌, ChunkSpan, hex, plain_len, truncated_object, integrity_error,
}
use supabase_lab.Envelope.Upload.{AssetRow, HashRow}
use supabase_lab.Envelope.Read.{
  World, ReadOpts, Answer, Fetched, Hashes, content_total, joined, both, window, check_total,
  same_total, require, logged_if,
}
use supabase_lab.Envelope.Read.Span.{mul-le}

-- the catalogue's hash of a chunk, of which it has one row at most
unfoldable pub hash_of : List HashRow → Hashes
hash_of [] i = none
hash_of (r ∷ rs) i = let later = hash_of rs i in if r.idx == i then some r.h else later

-- the storage's answer to a range of an object: the range, or the whole object
abbrev pub IsServed : Bytes → ℕ → ℕ → Fetched → Type 0
IsServed object c_start c_end f =
    ((f.status ≡ 206) × (f.bytes ≡ subarray object c_start (c_end + 1)))
    ⊎ ((f.status ≡ 200) × (f.bytes ≡ object))

pub codes_equal_self : (s : List ℕ) → codes_equal s s ≡ true
unfolding codes_equal
codes_equal_self [] = refl
codes_equal_self (x ∷ s) = ground (arith, codes_equal_self s)

pub length-hex : (bs : Bytes) → length (hex bs) ≡ 2 * length bs
unfolding hex
length-hex [] = omega arith
length-hex (b ∷ bs) = omega (arith, length-hex bs)

pub enough_bytes :
    (object : Bytes) (x y : ℕ)
    → x ≤ y
    → y + 1 ≤ length object
    → ltb (length (subarray object x (y + 1))) (y - x + 1) ≡ false
enough_bytes object x y h k =
    let len : length (subarray object x (y + 1)) ≡ y - x + 1 =
      omega (arith, length-subarray object x (y + 1), h, k) in
    ground (arith, len)

-- the ciphertext of a chunk ends no later than that of a later chunk
pub chunk_end-le :
    (n c j last : ℕ)
    → j ≤ last
    → last * c ≤ n
    → j * (c + 16) + plain_len j n c + 16 ≤ last * (c + 16) + plain_len last n c + 16
unfolding plain_len
chunk_end-le n c j last h k = elim (Bool-cases (j == last)) [
  | inl e ↦
      let same : j ≡ last = ground (arith, e) in
      omega (arith, ap (λ m. m * (c + 16) + min c (n - m * c)) same)
  | inr e ↦
      let later : suc j ≤ last = ground (arith, e, h) in
      omega (arith, mul-le (suc j) last (c + 16) later)
]

pub ok-injective : {A : Type 0} (x y : A) → ok x ≡ ok y → x ≡ y
ok-injective x y e = ground (arith, e)

pub whole_window :
    (object : Bytes) (x y : ℕ)
    → x ≤ y
    → y + 1 ≤ length object
    → length object ≡ y - x + 1
    → subarray object x (y + 1) ≡ object
unfolding subarray drop
whole_window object zero y h k e = take-all (y + 1 - 0) object (omega (arith, e))
whole_window object (suc x) y h k e = absurd (omega (arith, h, k, e))

pub window-served :
    (a : AssetRow) (sp : ChunkSpan) (object : Bytes) (f : Fetched)
    → sp.c_start ≤ sp.c_end
    → sp.c_end + 1 ≤ length object
    → length object ≡ a.ciphertext_size
    → IsServed object sp.c_start sp.c_end f
    → window a sp f ≡ ok (subarray object sp.c_start (sp.c_end + 1))
unfolding window
window-served a sp object f h k size (inl part) = rw part.0 (ap ok part.1)
window-served a sp object f h k size (inr whole) =
    elim (Bool-cases (length object == sp.c_end - sp.c_start + 1)) [
      | inl e ↦
          let all : subarray object sp.c_start (sp.c_end + 1) ≡ object =
            whole_window object sp.c_start sp.c_end h k (ground (arith, e)) in
          rw (whole.0, whole.1, e) (ap ok (sym all))
      | inr e ↦
          let long : ltb (length object) a.ciphertext_size ≡ false = ground (arith, size) in
          rw (whole.0, whole.1, e, long) refl
    ]

pub check_total-served :
    (a : AssetRow) (f : Fetched)
    → (content_total f.content_range ≡ none)
      ⊎ (content_total f.content_range ≡ some a.ciphertext_size)
    → check_total a f ≡ ok tt
unfolding check_total
check_total-served a f (inl e) = ap (λ t. same_total t a.ciphertext_size) e
check_total-served a f (inr e) =
    let same : (a.ciphertext_size == a.ciphertext_size) ≡ true = ground arith in
    ap (λ t. same_total t a.ciphertext_size) e ∙ ap (λ b. require b truncated_object) same

pub complete_state :
    (a : AssetRow)
    → a.upload_state ≡ "complete"
    → require (str_eq a.upload_state "complete") integrity_error ≡ ok tt
complete_state a e = ap (λ s. require (str_eq s "complete") integrity_error) e

pub logged_lem :
    (log : Bool) (answer : Result (Unit {0})) → answer ≡ ok tt → logged_if log answer ≡ ok tt
logged_lem true answer e = e
logged_lem false answer e = refl

pub bind-eq :
    {A : Type 0} (m : Result A) (f : A → Result Bytes) (right : Result Bytes) (x : A)
    → m ≡ ok x
    → f x ≡ right
    → (m >>= f) ≡ right
bind-eq m f right x e h = ap (λ r. r >>= f) e ∙ h

-- the hashes that a read gets: the catalogue's, if it checks them
abbrev pub asked : Bool → Hashes → Hashes
asked true hashes = hashes
asked false hashes = λ i. none

pub both-served :
    (w : World) (o : ReadOpts) (sp : ChunkSpan) (f : Fetched) (hashes : Hashes)
    → w.fetch sp.c_start sp.c_end ≡ Answer.got f
    → w.chunk_hashes sp.first sp.last ≡ ok hashes
    → both w o sp ≡ ok (f, asked o.verify_hashes hashes)
unfolding both joined
both-served w o sp f hashes e h = elim (Bool-cases o.verify_hashes) [
  | inl v ↦ rw (v, e, h) refl
  | inr v ↦ rw (v, e) refl
]
