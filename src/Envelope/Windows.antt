-- ===== src/Envelope/Windows.antt =====
-- experiments/client-keyed-objects/client/src/upload.ts: `CipherSource`, the windows of the
-- ciphertext that a resumable upload asks for. The catalogue answers each `upsertChunks` from the
-- hashes that it was sent before and those of the call; if it refuses, the window is not read.
pub mod Chunks
pub mod Laws
use supabase_lab.Common.{
  ℕ, zero, suc, ◌+◌, ◌-◌, ◌*◌, ◌/◌, min, Option, none, some, Bool, true, false, not, List, [], ◌∷◌,
  ◌++◌, length, filter, leb, ltb, ◌==◌, if◌then◌else◌, subarray, replicate, set_at,
}
use supabase_lab.Envelope.{
  Bytes, Result, ok, failed, ◌>>=◌, Crypto, cipher_offset, range_error, result_of,
}
use supabase_lab.Envelope.Upload.{AssetRow, HashRow, Encrypted, encrypt_range}

-- the cached chunks and the hashes that were sent to the catalogue
pub record CipherSource : Type 0 where
  pub cache : List (ℕ × Bytes)
  pub sent : List HashRow

unfoldable pub cached : ℕ → List (ℕ × Bytes) → Option Bytes
cached i [] = none
cached i (entry ∷ rest) = let later = cached i rest in if entry.0 == i then some entry.1 else later

-- the cache without the chunks before `i - 1`
unfoldable pub kept : ℕ → List (ℕ × Bytes) → List (ℕ × Bytes)
kept i cache = filter (λ entry. not (ltb (entry.0 + 1) i)) cache

pub record Slice : Type 0 where
  pub value : Bytes
  pub done : Bool

-- an exception ends a loop
abbrev pub or_thrown : {A B : Type 0} → Result A → (A → Option (Result B)) → Option (Result B)
or_thrown (ok x) f = f x
or_thrown (failed e) f = some (failed e)

-- what `slice` returns of what its loop comes to
abbrev pub finished :
    Bool → Option (Result (Bytes × CipherSource)) → Option (Result (Slice × CipherSource))
finished done none = none
finished done (some (failed e)) = some (failed e)
finished done (some (ok r)) = some (ok (record { value = r.0; done = done }, r.1))

abbrev pub Catalogue : Type 0
Catalogue = List HashRow → List HashRow → Result (Unit {0})

module _ {Key : Type 0} (crypto : Crypto Key) (upsert : Catalogue) (key : Key) (a : AssetRow)
    (source : Bytes) where
  -- a chunk that is not cached is encrypted, its hash sent, and then cached
  unfoldable pub chunk_of : Option Bytes → ℕ → CipherSource → Result (Bytes × CipherSource)
  unfolding encrypt_range kept
  chunk_of (some bytes) i st = ok (bytes, st)
  chunk_of none i st = do
    e ← encrypt_range crypto key a source i i
    _ ← upsert st.sent e.hashes
    ok (
      e.bytes,
      record { cache = kept i (st.cache ++ (i, e.bytes) ∷ []); sent = st.sent ++ e.hashes },
    )

  unfoldable pub chunk : ℕ → CipherSource → Result (Bytes × CipherSource)
  unfolding chunk_of cached
  chunk i st = chunk_of (cached i st.cache) i st

  -- the loop from `pos` to `end`, and `none` when it still runs after as many rounds as are given
  unfoldable pub slice_from :
      ℕ → ℕ → ℕ → ℕ → Bytes → CipherSource → Option (Result (Bytes × CipherSource))
  unfolding chunk cipher_offset subarray set_at
  slice_from zero start end pos out st = if ltb pos end then none else some (ok (out, st))
  slice_from (suc rounds) start end pos out st =
      let i = pos / (a.chunk_size + 16) in
      if ltb pos end
      then or_thrown (chunk i st) (λ (c : Bytes × CipherSource).
        let off = pos - cipher_offset i a.chunk_size in
        let n = min (length c.0 - off) (end - pos) in
        or_thrown (result_of range_error (set_at out (subarray c.0 off (off + n)) (pos - start)))
          (λ out'. slice_from rounds start end (pos + n) out' c.1))
      else some (ok (out, st))

  -- every round adds a byte at least, so that the window's length is rounds enough
  unfoldable pub slice : ℕ → ℕ → CipherSource → Option (Result (Slice × CipherSource))
  unfolding slice_from replicate
  slice start stop st =
      let end = min stop a.ciphertext_size in
      finished (leb a.ciphertext_size end)
        (slice_from (end - start) start end start (replicate (end - start) 0) st)
