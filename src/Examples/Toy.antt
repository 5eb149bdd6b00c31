-- ===== src/Examples/Toy.antt =====
-- A toy cipher for experiments/client-keyed-objects/client/src: the tag is sixteen zeros, and the
-- digest tells the chunks of one object apart.
use supabase_lab.Common.{
  ℕ, suc, zero, ◌+◌, ◌-◌, ◌*◌, ◌≡◌, refl, sym, ap, ◌∙◌, inl, inr, none, some, false, List, [], ◌∷◌,
  ◌++◌, arith, length, length-append, take, drop, take-append, subarray, replicate, codes_equal,
  if◌then◌else◌, Bool-cases, min, length-replicate, min, length-subarray,
}
use supabase_lab.Envelope.{Bytes, ok, Crypto, plain_len, sha256_hex}
use supabase_lab.Envelope.Hex.{IsBytes}
use supabase_lab.Envelope.Upload.{AssetRow}
use supabase_lab.Envelope.Layout.{CryptoLaws, cipher_chunk}
use supabase_lab.Envelope.Read.{World, Answer, Hashes}
use supabase_lab.Envelope.Read.Guards.{codes_equal-eq}
use mathlib.Core.Option.{some-injective}
use supabase_lab.Envelope.Read.Loop.{plain_chunk}

abbrev pub zeros : ℕ → Bytes
zeros n = replicate n 0

abbrev first_chunk : Bytes
first_chunk = 7 ∷ zeros 16

abbrev tag_of : Bytes → ℕ
tag_of u = if codes_equal u first_chunk then 1 else if codes_equal u (zeros 16) then 2 else 0

abbrev digest : Bytes → Bytes
digest u = tag_of u ∷ zeros 31

abbrev pub toy : Crypto ℕ
toy = record {
  import_key = λ raw. some (length raw);
  encrypt = λ key iv ad plain. plain ++ zeros 16;
  decrypt = λ key iv ad ct. some (take (length ct - 16) ct);
  sha256 = digest;
  utf8 = λ s. 65 ∷ [];
}

take_plain : (plain : Bytes) → take (length (plain ++ zeros 16) - 16) (plain ++ zeros 16) ≡ plain
take_plain plain =
    take-append (length (plain ++ zeros 16) - 16) plain (zeros 16)
      (omega (arith, length-append plain (zeros 16), length-replicate {A = ℕ} 16 0))

zeros-IsBytes : (n : ℕ) → IsBytes (zeros n)
unfolding replicate
zeros-IsBytes zero = tt
zeros-IsBytes (suc n) = (omega arith, zeros-IsBytes n)

pub toy_laws : CryptoLaws toy
toy_laws = record {
  decrypt_encrypt = λ key iv ad plain. ap some (take_plain plain);
  length_encrypt = λ key iv ad plain.
      length-append plain (zeros 16) ∙ ap (λ n. length plain + n) (length-replicate {A = ℕ} 16 0);
  sha256_bytes = λ u. (ground arith, zeros-IsBytes 31);
  length_sha256 = λ u. ap suc (length-replicate {A = ℕ} 31 0);
}

-- an asset of one byte, stored whole
abbrev pub small : AssetRow
small = record {
  id = "a1";
  record_id = "r1";
  tenant_id = "t1";
  object_key = "t1/a1/data";
  plaintext_size = 1;
  chunk_size = 4;
  chunk_count = 1;
  ciphertext_size = 17;
  cipher = "aes-256-gcm";
  key_id = "k1";
  wrapped_dek = "w1";
  nonce_prefix = replicate 16 48;
  plaintext_sha256 = none;
  upload_state = "complete";
  upload_method = none;
  s3_upload_id = none;
  tus_url = none;
}

pub small_hashes : Hashes
small_hashes i = some (sha256_hex toy (cipher_chunk toy 3 small (7 ∷ []) i))

-- a storage that answers with other bytes than were asked for
abbrev pub hostile : World
hostile = record {
  asset = ok small;
  dek = ok (1 ∷ 2 ∷ 3 ∷ []);
  fetch =
      λ c_start c_end. Answer.got (record { bytes = zeros 17; status = 206; content_range = [] });
  chunk_hashes = λ f l. ok small_hashes;
  hashes_first = false;
  logged = ok tt;
}

nil_of_length : (xs : Bytes) → length xs ≡ 0 → xs ≡ []
nil_of_length [] h = refl
nil_of_length (x ∷ xs) h = absurd (omega (arith, h))

small_first : cipher_chunk toy 3 small (7 ∷ []) 0 ≡ first_chunk
unfolding cipher_chunk plain_chunk plain_len subarray take drop
small_first = refl

small_later : (i : ℕ) → cipher_chunk toy 3 small (7 ∷ []) (suc i) ≡ zeros 16
unfolding cipher_chunk plain_chunk plain_len
small_later i =
    ap (λ plain. plain ++ zeros 16)
      (nil_of_length (plain_chunk small (7 ∷ []) (suc i)) (
        omega (
          arith,
          length-subarray {A = ℕ} (7 ∷ []) (suc i * 4) (suc i * 4 + min 4 (1 - suc i * 4)),
        )))

head_of : Bytes → ℕ
head_of [] = 0
head_of (x ∷ xs) = x

tag_of-first : (ct : Bytes) → tag_of ct ≡ tag_of first_chunk → ct ≡ first_chunk
unfolding codes_equal replicate
tag_of-first ct e = elim (Bool-cases (codes_equal ct first_chunk)) [
  | inl h ↦ codes_equal-eq ct first_chunk h
  | inr h ↦ absurd (ground (arith, h, e))
]

tag_of-zeros : (ct : Bytes) → tag_of ct ≡ tag_of (zeros 16) → ct ≡ zeros 16
unfolding codes_equal replicate
tag_of-zeros ct e = elim (Bool-cases (codes_equal ct (zeros 16))) [
  | inl h ↦ codes_equal-eq ct (zeros 16) h
  | inr h ↦ absurd (ground (arith, h, e))
]

pub no_collision :
    (i : ℕ) (ct : Bytes)
    → digest ct ≡ digest (cipher_chunk toy 3 small (7 ∷ []) i)
    → ct ≡ cipher_chunk toy 3 small (7 ∷ []) i
unfolding head_of
no_collision zero ct e = tag_of-first ct (ap head_of e ∙ ap tag_of small_first) ∙ sym small_first
no_collision (suc i) ct e =
    tag_of-zeros ct (ap head_of e ∙ ap tag_of (small_later i)) ∙ sym (small_later i)

pub recorded :
    (hashes : Hashes) (i : ℕ) (want : List ℕ)
    → ok small_hashes ≡ ok hashes
    → hashes i ≡ some want
    → want ≡ sha256_hex toy (cipher_chunk toy 3 small (7 ∷ []) i)
unfolding small_hashes
recorded hashes i want e w =
    let same : small_hashes ≡ hashes = ground (arith, e) in
    some-injective _ _ (sym w ∙ ap (λ h. h i) (sym same))
