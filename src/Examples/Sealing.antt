-- ===== src/Examples/Sealing.antt =====
-- The encrypted objects of experiments/client-keyed-objects/client/src on a toy cipher.
use supabase_lab.Common.{
  ℕ, ◌+◌, ◌≡◌, refl, ap, inl, inr, none, some, true, false, List, [], ◌∷◌, ◌++◌, arith, drop,
  subarray, replicate, min, ◌⊎◌, min, leb,
}
use supabase_lab.Envelope.{
  Result, CkErrorCode, failed, Bytes, ok, ChunkSpan, span, hex, hex_digit, unhex, parse_byte,
  digit_of, is_blank, is_line_end, nonce, uint32_be, chunk_count, cipher_size, cipher_offset,
  plain_len, sha256_hex,
}
use supabase_lab.Envelope.Binding.{nonce-injective, aad-injective}
use supabase_lab.Envelope.Upload.{AssetRow, Encrypted}
use supabase_lab.Envelope.Layout.{IsClosed}
use supabase_lab.Envelope.Object.{IsRow, cipher_from, hash_rows, encrypt_range-object}
use supabase_lab.Envelope.Read.{World, Answer, Fetched, read_range, content_total, decimal_from}
use supabase_lab.Envelope.Needle.{new_counter, feed, feed_all, new_hits, scan, starts_with, tail_of}
use supabase_lab.Envelope.Needle.Stream.{feed_all-occurrences, occurrences}
use supabase_lab.Envelope.Windows.{CipherSource, slice}
use supabase_lab.Envelope.Windows.Chunks.{IsSound}
use supabase_lab.Envelope.Windows.Laws.{slice-encrypt_range}
use supabase_lab.Envelope.Read.Whole.{read_all, read_all-IsClosed}
use supabase_lab.Envelope.Read.Closed.{read_range-IsClosed}
use supabase_lab.Envelope.Read.RoundTrip.{read_range-encrypt_range}
use supabase_lab.Envelope.Read.Served.{hash_of}
use supabase_lab.Examples.Toy.{zeros, toy, toy_laws, small, hostile, no_collision, recorded}

read_range-IsClosed_example :
    IsClosed
      (read_range toy hostile (record { verify_hashes = true; log = true }) 0 1)
      (subarray (7 ∷ []) 0 1)
read_range-IsClosed_example =
    read_range-IsClosed toy toy_laws 3 small (7 ∷ []) hostile true 0 1 refl (omega arith) refl
      (λ dek e. ap some (ground (arith, e))) (λ f l hashes e i want w. recorded hashes i want e w)
      no_collision

abbrev pub five : Bytes
five = 1 ∷ 2 ∷ 3 ∷ 4 ∷ 5 ∷ []

-- an asset of five bytes in chunks of two
abbrev pub pages : AssetRow
pages = record {
  id = "a2";
  record_id = "r1";
  tenant_id = "t1";
  object_key = "t1/a2/data";
  plaintext_size = 5;
  chunk_size = 2;
  chunk_count = 3;
  ciphertext_size = 53;
  cipher = "aes-256-gcm";
  key_id = "k1";
  wrapped_dek = "w2";
  nonce_prefix = replicate 16 48;
  plaintext_sha256 = none;
  upload_state = "complete";
  upload_method = none;
  s3_upload_id = none;
  tus_url = none;
}

pub pages-IsRow : IsRow pages five
unfolding chunk_count cipher_size unhex parse_byte digit_of is_blank is_line_end replicate
pages-IsRow = record {
  sized = refl;
  positive = omega arith;
  counted = refl;
  stored = refl;
  prefixed = refl;
}

abbrev stored_pages : Encrypted
stored_pages = record {
  bytes = cipher_from toy 3 pages five 3 0;
  hashes = hash_rows toy 3 pages five 3 0;
}

abbrev ranged : ℕ → ℕ → Fetched
ranged c_start c_end = record {
  bytes = subarray stored_pages.bytes c_start (c_end + 1);
  status = 206;
  content_range = 47 ∷ 53 ∷ 51 ∷ [];
}

abbrev honest : World
honest = record {
  asset = ok pages;
  dek = ok (1 ∷ 2 ∷ 3 ∷ []);
  fetch = λ c_start c_end. Answer.got (ranged c_start c_end);
  chunk_hashes = λ f l. ok (hash_of stored_pages.hashes);
  hashes_first = false;
  logged = ok tt;
}

abbrev middle : ChunkSpan
middle = record { first = 0; last = 1; c_start = 0; c_end = 35 }

middle-span : span 1 4 5 2 ≡ ok middle
unfolding span cipher_offset plain_len
middle-span = refl

total_53 : content_total (47 ∷ 53 ∷ 51 ∷ []) ≡ some 53
unfolding content_total decimal_from
total_53 = refl

read_range-encrypt_range_example :
    read_range toy honest (record { verify_hashes = true; log = true }) 1 4 ≡ ok (subarray five 1 4)
read_range-encrypt_range_example =
    read_range-encrypt_range toy toy_laws 3 pages five stored_pages honest
      (record { verify_hashes = true; log = true }) 1 4 middle (ranged 0 35) (1 ∷ 2 ∷ 3 ∷ [])
      pages-IsRow refl (encrypt_range-object toy 3 pages five pages-IsRow) (omega arith)
      (omega arith) middle-span refl refl refl refl refl (inl (refl, refl)) (inr total_53) refl

hex_text : hex (255 ∷ 0 ∷ 26 ∷ []) ≡ 102 ∷ 102 ∷ 48 ∷ 48 ∷ 49 ∷ 97 ∷ []
unfolding hex hex_digit
hex_text = refl

fifth_nonce : nonce (zeros 8) 261 ≡ ok (zeros 8 ++ (0 ∷ 0 ∷ 1 ∷ 5 ∷ []))
unfolding nonce uint32_be replicate
fifth_nonce = refl

abbrev index : ℕ
index = 261

abbrev asset_bytes : Bytes
asset_bytes = 97 ∷ []

nonce-injective_example : index ≡ index
nonce-injective_example =
    nonce-injective (zeros 8) (zeros 8 ++ (0 ∷ 0 ∷ 1 ∷ 5 ∷ [])) 261 261 (omega arith) (omega arith)
      fifth_nonce fifth_nonce

aad-injective_example : (asset_bytes ≡ asset_bytes) × (index ≡ index) × (index ≡ index)
aad-injective_example =
    aad-injective asset_bytes asset_bytes index index index index (omega arith) (omega arith)
      (omega arith) (omega arith) refl

abbrev fresh : CipherSource
fresh = record { cache = []; sent = [] }

slice-encrypt_range_example :
    (st' : CipherSource) × (slice toy (λ sent rows. ok tt) 3 pages five 10 40 fresh
      ≡ some (
          ok (
            record {
              value = subarray stored_pages.bytes 10 (min 40 53);
              done = leb 53 (min 40 53);
            },
            st',
          )))
    × IsSound toy toy_laws 3 pages five pages-IsRow st'
slice-encrypt_range_example =
    slice-encrypt_range toy toy_laws 3 pages five pages-IsRow (λ sent rows. ok tt) stored_pages 10
      40 fresh (λ sent rows. refl) (encrypt_range-object toy 3 pages five pages-IsRow)
      (record { caches = tt; sends = tt }) (omega arith)

read_all-IsClosed_example :
    (r : Result (List ℕ)) × (read_all toy hostile true 8 ≡ some r)
    × (((e : CkErrorCode) × (r ≡ failed e))
        ⊎ ((r ≡ ok (sha256_hex toy (7 ∷ []))) × (none ≡ some (sha256_hex toy (7 ∷ [])))))
read_all-IsClosed_example =
    read_all-IsClosed toy toy_laws 3 small (7 ∷ []) hostile 8 refl (omega arith) (omega arith) refl
      (λ dek e. ap some (ground (arith, e))) (λ f l hashes e i want w. recorded hashes i want e w)
      no_collision

-- a needle that straddles two windows, and overlaps itself
abbrev cut : List Bytes
cut = (7 ∷ 1 ∷ 2 ∷ []) ∷ (1 ∷ []) ∷ (2 ∷ 1 ∷ 3 ∷ []) ∷ []

found : (feed_all (1 ∷ 2 ∷ 1 ∷ []) cut new_counter).hits ≡ 2
unfolding feed_all feed new_hits scan starts_with tail_of drop new_counter
found = refl

feed_all-occurrences_example :
    (feed_all (1 ∷ 2 ∷ 1 ∷ []) cut new_counter).hits
    ≡ occurrences (1 ∷ 2 ∷ 1 ∷ []) (7 ∷ 1 ∷ 2 ∷ 1 ∷ 2 ∷ 1 ∷ 3 ∷ [])
feed_all-occurrences_example = feed_all-occurrences 1 (2 ∷ 1 ∷ []) cut
