-- ===== src/Envelope/Read/Guards.antt =====
-- experiments/client-keyed-objects/client/src/read.ts: the steps around the decryption that throw
-- or go on.
use supabase_lab.Common.{
  ℕ, ◌≡◌, refl, inl, inr, Option, none, some, Bool, true, List, [], ◌∷◌, length, arith, ◌==◌,
  Bool-cases, not, codes_equal,
}
use supabase_lab.Envelope.{
  Bytes, Result, ok, failed, ◌>>=◌, Crypto, import_dek, result_of, chunk_hash_mismatch,
}
use supabase_lab.Envelope.Layout.{IsClosed, bind-IsClosed}
use supabase_lab.Envelope.Read.{Answer, Fetched, joined, Hashes, require}

pub codes_equal-eq : (s t : List ℕ) → codes_equal s t ≡ true → s ≡ t
unfolding codes_equal
codes_equal-eq [] [] h = refl
codes_equal-eq [] (y ∷ t) h = absurd (ground (arith, h))
codes_equal-eq (x ∷ s) [] h = absurd (ground (arith, h))
codes_equal-eq (x ∷ s) (y ∷ t) h = ground (arith, h, codes_equal-eq s t)

pub checked :
    (recorded : Option (List ℕ)) (digest : List ℕ) (t : Unit {0})
    → (do
      want ← result_of chunk_hash_mismatch recorded
      _ ← require (not (length want == 0)) chunk_hash_mismatch
      require (codes_equal digest want) chunk_hash_mismatch)
      ≡ ok t
    → (want : List ℕ) × (recorded ≡ some want) × (digest ≡ want)
checked none digest t e = absurd (ground (arith, e))
checked (some want) digest t e = elim (Bool-cases (length want == 0)) [
  | inl h ↦ absurd (ground (arith, rw h at e))
  | inr h ↦
      let e' : require (codes_equal digest want) chunk_hash_mismatch ≡ ok t = rw h at e in
      elim (Bool-cases (codes_equal digest want)) [
        | inl k ↦ (want, refl, codes_equal-eq digest want k)
        | inr k ↦ absurd (ground (arith, rw k at e'))
      ]
]

pub joined-hashes :
    (f : Answer) (hs : Result Hashes) (b : Bool) (answers : Fetched × Hashes)
    → joined f hs b ≡ ok answers
    → hs ≡ ok answers.1
unfolding joined
joined-hashes (Answer.got f) (ok hs) b answers e = ground (arith, e)
joined-hashes (Answer.got f) (failed x) b answers e = absurd (ground (arith, e))
joined-hashes (Answer.refused r) (ok hs) b answers e = absurd (ground (arith, e))
joined-hashes (Answer.refused r) (failed x) b answers e = absurd (ground (arith, e))

pub ok-injective : {A : Type 0} (x y : A) → ok x ≡ ok y → x ≡ y
ok-injective x y e = ground (arith, e)

pub same_pair :
    {A B : Type 0} {x x' : A} {y y' : B} → x ≡ x' → y ≡ y' → ◌≡◌ {A = A × B} (x, y) (x', y')
same_pair p q = λ i. (p i, q i)

pub import_dek-key :
    {Key : Type 0} (crypto : Crypto Key) (dek : Bytes) (key k : Key)
    → crypto.import_key dek ≡ some key
    → import_dek crypto dek ≡ ok k
    → k ≡ key
unfolding import_dek
import_dek-key crypto dek key k h e = ground (arith, h, e)

pub logged-IsClosed :
    (r : Result Bytes) (logged : Result (Unit {0})) {right : Bytes}
    → IsClosed r right
    → IsClosed (r >>= λ plain. logged >>= λ _. ok plain) right
logged-IsClosed r logged {right} (inl bad) = inl (bad.0, rw bad.1 refl)
logged-IsClosed r logged {right} (inr good) =
    rw good (bind-IsClosed logged _ right (λ _ _. inr refl))
