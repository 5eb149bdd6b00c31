-- ===== src/Retry/Attempts.antt =====
-- experiments/client-retries/lib/policy.ts: the attempts of a hedged read and their controllers.

use supabase_lab.Common.{
  ℕ, suc, ◌≤◌, ◌≡◌, refl, ap, ◌⊎◌, inl, inr, Bool, true, List, [], ◌∷◌, ◌++◌, map, length, ◌==◌,
  Bool-cases, Memᴰ, All, arith,
}
use supabase_lab.Retry.{abort_others, without_attempt}

-- attempt `n` is one of those that were started
abbrev pub IsStarted : ℕ → ℕ → Type 0
IsStarted started n = (1 ≤ n) × (n ≤ started)

-- the controllers from entry `i` on have aborted, but for that of attempt `n`
abbrev pub AreAbortedBut : ℕ → ℕ → List Bool → Type 0
AreAbortedBut n i [] = Unit
AreAbortedBut n i (c ∷ cs) = ((suc i ≡ n) ⊎ (c ≡ true)) × AreAbortedBut n (suc i) cs

pub length-without_attempt :
    (n : ℕ) (ms : List ℕ) → Memᴰ n ms → suc (length (without_attempt n ms)) ≡ length ms
unfolding without_attempt
length-without_attempt n [] m = elim m [ ]
length-without_attempt n (k ∷ ms) (Memᴰ.head e) = ground (arith, e)
length-without_attempt n (k ∷ ms) (Memᴰ.tail m) = ground (arith, length-without_attempt n ms m)

pub All-without_attempt :
    (P : ℕ → Type 0) (n : ℕ) (ms : List ℕ) → All P ms → All P (without_attempt n ms)
unfolding without_attempt
All-without_attempt P n [] h = tt
All-without_attempt P n (k ∷ ms) h = elim (Bool-cases (k == n)) [
  | inl e ↦ rw e h.1
  | inr e ↦ rw e (h.0, All-without_attempt P n ms h.1)
]

pub length-abort_others : (n i : ℕ) (cs : List Bool) → length (abort_others n i cs) ≡ length cs
unfolding abort_others
length-abort_others n i [] = refl
length-abort_others n i (c ∷ cs) = ap suc (length-abort_others n (suc i) cs)

pub abort_others-AreAbortedBut :
    (n i : ℕ) (cs : List Bool) → AreAbortedBut n i (abort_others n i cs)
unfolding abort_others
abort_others-AreAbortedBut n i [] = tt
abort_others-AreAbortedBut n i (c ∷ cs) = (ground arith, abort_others-AreAbortedBut n (suc i) cs)

pub abort_all-AreAbortedBut : (n i : ℕ) (cs : List Bool) → AreAbortedBut n i (map (λ _. true) cs)
abort_all-AreAbortedBut n i [] = tt
abort_all-AreAbortedBut n i (c ∷ cs) = (inr refl, abort_all-AreAbortedBut n (suc i) cs)

pub length-abort_all : (cs : List Bool) → length (map {B = Bool} (λ _. true) cs) ≡ length cs
length-abort_all [] = refl
length-abort_all (c ∷ cs) = ap suc (length-abort_all cs)

pub more-IsStarted : (n m : ℕ) (ms : List ℕ) → n ≤ m → All (IsStarted n) ms → All (IsStarted m) ms
more-IsStarted n m [] h all = tt
more-IsStarted n m (k ∷ ms) h all =
    ((all.0.0, omega (arith, h, all.0.1)), more-IsStarted n m ms h all.1)

pub All-snoc : (P : ℕ → Type 0) (ms : List ℕ) (k : ℕ) → All P ms → P k → All P (ms ++ k ∷ [])
All-snoc P [] k all p = (p, tt)
All-snoc P (m ∷ ms) k all p = (all.0, All-snoc P ms k all.1 p)
