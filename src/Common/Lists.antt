-- ===== src/Common/Lists.antt =====
-- Lists measured by native numbers and filtered by Boolean tests.
use Prim.Native.Nat.{ℕ, suc, ◌+◌, ◌≤◌}
use mathlib.Core.Path.{◌≡◌, refl, ap}
use mathlib.Core.Logic.{◌↔◌}
use mathlib.Core.Logic.{inl, inr}
use mathlib.Core.Bool.{Bool, true, false, ◌||◌, ◌&&◌}
use mathlib.Core.List.Memᴰ
use mathlib.Core.List.{List, [], ◌∷◌, ◌++◌, Memᴰ}
use native.Mathlib.Omega.{arith}
use supabase_lab.Common.Tests.{if◌then◌else◌, Bool-cases}

module _ {ℓ} {A : Type ℓ} where
  abbrev pub length : List A → ℕ
  length [] = 0
  length (x ∷ xs) = suc (length xs)

  pub length-append : (xs ys : List A) → length (xs ++ ys) ≡ length xs + length ys
  length-append [] ys = omega arith
  length-append (x ∷ xs) ys = omega (arith, length-append xs ys)

  abbrev pub filter : (A → Bool) → List A → List A
  filter p [] = []
  filter p (x ∷ xs) = let rest = filter p xs in if p x then x ∷ rest else rest

  abbrev pub some_of : (A → Bool) → List A → Bool
  some_of p [] = false
  some_of p (x ∷ xs) = p x || some_of p xs

  abbrev pub every : (A → Bool) → List A → Bool
  every p [] = true
  every p (x ∷ xs) = p x && every p xs

  abbrev pub All {κ} : (A → Type κ) → List A → Type κ
  All P [] = Unit
  All P (x ∷ xs) = P x × All P xs

  -- every element stands in the relation to all later ones
  abbrev pub AllPairs {κ} : (A → A → Type κ) → List A → Type (ℓ ⊔ κ)
  AllPairs R [] = Unit
  AllPairs R (x ∷ xs) = All (R x) xs × AllPairs R xs

module _ {ℓ κ} {A : Type ℓ} (P : A → Type κ) where
  pub All-at_mem : (a : A) (xs : List A) → All P xs → Memᴰ a xs → P a
  All-at_mem a [] h m = elim m [ ]
  All-at_mem a (x ∷ xs) h (Memᴰ.head same) = rw same h.0
  All-at_mem a (x ∷ xs) h (Memᴰ.tail m) = All-at_mem a xs h.1 m

  pub All-of_mem : (xs : List A) → ((a : A) → Memᴰ a xs → P a) → All P xs
  All-of_mem [] h = tt
  All-of_mem (x ∷ xs) h = (h x (Memᴰ.head refl), All-of_mem xs (λ a m. h a (Memᴰ.tail m)))

module _ {ℓ} {A : Type ℓ} (p : A → Bool) where
  pub of_mem-filter : (a : A) (xs : List A) → Memᴰ a (filter p xs) → Memᴰ a xs × (p a ≡ true)
  of_mem-filter a [] m = elim m [ ]
  of_mem-filter a (x ∷ xs) m = elim (Bool-cases (p x)) [
    | inl e ↦ elim (Memᴰ.cases_cons (rw e at m)) [
      | inl same ↦ (Memᴰ.head same, rw same e)
      | inr later ↦ let (m', h) = of_mem-filter a xs later in (Memᴰ.tail m', h)
    ]
    | inr e ↦ let (m', h) = of_mem-filter a xs (rw e at m) in (Memᴰ.tail m', h)
  ]

  pub mem-filter : (a : A) (xs : List A) → Memᴰ a xs → p a ≡ true → Memᴰ a (filter p xs)
  mem-filter a [] m h = elim m [ ]
  mem-filter a (x ∷ xs) (Memᴰ.head same) h = rw (← same, h) (Memᴰ.head refl)
  mem-filter a (x ∷ xs) (Memᴰ.tail m) h = elim (Bool-cases (p x)) [
    | inl e ↦ rw e (Memᴰ.tail (mem-filter a xs m h))
    | inr e ↦ rw e (mem-filter a xs m h)
  ]

  pub some_of_mem : (a : A) (xs : List A) → Memᴰ a xs → p a ≡ true → some_of p xs ≡ true
  some_of_mem a [] m h = elim m [ ]
  some_of_mem a (x ∷ xs) (Memᴰ.head same) h = rw (← same, h)
  some_of_mem a (x ∷ xs) (Memᴰ.tail m) h = ground (arith, some_of_mem a xs m h)

  pub mem_of_some_of : (xs : List A) → some_of p xs ≡ true → (a : A) × Memᴰ a xs × (p a ≡ true)
  mem_of_some_of [] h = cc
  mem_of_some_of (x ∷ xs) h = elim (Bool-cases (p x)) [
    | inl e ↦ (x, Memᴰ.head refl, e)
    | inr e ↦ let (a, m, k) = mem_of_some_of xs (rw e at h) in (a, Memᴰ.tail m, k)
  ]

  pub filter-eq_self : (xs : List A) → ((a : A) → Memᴰ a xs → p a ≡ true) → filter p xs ≡ xs
  filter-eq_self [] h = refl
  filter-eq_self (x ∷ xs) h =
      rw (h x (Memᴰ.head refl)) (ap (◌∷◌ x) (filter-eq_self xs (λ a m. h a (Memᴰ.tail m))))

  pub filter-filter :
      (q : A → Bool) (xs : List A)
      → ((a : A) → q a ≡ true → p a ≡ true)
      → filter q (filter p xs) ≡ filter q xs
  filter-filter q [] h = refl
  filter-filter q (x ∷ xs) h = ground (arith, h x, filter-filter q xs h)

  pub filter-eq-nil : (xs : List A) → ((a : A) → Memᴰ a xs → p a ≡ false) → filter p xs ≡ []
  filter-eq-nil [] h = refl
  filter-eq-nil (x ∷ xs) h = rw (h x (Memᴰ.head refl)) (filter-eq-nil xs (λ a m. h a (Memᴰ.tail m)))

  pub not-mem-filter-nil : (xs : List A) (a : A) → filter p xs ≡ [] → Memᴰ a xs → p a ≡ false
  not-mem-filter-nil xs a e m = elim (Bool-cases (p a)) [
    | inl h ↦ elim (rw e at (mem-filter a xs m h)) [ ]
    | inr h ↦ h
  ]

  pub length-filter-le : (xs : List A) → length (filter p xs) ≤ length xs
  length-filter-le [] = omega arith
  length-filter-le (x ∷ xs) = ground (arith, length-filter-le xs)

-- `xs.includes(a)` by a test of equality
module _ {ℓ} {A : Type ℓ} (same : A → A → Bool) where
  abbrev pub includes : A → List A → Bool
  includes a [] = false
  includes a (x ∷ xs) = same a x || includes a xs

  module _ (same_iff : (a b : A) → (same a b ≡ true) ↔ (a ≡ b)) where
    pub mem_of_includes : (a : A) (xs : List A) → includes a xs ≡ true → Memᴰ a xs
    mem_of_includes a [] h = cc
    mem_of_includes a (x ∷ xs) h = elim (Bool-cases (same a x)) [
      | inl e ↦ Memᴰ.head ((same_iff a x).0 e)
      | inr e ↦ Memᴰ.tail (mem_of_includes a xs (rw e at h))
    ]

    pub includes_of_mem : (a : A) (xs : List A) → Memᴰ a xs → includes a xs ≡ true
    includes_of_mem a [] m = elim m [ ]
    includes_of_mem a (x ∷ xs) (Memᴰ.head e) = rw ((same_iff a x).1 e)
    includes_of_mem a (x ∷ xs) (Memᴰ.tail m) = ground (arith, includes_of_mem a xs m)
