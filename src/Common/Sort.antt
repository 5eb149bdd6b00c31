-- ===== src/Common/Sort.antt =====
-- `Array.prototype.sort`: a stable sort by a test "not after".
use mathlib.Core.Path.{◌≡◌, refl, ap, ◌∙◌}
use mathlib.Core.Logic.{◌⊎◌, inl, inr}
use mathlib.Core.Bool.{Bool, true, ◌||◌}
use mathlib.Core.List.{List, [], ◌∷◌, Perm}
use mathlib.Core.List.Perm
use native.Mathlib.Omega.{arith}
use supabase_lab.Common.Tests.{if◌then◌else◌, Bool-cases}
use supabase_lab.Common.Lists.{All, AllPairs, some_of, filter, length}

module _ {ℓ} {A : Type ℓ} (le : A → A → Bool) where
  unfoldable pub insert_sorted : A → List A → List A
  insert_sorted x [] = x ∷ []
  insert_sorted x (y ∷ ys) =
      let rest = insert_sorted x ys in if le x y then x ∷ y ∷ ys else y ∷ rest

  unfoldable pub sort : List A → List A
  unfolding insert_sorted
  sort [] = []
  sort (x ∷ xs) = insert_sorted x (sort xs)

  insert_sorted-perm : (x : A) (ys : List A) → Perm (insert_sorted x ys) (x ∷ ys)
  unfolding insert_sorted
  insert_sorted-perm x [] = Perm.refl (x ∷ [])
  insert_sorted-perm x (y ∷ ys) = elim (Bool-cases (le x y)) [
    | inl e ↦ rw e (Perm.refl (x ∷ y ∷ ys))
    | inr e ↦ rw e (Perm.trans (Perm.cons y (insert_sorted-perm x ys)) (Perm.swap x y ys))
  ]

  pub sort-perm : (xs : List A) → Perm (sort xs) xs
  unfolding sort
  sort-perm [] = Perm.nil
  sort-perm (x ∷ xs) = Perm.trans (insert_sorted-perm x (sort xs)) (Perm.cons x (sort-perm xs))

  module _ {κ} (P : A → Type κ) where
    All-of_insert_sorted : (x : A) (ys : List A) → All P (insert_sorted x ys) → P x × All P ys
    unfolding insert_sorted
    All-of_insert_sorted x [] h = h
    All-of_insert_sorted x (y ∷ ys) h = elim (Bool-cases (le x y)) [
      | inl e ↦ rw e at h
      | inr e ↦
          let later : P y × All P (insert_sorted x ys) = rw e at h in
          let (px, pys) = All-of_insert_sorted x ys later.1 in (px, (later.0, pys))
    ]

    All-insert : (x : A) (ys : List A) → P x → All P ys → All P (insert_sorted x ys)
    unfolding insert_sorted
    All-insert x [] px h = (px, h)
    All-insert x (y ∷ ys) px h = elim (Bool-cases (le x y)) [
      | inl e ↦ rw e (px, h)
      | inr e ↦ rw e (h.0, All-insert x ys px h.1)
    ]

    pub All-sort : (xs : List A) → All P xs → All P (sort xs)
    unfolding sort
    All-sort [] h = tt
    All-sort (x ∷ xs) h = All-insert x (sort xs) h.0 (All-sort xs h.1)

    -- what holds of every element of the sorted list holds of every element of the list
    pub All-of_sort : (xs : List A) → All P (sort xs) → All P xs
    unfolding sort
    All-of_sort [] h = tt
    All-of_sort (x ∷ xs) h =
        let (px, rest) = All-of_insert_sorted x (sort xs) h in (px, All-of_sort xs rest)

  module _ (p : A → Bool) where
    some_of-insert_sorted :
        (x : A) (ys : List A) → some_of p (insert_sorted x ys) ≡ some_of p (x ∷ ys)
    unfolding insert_sorted
    some_of-insert_sorted x [] = refl
    some_of-insert_sorted x (y ∷ ys) = ground (arith, some_of-insert_sorted x ys)

    -- sorting does not matter to whether some element passes a test
    pub some_of-sort : (xs : List A) → some_of p (sort xs) ≡ some_of p xs
    unfolding sort
    some_of-sort [] = refl
    some_of-sort (x ∷ xs) =
        some_of-insert_sorted x (sort xs) ∙ ap (λ rest. p x || rest) (some_of-sort xs)

  module _ (p : A → Bool) where
    length-filter-insert_sorted :
        (x : A) (ys : List A) → length (filter p (insert_sorted x ys)) ≡ length (filter p (x ∷ ys))
    unfolding insert_sorted
    length-filter-insert_sorted x [] = refl
    length-filter-insert_sorted x (y ∷ ys) = ground (arith, length-filter-insert_sorted x ys)

    -- sorting does not matter to how many elements pass a test
    pub length-filter-sort : (xs : List A) → length (filter p (sort xs)) ≡ length (filter p xs)
    unfolding sort
    length-filter-sort [] = refl
    length-filter-sort (x ∷ xs) =
        length-filter-insert_sorted x (sort xs) ∙ ground (arith, length-filter-sort xs)

  -- every element of the list is not after any later one
  abbrev pub IsOrdered : List A → Type ℓ
  IsOrdered = AllPairs (λ x y. le x y ≡ true)

  module _ (total : (x y : A) → (le x y ≡ true) ⊎ (le y x ≡ true))
      (trans : (x y z : A) → le x y ≡ true → le y z ≡ true → le x z ≡ true) where
    All-insert_sorted :
        (w x : A) (ys : List A)
        → le w x ≡ true
        → All (λ y. le w y ≡ true) ys
        → All (λ y. le w y ≡ true) (insert_sorted x ys)
    unfolding insert_sorted
    All-insert_sorted w x [] h all = (h, all)
    All-insert_sorted w x (y ∷ ys) h all = ground (arith, All-insert_sorted w x ys h)

    All-trans :
        (x y : A) (ys : List A)
        → le x y ≡ true
        → All (λ z. le y z ≡ true) ys
        → All (λ z. le x z ≡ true) ys
    All-trans x y [] h all = tt
    All-trans x y (z ∷ zs) h all = (trans x y z h all.0, All-trans x y zs h all.1)

    insert_sorted-IsOrdered : (x : A) (ys : List A) → IsOrdered ys → IsOrdered (insert_sorted x ys)
    unfolding insert_sorted
    insert_sorted-IsOrdered x [] o = (tt, tt)
    insert_sorted-IsOrdered x (y ∷ ys) o = elim (Bool-cases (le x y)) [
      | inl e ↦ rw e ((e, All-trans x y ys e o.0), o)
      | inr e ↦ rw e (
        All-insert_sorted y x ys (ground (arith, total x y)) o.0,
        insert_sorted-IsOrdered x ys o.1,
      )
    ]

    pub sort-IsOrdered : (xs : List A) → IsOrdered (sort xs)
    unfolding sort
    sort-IsOrdered [] = tt
    sort-IsOrdered (x ∷ xs) = insert_sorted-IsOrdered x (sort xs) (sort-IsOrdered xs)
