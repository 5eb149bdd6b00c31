-- ===== src/MergedRead/Newest.antt =====
-- experiments/cross-project-auth/lib/merge.ts: the first rows of a sorted list, and those of several
-- lists put together. These laws hold of any stable sort by a total order.
use supabase_lab.Common.{
  ℕ, zero, suc, ◌≤◌, ◌≡◌, refl, sym, ap, ◌∙◌, ◌⊎◌, inl, inr, Bool, true, false, List, [], ◌∷◌, ◌++◌,
  map, All, take, insert_sorted, sort, IsOrdered, sort-IsOrdered, if◌then◌else◌, Bool-cases, arith,
}

-- the lists one after the other
unfoldable pub concat : {A : Type 0} → List (List A) → List A
concat [] = []
concat (xs ∷ rest) = xs ++ concat rest

module _ {A : Type 0} (le : A → A → Bool) where
  -- the first rows, once they are sorted
  unfoldable pub newest : ℕ → List A → List A
  unfolding take sort
  newest limit rows = take limit (sort le rows)

  -- every element of the first list goes into the second
  abbrev insert_all : List A → List A → List A
  insert_all [] acc = acc
  insert_all (x ∷ xs) acc = insert_sorted le x (insert_all xs acc)

  -- `x` and then what `rest` gives, behind the elements of the list that are before `x`
  abbrev into : A → (List A → List A) → List A → List A
  into x rest [] = x ∷ rest []
  into x rest (b ∷ acc) =
      let later = into x rest acc in if le x b then x ∷ rest (b ∷ acc) else b ∷ later

  abbrev merge : List A → List A → List A
  merge [] acc = acc
  merge (x ∷ xs) acc = into x (merge xs) acc

  sort-append : (xs ys : List A) → sort le (xs ++ ys) ≡ insert_all xs (sort le ys)
  unfolding sort
  sort-append [] ys = refl
  sort-append (x ∷ xs) ys = ap (insert_sorted le x) (sort-append xs ys)

  sort-ordered : (xs : List A) → IsOrdered le xs → sort le xs ≡ xs
  unfolding sort insert_sorted
  sort-ordered [] o = refl
  sort-ordered (x ∷ []) o = refl
  sort-ordered (x ∷ y ∷ ys) o = ap (insert_sorted le x) (sort-ordered (y ∷ ys) o.1) ∙ rw o.0.0 refl

  take-All : (P : A → Type 0) (k : ℕ) (xs : List A) → All P xs → All P (take k xs)
  unfolding take
  take-All P zero xs h = tt
  take-All P (suc k) [] h = tt
  take-All P (suc k) (x ∷ xs) h = (h.0, take-All P k xs h.1)

  take-IsOrdered : (k : ℕ) (xs : List A) → IsOrdered le xs → IsOrdered le (take k xs)
  unfolding take
  take-IsOrdered zero xs o = tt
  take-IsOrdered (suc k) [] o = tt
  take-IsOrdered (suc k) (x ∷ xs) o =
      (take-All (λ y. le x y ≡ true) k xs o.0, take-IsOrdered k xs o.1)

  take-take_le : (k n : ℕ) (xs : List A) → k ≤ n → take k (take n xs) ≡ take k xs
  unfolding take
  take-take_le zero n xs h = refl
  take-take_le (suc k) zero xs h = absurd (omega (arith, h))
  take-take_le (suc k) (suc n) [] h = refl
  take-take_le (suc k) (suc n) (x ∷ xs) h = ap (◌∷◌ x) (take-take_le k n xs (omega (arith, h)))

  -- the first rows of a merge are made of the first rows of the two lists
  take-merge :
      (k m n : ℕ) (xs ys : List A)
      → k ≤ m
      → k ≤ n
      → take k (merge xs ys) ≡ take k (merge (take m xs) (take n ys))
  unfolding take
  take-merge zero m n xs ys h h' = refl
  take-merge (suc k) zero n xs ys h h' = absurd (omega (arith, h))
  take-merge (suc k) (suc m) zero xs ys h h' = absurd (omega (arith, h'))
  take-merge (suc k) (suc m) (suc n) [] ys h h' = sym (take-take_le (suc k) (suc n) ys h')
  take-merge (suc k) (suc m) (suc n) (x ∷ xs) [] h h' =
      ap (◌∷◌ x) (take-merge k m (suc n) xs [] (omega (arith, h)) (omega (arith, h')))
  take-merge (suc k) (suc m) (suc n) (x ∷ xs) (y ∷ ys) h h' = elim (Bool-cases (le x y)) [
    | inl e ↦
        let rest = take-merge k m (suc n) xs (y ∷ ys) (omega (arith, h)) (omega (arith, h')) in
        rw e (ap (◌∷◌ x) rest)
    | inr e ↦
        let rest = take-merge k (suc m) n (x ∷ xs) ys (omega (arith, h)) (omega (arith, h')) in
        rw e (ap (◌∷◌ y) rest)
  ]

  merge-nil : (xs : List A) → merge xs [] ≡ xs
  merge-nil [] = refl
  merge-nil (x ∷ xs) = ap (◌∷◌ x) (merge-nil xs)

  insert-first :
      (x : A) (ys : List A) → All (λ y. le x y ≡ true) ys → insert_sorted le x ys ≡ x ∷ ys
  unfolding insert_sorted
  insert-first x [] h = refl
  insert-first x (y ∷ ys) h = rw h.0 refl

  module _ (total : (x y : A) → (le x y ≡ true) ⊎ (le y x ≡ true))
      (trans : (x y z : A) → le x y ≡ true → le y z ≡ true → le x z ≡ true) where
    insert-merge :
        (x : A) (xs ys : List A)
        → All (λ y. le x y ≡ true) xs
        → insert_sorted le x (merge xs ys) ≡ merge (x ∷ xs) ys
    unfolding insert_sorted
    insert-merge x xs [] h =
        ap (insert_sorted le x) (merge-nil xs)
        ∙ insert-first x xs h
        ∙ ap (◌∷◌ x) (sym (merge-nil xs))
    insert-merge x [] (y ∷ ys) h = ground (arith, insert-merge x [] ys h)
    insert-merge x (x' ∷ xs) (y ∷ ys) h =
        let rest = insert-merge x (x' ∷ xs) ys h in
        elim (Bool-cases (le x' y)) [
          | inl e ↦ let near = trans x x' y h.0 e in rw (e, h.0, near) refl
          | inr e ↦ elim (Bool-cases (le x y)) [
            | inl e' ↦ rw (e, e') refl
            | inr e' ↦ rw (e, e') (ap (◌∷◌ y) rest)
          ]
        ]

    insert_all-merge : (xs ys : List A) → IsOrdered le xs → insert_all xs ys ≡ merge xs ys
    insert_all-merge [] ys o = refl
    insert_all-merge (x ∷ xs) ys o =
        ap (insert_sorted le x) (insert_all-merge xs ys o.1) ∙ insert-merge x xs ys o.0

    insert_comm :
        (x y : A) (zs : List A)
        → le x y ≡ false
        → insert_sorted le y (insert_sorted le x zs) ≡ insert_sorted le x (insert_sorted le y zs)
    unfolding insert_sorted
    insert_comm x y [] h = ground (arith, h, total x y)
    insert_comm x y (z ∷ zs) h =
        ground (arith, h, total x y, trans x z y, total y z, trans y x z, insert_comm x y zs h)

    insert_all-insert :
        (x : A) (xs ys : List A)
        → insert_all (insert_sorted le x xs) ys ≡ insert_sorted le x (insert_all xs ys)
    unfolding insert_sorted
    insert_all-insert x [] ys = refl
    insert_all-insert x (y ∷ xs) ys = elim (Bool-cases (le x y)) [
      | inl e ↦ rw e refl
      | inr e ↦ rw e (
          ap (insert_sorted le y) (insert_all-insert x xs ys)
          ∙ insert_comm x y (insert_all xs ys) e)
    ]

    insert_all-sort : (xs ys : List A) → insert_all (sort le xs) ys ≡ insert_all xs ys
    unfolding sort
    insert_all-sort [] ys = refl
    insert_all-sort (x ∷ xs) ys =
        insert_all-insert x (sort le xs) ys ∙ ap (insert_sorted le x) (insert_all-sort xs ys)

    sort-merge : (xs ys : List A) → sort le (xs ++ ys) ≡ merge (sort le xs) (sort le ys)
    sort-merge xs ys =
        sort-append xs ys
        ∙ sym (insert_all-sort xs (sort le ys))
        ∙ insert_all-merge (sort le xs) (sort le ys) (sort-IsOrdered le total trans xs)

    sort-newest : (limit : ℕ) (xs : List A) → sort le (newest limit xs) ≡ newest limit xs
    unfolding newest
    sort-newest limit xs =
        sort-ordered (newest limit xs)
          (take-IsOrdered limit (sort le xs) (sort-IsOrdered le total trans xs))

    newest-newest : (limit : ℕ) (xs : List A) → newest limit (newest limit xs) ≡ newest limit xs
    unfolding newest
    newest-newest limit xs =
        ap (take limit) (sort-newest limit xs) ∙ take-take_le limit limit (sort le xs) (omega arith)

    newest-append :
        (limit : ℕ) (xs ys : List A)
        → newest limit (xs ++ ys) ≡ newest limit (newest limit xs ++ newest limit ys)
    unfolding newest
    newest-append limit xs ys =
        ap (take limit) (sort-merge xs ys)
        ∙ take-merge limit limit limit (sort le xs) (sort le ys) (omega arith) (omega arith)
        ∙ sym (
            ap (take limit) (
              sort-merge (newest limit xs) (newest limit ys)
              ∙ ap (λ l. merge l (sort le (newest limit ys))) (sort-newest limit xs)
              ∙ ap (merge (newest limit xs)) (sort-newest limit ys)))

    -- the newest rows of lists put together are those of the newest rows of each
    pub newest-concat :
        (limit : ℕ) (lists : List (List A))
        → newest limit (concat (map (newest limit) lists)) ≡ newest limit (concat lists)
    unfolding concat
    newest-concat limit [] = refl
    newest-concat limit (xs ∷ rest) =
        newest-append limit (newest limit xs) (concat (map (newest limit) rest))
        ∙ ap (λ l. newest limit (l ++ newest limit (concat (map (newest limit) rest))))
            (newest-newest limit xs)
        ∙ ap (λ l. newest limit (newest limit xs ++ l)) (newest-concat limit rest)
        ∙ sym (newest-append limit xs (concat rest))
