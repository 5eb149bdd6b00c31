-- ===== src/DiskChange/Rank.antt =====
-- experiments/compute-disk/lib/disk-change.ts: the bounds on the size of a disk and on the rank of a
-- quantile.
use supabase_lab.Common.{
  ℕ, zero, suc, ◌+◌, ◌-◌, ◌*◌, ◌≤◌, ◌≡◌, ◌↔◌, refl, sym, ◌∙◌, some, true, List, [], ◌∷◌, filter,
  length, sort, leb, All, IsOrdered, sort-IsOrdered, length-filter-sort, arith, subst, ap, ◌⊎◌,
}
use supabase_lab.DiskChange.{min_size_gb_for_iops, element, rank_of, quantile}

-- The size that the code asks for is the least one whose rate per GB gives the IOPS, and at least
-- the 3,000 of the smallest volume.
min_size_gb_for_iops-le_iff :
    (iops g : ℕ) → (min_size_gb_for_iops iops ≤ g) ↔ ((iops ≤ 500 * g) × (3000 ≤ 500 * g))
unfolding min_size_gb_for_iops
min_size_gb_for_iops-le_iff iops g =
    (λ h. (omega (arith, h), omega (arith, h)), λ h. omega (arith, h))

element-le :
    (x v : ℕ) (s : List ℕ) (k : ℕ) → All (λ y. leb x y ≡ true) s → element s k ≡ some v → x ≤ v
unfolding element
element-le x v [] k o e = absurd (ground (arith, e))
element-le x v (y ∷ s) zero o e = ground (arith, o.0, e)
element-le x v (y ∷ s) (suc k) o e = element-le x v s k o.1 e

filter-ge :
    (v : ℕ) (s : List ℕ) → All (λ y. leb v y ≡ true) s → length (filter (λ x. leb v x) s) ≡ length s
filter-ge v [] o = refl
filter-ge v (x ∷ s) o = ground (arith, o.0, filter-ge v s o.1)

-- an ordered list has at least k + 1 elements up to its element at k
element-le_count :
    (s : List ℕ) (k v : ℕ)
    → IsOrdered leb s
    → element s k ≡ some v
    → suc k ≤ length (filter (λ x. leb x v) s)
unfolding element
element-le_count [] k v o e = absurd (ground (arith, e))
element-le_count (x ∷ xs) zero v o e = ground (arith, e)
element-le_count (x ∷ xs) (suc k) v o e =
    ground (arith, element-le_count xs k v o.1 e, element-le x v xs k o.0 e)

-- and at most k below it
element-ge_count :
    (s : List ℕ) (k v : ℕ)
    → IsOrdered leb s
    → element s k ≡ some v
    → length s ≤ k + length (filter (λ x. leb v x) s)
unfolding element
element-ge_count [] k v o e = omega arith
element-ge_count (x ∷ xs) zero v o e =
    let same : x ≡ v = ground (arith, e) in
    ground (arith, same, filter-ge v xs (subst (λ u. All (λ y. leb u y ≡ true) xs) same o.0))
element-ge_count (x ∷ xs) (suc k) v o e = ground (arith, element-ge_count xs k v o.1 e)

element-some : (s : List ℕ) (k : ℕ) → suc k ≤ length s → (v : ℕ) × (element s k ≡ some v)
unfolding element
element-some [] k h = absurd (omega (arith, h))
element-some (x ∷ xs) zero h = (x, refl)
element-some (x ∷ xs) (suc k) h = element-some xs k (omega (arith, h))

filter-all : (xs : List ℕ) → filter (λ _. true) xs ≡ xs
filter-all [] = refl
filter-all (x ∷ xs) = ap (◌∷◌ x) (filter-all xs)

leb-total : (x y : ℕ) → (leb x y ≡ true) ⊎ (leb y x ≡ true)
leb-total x y = ground arith

length-sort : (xs : List ℕ) → length (sort leb xs) ≡ length xs
length-sort xs =
    sym (ap length (filter-all (sort leb xs)))
    ∙ length-filter-sort leb (λ _. true) xs
    ∙ ap length (filter-all xs)

-- A quantile of a list that has elements is an element that is not below it for at least q of the
-- list and not above it for at least 1 - q of it: at least rank + 1 elements are at most the result
-- and at least the list's length less the rank are at least it, where the rank is below the length.
quantile-IsNearestRank :
    (xs : List ℕ) (num den : ℕ)
    → 1 ≤ length xs
    → (v : ℕ) × (quantile xs num den ≡ some v)
      × (rank_of num den (length xs) ≤ length xs - 1)
      × (suc (rank_of num den (length xs)) ≤ length (filter (λ x. leb x v) xs))
      × (length xs ≤ rank_of num den (length xs) + length (filter (λ x. leb v x) xs))
unfolding quantile rank_of
quantile-IsNearestRank xs num den h =
    let k = rank_of num den (length xs) in
    let o = sort-IsOrdered leb leb-total (λ x y z p q. ground (arith, p, q)) xs in
    let (v, e) = element-some (sort leb xs) k (omega (arith, length-sort xs, h)) in
    (
      v,
      e,
      omega arith,
      omega
          (arith, element-le_count (sort leb xs) k v o e, length-filter-sort leb (λ x. leb x v) xs),
      omega (
        arith,
        element-ge_count (sort leb xs) k v o e,
        length-filter-sort leb (λ x. leb v x) xs,
        length-sort xs,
      ),
    )
