-- ===== src/Gate/Measure.antt =====
-- `union_ms` counts the milliseconds that lie in one of the intervals.

use supabase_lab.Common.{
  ℕ, zero, suc, ◌+◌, ◌-◌, ◌≤◌, ◌<◌, min, ◌≡◌, refl, ap, sym, ◌∙◌, ◌⊎◌, inl, inr, none, some, Bool,
  true, false, ◌||◌, ◌&&◌, List, [], ◌∷◌, All, some_of, ltb, leb, ltb→lt, if◌then◌else◌, Bool-cases,
  sort, sort-IsOrdered, IsOrdered, All-sort, some_of-sort, pos, add-diff, arith,
}
use supabase_lab.Gate.Replay.{Interval, starts_le, absorb, sweep, union_ms}

-- how many numbers below the bound pass the test
unfoldable pub count : (ℕ → Bool) → ℕ → ℕ
count test zero = 0
count test (suc n) = let rest = count test n in if test n then suc rest else rest

-- the millisecond from `t` to `t + 1` lies in the interval
unfoldable pub covers : ℕ → Interval → Bool
covers t i = leb i.start_ms t && ltb t i.end_ms

unfoldable pub covered : List Interval → ℕ → Bool
unfolding covers
covered is t = some_of (covers t) is

abbrev pub IsProper : Interval → Type 0
IsProper i = i.start_ms ≤ i.end_ms

abbrev pub EndsBy : ℕ → Interval → Type 0
EndsBy bound i = i.end_ms ≤ bound

count_cong : (p q : ℕ → Bool) (n : ℕ) → ((t : ℕ) → p t ≡ q t) → count p n ≡ count q n
unfolding count
count_cong p q zero h = refl
count_cong p q (suc n) h = ground (arith, h n, count_cong p q n h)

-- tests that no number passes both
count-disjoint :
    (p q : ℕ → Bool) (n : ℕ)
    → ((t : ℕ) → p t ≡ true → q t ≡ false)
    → count (λ t. p t || q t) n ≡ count p n + count q n
unfolding count
count-disjoint p q zero h = refl
count-disjoint p q (suc n) h = ground (arith, h n, count-disjoint p q n h)

count-covers : (i : Interval) (n : ℕ) → count (λ t. covers t i) n ≡ min i.end_ms n - i.start_ms
unfolding count covers
count-covers i zero = omega arith
count-covers i (suc n) = ground (arith, count-covers i n)

count-proper :
    (i : Interval) (n : ℕ)
    → IsProper i
    → EndsBy n i
    → count (λ t. covers t i) n ≡ i.end_ms - i.start_ms
count-proper i n h k = omega (arith, count-covers i n)

not-covered-before :
    (i : Interval) (is : List Interval) (t : ℕ)
    → All (λ j. starts_le i j ≡ true) is
    → t < i.start_ms
    → covered (i ∷ is) t ≡ false
unfolding covered covers starts_le
not-covered-before i [] t o h = ground arith
not-covered-before i (j ∷ is) t o h = ground (arith, not-covered-before i is t o.1 h)

covered-extended :
    (cur i : Interval) (is : List Interval) (t : ℕ)
    → IsProper cur
    → starts_le cur i ≡ true
    → ltb cur.end_ms i.start_ms ≡ false
    → ltb cur.end_ms i.end_ms ≡ true
    → covered (record cur { end_ms = i.end_ms } ∷ is) t ≡ covered (cur ∷ i ∷ is) t
unfolding covered covers starts_le
covered-extended cur i is t proper o near longer = ground arith

covered-contained :
    (cur i : Interval) (is : List Interval) (t : ℕ)
    → starts_le cur i ≡ true
    → ltb cur.end_ms i.end_ms ≡ false
    → covered (cur ∷ is) t ≡ covered (cur ∷ i ∷ is) t
unfolding covered covers starts_le
covered-contained cur i is t o shorter = ground arith

abbrev IsWithin : ℕ → Interval → Type 0
IsWithin bound i = IsProper i × EndsBy bound i

covered-one : (i : Interval) (t : ℕ) → covered (i ∷ []) t ≡ covers t i
unfolding covered covers
covered-one i t = ground arith

before-end :
    (cur i : Interval) (t : ℕ)
    → covers t cur ≡ true
    → ltb cur.end_ms i.start_ms ≡ true
    → t < i.start_ms
unfolding covers
before-end cur i t inside apart = ground arith

-- an interval that ends before the others start adds its length
count-apart :
    (bound t : ℕ) (cur i : Interval) (is : List Interval)
    → IsWithin bound cur
    → All (λ j. starts_le i j ≡ true) is
    → ltb cur.end_ms i.start_ms ≡ true
    → t + (cur.end_ms - cur.start_ms) + count (covered (i ∷ is)) bound
      ≡ t + count (covered (cur ∷ i ∷ is)) bound
unfolding covered
count-apart bound t cur i is within from_i apart =
    rw
      (
        count-disjoint (λ n. covers n cur) (covered (i ∷ is)) bound
            (λ n inside. not-covered-before i is n from_i (before-end cur i n inside apart)),
        count-proper cur bound within.0 within.1,
      )
      (omega arith)

sweep-count :
    (bound t : ℕ) (cur : Interval) (is : List Interval)
    → All (IsWithin bound) (cur ∷ is)
    → IsOrdered starts_le (cur ∷ is)
    → sweep (pos t) (some cur) is ≡ pos (t + count (covered (cur ∷ is)) bound)
unfolding sweep absorb starts_le
sweep-count bound t cur [] ((proper, ends), _) o =
    rw
      (
        add-diff t cur.end_ms cur.start_ms proper,
        count_cong (covered (cur ∷ [])) (λ n. covers n cur) bound (λ n. covered-one cur n),
        count-proper cur bound proper ends,
      )
      refl
sweep-count bound t cur (i ∷ is) (within, (within_i, rest)) ((first, from_cur), (from_i, o)) =
    elim (Bool-cases (ltb cur.end_ms i.start_ms)) [
      | inl apart ↦
          rw
            (
              apart,
              add-diff t cur.end_ms cur.start_ms within.0,
              sweep-count bound (t + (cur.end_ms - cur.start_ms)) i is (within_i, rest) (from_i, o),
            )
            (ap pos (count-apart bound t cur i is within from_i apart))
      | inr near ↦ elim (Bool-cases (ltb cur.end_ms i.end_ms)) [
        | inl longer ↦
            let longest : Interval = record cur { end_ms = i.end_ms } in
            rw
              (
                near,
                longer,
                sweep-count bound t longest is
                    ((omega (arith, ltb→lt _ _ longer, within.0), within_i.1), rest) (from_cur, o),
                count_cong (covered (longest ∷ is)) (covered (cur ∷ i ∷ is)) bound
                    (λ n. covered-extended cur i is n within.0 first near longer),
              )
              refl
        | inr shorter ↦
            rw
              (
                near,
                shorter,
                sweep-count bound t cur is (within, rest) (from_cur, o),
                count_cong (covered (cur ∷ is)) (covered (cur ∷ i ∷ is)) bound
                    (λ n. covered-contained cur i is n first shorter),
              )
              refl
      ]
    ]

-- the order of the intervals does not matter to what they cover
covered-sort : (is : List Interval) (t : ℕ) → covered (sort starts_le is) t ≡ covered is t
unfolding covered
covered-sort is t = some_of-sort starts_le (covers t) is

count-none : (n : ℕ) → count (covered []) n ≡ 0
unfolding count covered
count-none zero = refl
count-none (suc n) = count-none n

starts_le-total : (i j : Interval) → (starts_le i j ≡ true) ⊎ (starts_le j i ≡ true)
unfolding starts_le
starts_le-total i j = ground arith

starts_le_trans :
    (i j k : Interval) → starts_le i j ≡ true → starts_le j k ≡ true → starts_le i k ≡ true
unfolding starts_le
starts_le_trans i j k a b = ground arith

sorted-count :
    (bound : ℕ) (is : List Interval)
    → All (IsWithin bound) is
    → IsOrdered starts_le is
    → sweep (pos 0) none is ≡ pos (count (covered is) bound)
unfolding sweep
sorted-count bound [] w o = ap pos (sym (count-none bound))
sorted-count bound (i ∷ is) w o = sweep-count bound 0 i is w o ∙ ap pos (omega arith)

-- For intervals that end no earlier than they start and no later than the bound, the sweep's total
-- is the number of milliseconds below the bound that lie in at least one of them: time that
-- several incidents share is counted once, whatever the order of the list.
pub union_ms-count :
    (bound : ℕ) (is : List Interval)
    → All (IsWithin bound) is
    → union_ms is ≡ pos (count (covered is) bound)
unfolding union_ms
union_ms-count bound is within =
    sorted-count bound (sort starts_le is) (All-sort starts_le (IsWithin bound) is within)
      (sort-IsOrdered starts_le starts_le-total starts_le_trans is)
    ∙ ap pos (count_cong (covered (sort starts_le is)) (covered is) bound (covered-sort is))
