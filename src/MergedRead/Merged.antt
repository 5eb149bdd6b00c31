-- ===== src/MergedRead/Merged.antt =====
-- experiments/cross-project-auth/lib/merge.ts: what a read of several projects returns.
use supabase_lab.Common.{
  ℕ, zero, suc, ◌≡◌, ◌≢◌, ◌↔◌, refl, sym, ap, ◌∙◌, none, some, Bool, true, false, not, ◌&&◌, List,
  [], ◌∷◌, ◌++◌, map, take, sort, insert_sorted, every, arith,
}
use supabase_lab.MergedRead.Newest.{concat, newest, newest-concat}
use supabase_lab.MergedRead.Order.{le_exact-total, le_exact_trans}
use supabase_lab.MergedRead.Instants.{Row, Platform, is_dated, le_exact}
use supabase_lab.MergedRead.{
  LegRead, FanResult, parts_of, failures_of, all_legs, all_from, all_answered, settled_from,
  is_empty, settled_error, sort_rows, fan_out_all, fan_out_settled,
}

and_left : (a b : Bool) → a && b ≡ true → a ≡ true
and_left a b h = ground arith

and_right : (a b : Bool) → a && b ≡ true → b ≡ true
and_right a b h = ground arith

is_empty_iff : {A : Type 0} (xs : List A) → (is_empty xs ≡ true) ↔ (xs ≡ [])
unfolding is_empty
is_empty_iff [] = (λ _. refl, λ _. refl)
is_empty_iff (x ∷ xs) = (λ h. cc, λ h. cc)

both_filled :
    {A B : Type 0} (xs : List A) (ys : List B)
    → (not (is_empty xs) && not (is_empty ys) ≡ true) ↔ ((xs ≢ []) × (ys ≢ []))
unfolding is_empty
both_filled [] ys = (λ h. cc, λ h. absurd (h.0 refl))
both_filled (x ∷ xs) [] = (λ h. cc, λ h. absurd (h.1 refl))
both_filled (x ∷ xs) (y ∷ ys) = (λ _. (λ h. cc, λ h. cc), λ _. refl)

module _ {F : Type 0} (platform : Platform) where
  -- every row has a time that is parsed
  abbrev pub AreDated : List (Row F) → Type 0
  AreDated rows = every (is_dated platform) rows ≡ true

  sort_rows-dated :
      (rows : List (Row F))
      → AreDated rows
      → sort_rows platform rows ≡ some (sort (le_exact platform) rows)
  unfolding sort_rows sort insert_sorted
  sort_rows-dated [] h = refl
  sort_rows-dated (row ∷ []) h = refl
  sort_rows-dated (row ∷ other ∷ rows) h = rw h refl

  -- the legs that answer do so with the first rows of their tables, in the order of the targets
  abbrev pub ArePages : ℕ → List (LegRead F) → List (List (Row F)) → Type 0
  ArePages limit [] [] = Unit
  ArePages limit [] (table ∷ tables) = ⊥
  ArePages limit (LegRead.failure leg ∷ reads) tables = ArePages limit reads tables
  ArePages limit (LegRead.answered leg rows ∷ reads) [] = ⊥
  ArePages limit (LegRead.answered leg rows ∷ reads) (table ∷ tables) =
      (rows ≡ newest (le_exact platform) limit table) × ArePages limit reads tables

  parts_of-newest :
      (limit : ℕ) (reads : List (LegRead F)) (tables : List (List (Row F)))
      → ArePages limit reads tables
      → parts_of reads ≡ map (newest (le_exact platform) limit) tables
  unfolding parts_of
  parts_of-newest limit [] [] h = refl
  parts_of-newest limit [] (t ∷ tables) h = absurd h
  parts_of-newest limit (LegRead.failure leg ∷ reads) tables h =
      parts_of-newest limit reads tables h
  parts_of-newest limit (LegRead.answered leg rows ∷ reads) [] h = absurd h
  parts_of-newest limit (LegRead.answered leg rows ∷ reads) (t ∷ tables) h =
      ap (λ r. r ∷ parts_of reads) h.0
      ∙ ap (◌∷◌ (newest (le_exact platform) limit t)) (parts_of-newest limit reads tables h.1)

  module _ (p : Row F → Bool) where
    every-append : (xs ys : List (Row F)) → every p (xs ++ ys) ≡ every p xs && every p ys
    every-append [] ys = refl
    every-append (x ∷ xs) ys = ground (arith, every-append xs ys)

    every-take : (k : ℕ) (xs : List (Row F)) → every p xs ≡ true → every p (take k xs) ≡ true
    unfolding take
    every-take zero xs h = refl
    every-take (suc k) [] h = refl
    every-take (suc k) (x ∷ xs) h = ground (arith, every-take k xs)

    every-insert :
        (x : Row F) (xs : List (Row F))
        → every p (insert_sorted (le_exact platform) x xs) ≡ p x && every p xs
    unfolding insert_sorted
    every-insert x [] = refl
    every-insert x (y ∷ ys) = ground (arith, every-insert x ys)

    every-sort : (xs : List (Row F)) → every p (sort (le_exact platform) xs) ≡ every p xs
    unfolding sort
    every-sort [] = refl
    every-sort (x ∷ xs) =
        every-insert x (sort (le_exact platform) xs) ∙ ap (λ b. p x && b) (every-sort xs)

    every-concat :
        (limit : ℕ) (tables : List (List (Row F)))
        → every p (concat tables) ≡ true
        → every p (concat (map (newest (le_exact platform) limit) tables)) ≡ true
    unfolding concat newest
    every-concat limit [] h = refl
    every-concat limit (t ∷ tables) h =
        let both = sym (every-append t (concat tables)) ∙ h in
        let page =
          every-take limit (sort (le_exact platform) t)
            (every-sort t ∙ and_left (every p t) (every p (concat tables)) both) in
        let rest =
          every-concat limit tables (and_right (every p t) (every p (concat tables)) both) in
        every-append (newest (le_exact platform) limit t)
          (concat (map (newest (le_exact platform) limit) tables))
        ∙ rw (page, rest) refl

  -- the rows that are sorted, cut to the limit, are the newest of all the tables
  sorted_pages :
      (limit : ℕ) (reads : List (LegRead F)) (tables : List (List (Row F)))
      → ArePages limit reads tables
      → AreDated (concat tables)
      → (rows : List (Row F)) × (sort_rows platform (concat (parts_of reads)) ≡ some rows)
        × (take limit rows ≡ newest (le_exact platform) limit (concat tables))
  unfolding newest
  sorted_pages limit reads tables pages dated =
      let le = le_exact platform in
      let parts = parts_of-newest limit reads tables pages in
      let all_dated = every-concat (is_dated platform) limit tables dated in
      (
        sort le (concat (map (newest le limit) tables)),
        ap (λ l. sort_rows platform (concat l)) parts
            ∙ sort_rows-dated (concat (map (newest le limit) tables)) all_dated,
        newest-concat le (le_exact-total platform) (le_exact_trans platform) limit tables,
      )

  -- Where every leg answers, with the first rows of its table and times that are parsed, both
  -- policies return the newest rows of all the tables put together, and no error.
  pub fan_out-newest :
      (limit : ℕ) (reads completions : List (LegRead F)) (tables : List (List (Row F)))
      → ArePages limit reads tables
      → AreDated (concat tables)
      → failures_of reads ≡ []
      → failures_of completions ≡ []
      → let r : FanResult F = record {
        ok = true;
        partial = false;
        rows = newest (le_exact platform) limit (concat tables);
        legs = all_legs completions;
        error = none;
      } in
        (fan_out_all platform limit reads completions ≡ r)
        × (fan_out_settled platform limit reads completions ≡ some r)
  unfolding fan_out_all fan_out_settled all_from all_answered settled_from is_empty settled_error
  fan_out-newest limit reads completions tables pages dated none_failed none_failed' =
      let (rows, sorted, cut) = sorted_pages limit reads tables pages dated in
      (rw (none_failed', sorted, cut) refl, rw (sorted, none_failed, cut) refl)

  -- A settled read returns the newest rows of the tables whose legs answered, with the first rows of
  -- their tables and times that are parsed; it is ok just when no leg failed, and partial just when
  -- one failed and one answered.
  pub fan_out_settled-newest :
      (limit : ℕ) (reads completions : List (LegRead F)) (tables : List (List (Row F)))
      → ArePages limit reads tables
      → AreDated (concat tables)
      → (r : FanResult F) × (fan_out_settled platform limit reads completions ≡ some r)
        × (r.rows ≡ newest (le_exact platform) limit (concat tables))
        × ((r.ok ≡ true) ↔ (failures_of reads ≡ []))
        × ((r.partial ≡ true) ↔ ((failures_of reads ≢ []) × (parts_of reads ≢ [])))
  unfolding fan_out_settled settled_from
  fan_out_settled-newest limit reads completions tables pages dated =
      let (rows, sorted, cut) = sorted_pages limit reads tables pages dated in
      (
        record {
          ok = is_empty (failures_of reads);
          partial = not (is_empty (failures_of reads)) && not (is_empty (parts_of reads));
          rows = take limit rows;
          legs = all_legs completions;
          error = settled_error (failures_of reads);
        },
        rw sorted refl,
        cut,
        is_empty_iff (failures_of reads),
        both_filled (failures_of reads) (parts_of reads),
      )
