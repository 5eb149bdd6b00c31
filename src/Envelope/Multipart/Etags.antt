-- ===== src/Envelope/Multipart/Etags.antt =====
-- experiments/client-keyed-objects/client/src/upload.ts: the list that completes an upload, and the
-- requests that only list parts.
use supabase_lab.Common.{
  ℕ, ◌≡◌, refl, ap, ◌∙◌, Option, some, Bool, true, ◌||◌, List, [], ◌∷◌, map, some_of, some_of-sort,
  sort, leb, ◌==◌, arith,
}
use supabase_lab.Envelope.Multipart.{map_set, fill, to_parts}
use supabase_lab.Envelope.Multipart.Steps.{Text, Call}
use supabase_lab.Envelope.Multipart.Parts.{has_number, map_set-keeps_number}
use supabase_lab.Envelope.Multipart.Joined.{bodies, sent_rows}

-- requests that only list
abbrev pub AreListing : List Call → Type 0
AreListing [] = Unit
AreListing (Call.list_parts m ∷ rest) = AreListing rest
AreListing (_ ∷ rest) = ⊥

pub listing-bodies : (calls : List Call) → AreListing calls → bodies calls ≡ []
listing-bodies [] h = refl
listing-bodies (Call.list_parts m ∷ rest) h = listing-bodies rest h
listing-bodies (Call.upsert_chunks r ∷ rest) h = absurd h
listing-bodies (Call.upload_part n b ∷ rest) h = absurd h
listing-bodies (Call.complete ps ∷ rest) h = absurd h
listing-bodies (Call.create_upload ∷ rest) h = absurd h
listing-bodies (Call.patch_asset p ∷ rest) h = absurd h
listing-bodies (Call.count_rows ∷ rest) h = absurd h

pub listing-rows : (calls : List Call) → AreListing calls → sent_rows calls ≡ []
listing-rows [] h = refl
listing-rows (Call.list_parts m ∷ rest) h = listing-rows rest h
listing-rows (Call.upsert_chunks r ∷ rest) h = absurd h
listing-rows (Call.upload_part n b ∷ rest) h = absurd h
listing-rows (Call.complete ps ∷ rest) h = absurd h
listing-rows (Call.create_upload ∷ rest) h = absurd h
listing-rows (Call.patch_asset p ∷ rest) h = absurd h
listing-rows (Call.count_rows ∷ rest) h = absurd h

pub some_of-map :
    {A B : Type 0} (p : B → Bool) (f : A → B) (xs : List A)
    → some_of p (map f xs) ≡ some_of (λ x. p (f x)) xs
some_of-map p f [] = refl
some_of-map p f (x ∷ xs) = ap (λ b. p (f x) || b) (some_of-map p f xs)

module _ (n : ℕ) where
  pub fill-keeps_number :
      (listed : List (ℕ × Text)) (etags : List (ℕ × Option Text))
      → has_number n etags ≡ true
      → has_number n (fill listed etags) ≡ true
  unfolding fill
  fill-keeps_number [] etags h = h
  fill-keeps_number (entry ∷ rest) etags h =
      let filled =
        fill-keeps_number rest (map_set entry.0 (some entry.1) etags)
          (map_set-keeps_number n entry.0 (some entry.1) etags h) in
      let same = fill-keeps_number rest etags h in ground (arith, filled, same)

  -- the completed parts have the numbers of the map
  pub to_parts-number :
      (etags : List (ℕ × Option Text))
      → some_of (λ p. p.part_number == n) (to_parts etags) ≡ has_number n etags
  unfolding to_parts
  to_parts-number etags =
      some_of-map (λ p. p.part_number == n)
        (λ entry. record { part_number = entry.0; etag = entry.1 })
        (sort (λ x y. leb x.0 y.0) etags)
      ∙ some_of-sort (λ x y. leb x.0 y.0) (λ entry. entry.0 == n) etags
