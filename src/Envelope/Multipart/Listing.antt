-- ===== src/Envelope/Multipart/Listing.antt =====
-- experiments/client-keyed-objects/client/src/upload.ts: `listParts` over the pages of a listing.
use supabase_lab.Common.{
  ℕ, zero, suc, ◌≤◌, ◌≡◌, refl, sym, ap, ◌∙◌, Option, none, some, true, false, List, [], ◌∷◌, ◌++◌,
  length, arith,
}
use mathlib.Core.List.{append-nil, append_assoc}
use supabase_lab.Envelope.{ok}
use supabase_lab.Envelope.Multipart.{
  Service, PartsPage, add_parts, is_last_page, list_from, list_parts,
}
use supabase_lab.Envelope.Multipart.Steps.{Text, Call, returned}

-- the storage lists these pages, from a marker on: it answers a request with a page, whatever was
-- asked before, and only the last page is one that says so
pub data AreServed (service : Service) : Option Text → List PartsPage → Type 0 where
  last_page :
      {m : Option Text} (p : PartsPage)
      → ((log : List Call) → service.list_parts (log ++ Call.list_parts m ∷ []) ≡ ok p)
      → is_last_page p ≡ true
      → AreServed service m (p ∷ [])
  page :
      {m : Option Text} (p : PartsPage) {ps : List PartsPage}
      → ((log : List Call) → service.list_parts (log ++ Call.list_parts m ∷ []) ≡ ok p)
      → is_last_page p ≡ false
      → AreServed service p.next_marker ps
      → AreServed service m (p ∷ ps)

-- the entries of all the pages
abbrev pub entries : List PartsPage → List (Option ℕ × Option Text)
entries [] = []
entries (p ∷ ps) = p.parts ++ entries ps

-- the requests for pages from a marker on
abbrev pub page_calls : Option Text → List PartsPage → List Call
page_calls m [] = []
page_calls m (p ∷ ps) = Call.list_parts m ∷ page_calls p.next_marker ps

add_parts-append :
    (xs ys : List (Option ℕ × Option Text)) (out : List (ℕ × Text))
    → add_parts (xs ++ ys) out ≡ add_parts ys (add_parts xs out)
unfolding add_parts
add_parts-append [] ys out = refl
add_parts-append ((none, e) ∷ xs) ys out = add_parts-append xs ys out
add_parts-append ((some zero, e) ∷ xs) ys out = add_parts-append xs ys out
add_parts-append ((some (suc n), none) ∷ xs) ys out = add_parts-append xs ys out
add_parts-append ((some (suc n), some []) ∷ xs) ys out = add_parts-append xs ys out
add_parts-append ((some (suc n), some (c ∷ cs)) ∷ xs) ys out = add_parts-append xs ys _

module _ (service : Service) where
  list_from-served :
      (rounds : ℕ) (m : Option Text) (pages : List PartsPage) (out : List (ℕ × Text))
      (log : List Call)
      → AreServed service m pages
      → length pages ≤ rounds
      → list_from service rounds m out log
        ≡ (returned (add_parts (entries pages) out), log ++ page_calls m pages)
  unfolding list_from
  list_from-served zero m pages out log (last_page p answers is_last) enough =
      absurd (omega (arith, enough))
  list_from-served zero m pages out log (page p answers more later) enough =
      absurd (omega (arith, enough))
  list_from-served (suc rounds) m pages out log (last_page p answers is_last) enough =
      rw (answers log, is_last)
        (ap (λ l. (returned (add_parts l out), log ++ Call.list_parts m ∷ []))
          (sym (append-nil p.parts)))
  list_from-served (suc rounds) m pages out log (page p {ps} answers more later) enough =
      let rest =
        list_from-served rounds p.next_marker ps (add_parts p.parts out)
          (log ++ Call.list_parts m ∷ []) later (omega (arith, enough)) in
      rw (answers log, more)
        (rest
          ∙ ap (λ f. (returned f, log ++ Call.list_parts m ∷ [] ++ page_calls p.next_marker ps))
              (sym (add_parts-append p.parts (entries ps) out))
          ∙ ap (λ l. (returned (add_parts (p.parts ++ entries ps) out), l))
              (append_assoc log (Call.list_parts m ∷ []) (page_calls p.next_marker ps)))

  -- Listing the parts of an upload whose pages the storage serves asks for each page once, in order,
  -- and returns what recording the entries of all the pages at once gives, for any number of rounds
  -- from the number of pages on.
  pub list_parts-served :
      (rounds : ℕ) (pages : List PartsPage) (log : List Call)
      → AreServed service none pages
      → length pages ≤ rounds
      → list_parts service rounds log
        ≡ (returned (add_parts (entries pages) []), log ++ page_calls none pages)
  unfolding list_parts
  list_parts-served rounds pages log served enough =
      list_from-served rounds none pages [] log served enough
