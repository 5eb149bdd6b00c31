-- ===== src/Gate/Wording.antt =====
-- The regular expressions of gate.ts on incident texts, by their alternatives. The flag `i` is
-- kept by lowering both sides; word characters are ASCII, as without the flag `u`.
use supabase_lab.Common.{
  ℕ, String, Option, none, some, Bool, true, false, not, ◌&&◌, ◌||◌, List, [], ◌∷◌, map, filter,
  some_of, includes, leb, ◌==◌, codes, lower, join, or_else, str_eq, if◌then◌else◌,
}
use supabase_lab.Gate.{
  Op, create, restart, resize, upgrade, IncidentUpdate, StatusIncident, regions,
}

-- a pattern is a row of character classes
abbrev pub Pattern : Type 0
Pattern = List (List ℕ)

-- `\w`, of a lowered text
unfoldable pub is_word : ℕ → Bool
is_word c = (leb b'a' c && leb c b'z') || ((leb b'0' c && leb c b'9') || c == b'_')

same_code : ℕ → ℕ → Bool
same_code a b = a == b

-- the text behind a match at its front
unfoldable pub match_here : Pattern → List ℕ → Option (List ℕ)
unfolding same_code
match_here [] s = some s
match_here (cls ∷ p) [] = none
match_here (cls ∷ p) (c ∷ s) =
    let rest = match_here p s in if includes same_code c cls then rest else none

ends_word : Option (List ℕ) → Bool
unfolding is_word
ends_word none = false
ends_word (some []) = true
ends_word (some (c ∷ s)) = not (is_word c)

-- `/\bpattern\b/.test(text)` for a pattern with word characters at its ends; the flag says whether
-- the character before is a word character
unfoldable pub finds_word : Pattern → Bool → List ℕ → Bool
unfolding match_here ends_word is_word
finds_word p prev [] = false
finds_word p prev (c ∷ s) =
    (not prev && ends_word (match_here p (c ∷ s))) || finds_word p (is_word c) s

is_match : Option (List ℕ) → Bool
is_match none = false
is_match (some s) = true

-- `/pattern/.test(text)` for a non-empty pattern
unfoldable pub finds : Pattern → List ℕ → Bool
unfolding match_here is_match
finds p [] = false
finds p (c ∷ s) = is_match (match_here p (c ∷ s)) || finds p s

unfoldable pub literal : String → Pattern
literal s = map (λ c. c ∷ []) (codes s)

-- a region code with `-` replaced by `[- ]`
unfoldable pub spaced : String → Pattern
spaced region = map (λ c. if c == b'-' then b'-' ∷ b' ' ∷ [] else c ∷ []) (codes region)

unfoldable pub has_word : List String → List ℕ → Bool
unfolding finds_word literal
has_word words text = some_of (λ w. finds_word (literal w) false text) words

-- the alternatives of each region's aliases; `n\.? ?virginia` stands for four texts
unfoldable pub aliases : String → List String
aliases region =
    if str_eq region "eu-west-1"
    then "ireland" ∷ []
    else if str_eq region "us-east-1"
    then "nvirginia" ∷ "n.virginia" ∷ "n virginia" ∷ "n. virginia" ∷ "eastern us" ∷ []
    else if str_eq region "us-west-1"
    then "ncalifornia" ∷ "n.california" ∷ "n california" ∷ "n. california" ∷ []
    else if str_eq region "ap-southeast-1"
    then "singapore" ∷ []
    else if str_eq region "eu-central-1"
    then "frankfurt" ∷ []
    else []

unfoldable pub names_region : List ℕ → String → Bool
unfolding has_word aliases finds_word spaced
names_region text region = finds_word (spaced region) false text || has_word (aliases region) text

unfoldable pub regions_in : String → List String
unfolding names_region
regions_in text = filter (names_region (lower text)) regions

unfoldable pub names_all_regions : String → Bool
unfolding has_word
names_all_regions text =
    has_word
      ("all regions" ∷ "multiple regions" ∷ "several regions" ∷ "many regions" ∷ "global"
        ∷ "globally" ∷ [])
      (lower text)

unfoldable pub incident_text : StatusIncident → String
unfolding join
incident_text inc =
    join "\n" (inc.name ∷ map (λ (u : IncidentUpdate). u.body) (or_else inc.incident_updates []))

pub data Scope : Type 0 where
  named_regions body_regions all_regions unscoped : Scope

unfoldable pub scope_of : Bool → List String → List String → Scope × List String
scope_of true in_title in_body = (all_regions, in_title)
scope_of false (r ∷ in_title) in_body = (named_regions, r ∷ in_title)
scope_of false [] (r ∷ in_body) = (body_regions, r ∷ in_body)
scope_of false [] [] = (unscoped, [])

unfoldable pub incident_regions : StatusIncident → Scope × List String
unfolding scope_of names_all_regions regions_in incident_text
incident_regions inc =
    scope_of (names_all_regions inc.name) (regions_in inc.name) (regions_in (incident_text inc))

unfoldable pub lifecycle_words : Op → List String
lifecycle_words create =
    "creat" ∷ "provision" ∷ "lifecycle" ∷ "management api" ∷ "project operation" ∷ "capacity" ∷ []
lifecycle_words restart =
    "restart" ∷ "lifecycle" ∷ "management api" ∷ "project operation" ∷ "unresponsive" ∷ "capacity"
    ∷ []
lifecycle_words resize =
    "resiz" ∷ "disk" ∷ "compute" ∷ "lifecycle" ∷ "management api" ∷ "project operation" ∷ "capacity"
    ∷ []
lifecycle_words upgrade =
    "upgrad" ∷ "lifecycle" ∷ "management api" ∷ "project operation" ∷ "capacity" ∷ []

-- `LIFECYCLE_RE[op].test(incidentText(inc))`
unfoldable pub is_lifecycle : Op → StatusIncident → Bool
unfolding lifecycle_words finds literal incident_text
is_lifecycle op inc =
    let text = lower (incident_text inc) in
    some_of (λ w. finds (literal w) text) (lifecycle_words op)

unfoldable pub is_open : StatusIncident → Bool
is_open inc = not (includes str_eq inc.status ("resolved" ∷ "completed" ∷ "postmortem" ∷ []))
