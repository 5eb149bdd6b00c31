-- ===== src/FanOut/Ttl.antt =====
-- `cacheTtl` and `parseControls` of fanout.ts, on code points. A header's value has no character
-- outside Latin-1, so that lower-casing matters to ASCII letters only.
use supabase_lab.Common.{
  is_space, ℕ, ◌+◌, ◌-◌, ◌*◌, min, ◌≤◌, String, Option, none, some, Bool, true, false, ◌&&◌, ◌||◌,
  List, [], ◌∷◌, map, includes, leb, ◌==◌, str_eq, codes, codes_equal, lower, or_else,
  if◌then◌else◌, arith,
}
use supabase_lab.FanOut.{Endpoint, profile, feed, inbox, stats, Controls}

push : ℕ → List (List ℕ) → List (List ℕ)
push c [] = (c ∷ []) ∷ []
push c (p ∷ ps) = (c ∷ p) ∷ ps

-- `s.split(sep)` for one character
unfoldable pub split_on : ℕ → List ℕ → List (List ℕ)
unfolding push
split_on sep [] = [] ∷ []
split_on sep (c ∷ s) = let rest = split_on sep s in if c == sep then [] ∷ rest else push c rest

trim_start : List ℕ → List ℕ
unfolding is_space
trim_start [] = []
trim_start (c ∷ s) = let rest = trim_start s in if is_space c then rest else c ∷ s

blank_before : Bool → ℕ → List ℕ → List ℕ
blank_before true c [] = []
blank_before true c (d ∷ s) = c ∷ d ∷ s
blank_before false c s = c ∷ s

trim_end : List ℕ → List ℕ
unfolding is_space blank_before
trim_end [] = []
trim_end (c ∷ s) = blank_before (is_space c) c (trim_end s)

unfoldable pub trim : List ℕ → List ℕ
unfolding trim_start trim_end
trim s = trim_end (trim_start s)

-- the text behind a prefix
after : List ℕ → List ℕ → Option (List ℕ)
after [] s = some s
after (p ∷ ps) [] = none
after (p ∷ ps) (c ∷ s) = let rest = after ps s in if p == c then rest else none

-- the number that digits write, behind the value of those before
number_of : ℕ → List ℕ → Option ℕ
number_of n [] = some n
number_of n (c ∷ s) =
    let rest = number_of (n * 10 + (c - 48)) s in if leb 48 c && leb c 57 then rest else none

digits_of : Option (List ℕ) → Option ℕ
unfolding number_of
digits_of none = none
digits_of (some []) = none
digits_of (some (c ∷ s)) = number_of 0 (c ∷ s)

-- `/^max-age=(\d+)$/`
unfoldable pub max_age : List ℕ → Option ℕ
unfolding after digits_of
max_age part = digits_of (after (codes "max-age=") part)

unfoldable pub first_age : List (List ℕ) → Option ℕ
unfolding max_age
first_age [] = none
first_age (p ∷ ps) = elim (max_age p) [ none ↦ first_age ps | some n ↦ some n ]

abbrev pub max_ttl_s : ℕ
max_ttl_s = 3600

unfoldable pub ttl_of_parts : List (List ℕ) → ℕ
unfolding codes_equal first_age
ttl_of_parts parts =
    if includes codes_equal (codes "no-store") parts
      || includes codes_equal (codes "no-cache") parts
    then 0
    else min (or_else (first_age parts) 0) max_ttl_s

unfoldable pub parts_of : String → List (List ℕ)
unfolding split_on trim
parts_of header = map trim (split_on b',' (lower header))

unfoldable pub cache_ttl : Option String → ℕ
unfolding ttl_of_parts parts_of
cache_ttl none = 0
cache_ttl (some header) = if str_eq header "" then 0 else ttl_of_parts (parts_of header)

unfoldable pub endpoint_of : List ℕ → Option Endpoint
unfolding codes_equal
endpoint_of s =
    if codes_equal s (codes "profile")
    then some profile
    else if codes_equal s (codes "feed")
    then some feed
    else if codes_equal s (codes "inbox")
    then some inbox
    else if codes_equal s (codes "stats")
    then some stats
    else none

unfoldable pub known : List (List ℕ) → List Endpoint
unfolding endpoint_of
known [] = []
known (s ∷ ss) = elim (endpoint_of s) [ none ↦ known ss | some e ↦ e ∷ known ss ]

unfoldable pub listed_in : Option String → List Endpoint
unfolding known split_on trim
listed_in value = known (map trim (split_on b',' (codes (or_else value ""))))

-- the argument is `params.get`
unfoldable pub parse_controls : (String → Option String) → Controls
unfolding listed_in
parse_controls get = record {
  fail = listed_in (get "fail");
  slow = listed_in (get "slow");
  refresh = str_eq (or_else (get "refresh") "") "1";
}

-- No response is cached for more than an hour, whatever its header asks for.
pub cache_ttl-le : (header : Option String) → cache_ttl header ≤ max_ttl_s
unfolding cache_ttl ttl_of_parts
cache_ttl-le none = omega arith
cache_ttl-le (some header) = ground arith
