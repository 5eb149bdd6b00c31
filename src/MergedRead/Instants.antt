-- ===== src/MergedRead/Instants.antt =====
-- experiments/cross-project-auth/lib/merge.ts: the instant of a row to the microsecond, and the
-- order of rows by it. A text that is parsed is the list of its code units.
use supabase_lab.Common.{
  ℕ, zero, suc, ◌+◌, ◌-◌, ◌*◌, Option, none, some, Bool, true, false, ◌&&◌, ◌||◌, List, [], ◌∷◌,
  ◌++◌, length, leb, ◌==◌, if◌then◌else◌, ℤ, pos, negsuc, ◌+ℤ◌, codes_le, replicate, take, drop,
  not, ◌>>=◌,
}

pub record Row (F : Type 0) : Type 0 where
  pub id : List ℕ
  pub created_at : List ℕ
  pub others : F

-- `Date.parse`, with `none` for NaN
pub record Platform : Type 0 where
  pub date_parse : List ℕ → Option ℤ

unfoldable pub is_digit : ℕ → Bool
is_digit c = leb 48 c && leb c 57

pushed : ℕ → Option (List ℕ × List ℕ) → Option (List ℕ × List ℕ)
pushed c none = none
pushed c (some (front, rest)) = some (c ∷ front, rest)

-- the text that a pattern of single characters takes off the front, and the rest
matched : List (ℕ → Bool) → List ℕ → Option (List ℕ × List ℕ)
unfolding pushed
matched [] s = some ([], s)
matched (p ∷ ps) [] = none
matched (p ∷ ps) (c ∷ s) = let later = matched ps s in if p c then pushed c later else none

abbrev digit : ℕ → Bool
digit c = is_digit c

abbrev is_char : ℕ → ℕ → Bool
is_char c d = d == c

-- \d{4}-\d{2}-\d{2}
abbrev date_pattern : List (ℕ → Bool)
date_pattern =
    digit ∷ digit ∷ digit ∷ digit ∷ is_char 45 ∷ digit ∷ digit ∷ is_char 45 ∷ digit ∷ digit ∷ []

-- \d{2}:\d{2}:\d{2}
abbrev time_pattern : List (ℕ → Bool)
time_pattern = digit ∷ digit ∷ is_char 58 ∷ digit ∷ digit ∷ is_char 58 ∷ digit ∷ digit ∷ []

-- as many digits as there are at the front, up to a number of them
digits_off : ℕ → List ℕ → List ℕ × List ℕ
unfolding is_digit
digits_off zero s = ([], s)
digits_off (suc n) [] = ([], [])
digits_off (suc n) (c ∷ s) =
    let later = digits_off n s in if is_digit c then (c ∷ later.0, later.1) else ([], c ∷ s)

-- (?:\.(\d{1,6}))?
some_digits : List ℕ → List ℕ × List ℕ → Option (List ℕ) × List ℕ
some_digits s ([], rest) = (none, s)
some_digits s (d ∷ ds, rest) = (some (d ∷ ds), rest)

fraction_off : List ℕ → Option (List ℕ) × List ℕ
unfolding digits_off some_digits
fraction_off [] = (none, [])
fraction_off (c ∷ s) = if c == 46 then some_digits (c ∷ s) (digits_off 6 s) else (none, c ∷ s)

-- nothing is left
ends : Option (List ℕ × List ℕ) → Bool
ends (some (front, [])) = true
ends _ = false

-- (Z|[+-]\d{2}(?::?\d{2})?)?$
zone_off : List ℕ → Option (Option (List ℕ))
unfolding matched ends is_digit
zone_off [] = some none
zone_off (c ∷ s) =
    let sign = c == 43 || c == 45 in
    let hours = ends (matched (digit ∷ digit ∷ []) s) in
    let plain = ends (matched (digit ∷ digit ∷ digit ∷ digit ∷ []) s) in
    let colon = ends (matched (digit ∷ digit ∷ is_char 58 ∷ digit ∷ digit ∷ []) s) in
    if (c == 90 && length s == 0) || (sign && (hours || plain || colon))
    then some (some (c ∷ s))
    else none

pub record Stamp : Type 0 where
  pub date : List ℕ
  pub time : List ℕ
  pub fraction : Option (List ℕ)
  pub zone : Option (List ℕ)

zoned : List ℕ → List ℕ → Option (List ℕ) × List ℕ → Option Stamp
unfolding zone_off
zoned date time (fraction, rest) = do
  zone ← zone_off rest
  some (record { date = date; time = time; fraction = fraction; zone = zone })

-- [T ]
separated : List ℕ → Option (List ℕ)
separated [] = none
separated (c ∷ s) = if c == 84 || c == 32 then some s else none

-- the groups of the pattern of `tsMicros`
stamp_of : List ℕ → Option Stamp
unfolding matched separated fraction_off zoned is_digit
stamp_of s = do
  d ← matched date_pattern s
  rest ← separated d.1
  t ← matched time_pattern rest
  zoned d.0 t.0 (fraction_off t.1)

-- "+hh" gets its minutes, "+hhmm" its colon
unfoldable pub zone_text : Option (List ℕ) → List ℕ
unfolding take drop
zone_text none = 90 ∷ []
zone_text (some z) =
    if length z == 3
    then z ++ (58 ∷ 48 ∷ 48 ∷ [])
    else (if length z == 5 then take 3 z ++ 58 ∷ drop 3 z else z)

digits_value : ℕ → List ℕ → ℕ
digits_value acc [] = acc
digits_value acc (c ∷ s) = digits_value (acc * 10 + (c - 48)) s

-- `BigInt((m[3] ?? "").padEnd(6, "0"))`
fraction_micros : Option (List ℕ) → ℕ
unfolding digits_value replicate
fraction_micros none = 0
fraction_micros (some s) = digits_value 0 (s ++ replicate (6 - length s) 48)

-- `BigInt(ms) * 1000n`
thousand_times : ℤ → ℤ
thousand_times (pos n) = pos (n * 1000)
thousand_times (negsuc n) = negsuc (suc n * 1000 - 1)

-- `tsMicros`, with `none` where it throws
unfoldable pub ts_micros : Platform → List ℕ → Option ℤ
unfolding stamp_of zone_text thousand_times fraction_micros ◌+ℤ◌
ts_micros platform s = do
  m ← stamp_of s
  ms ← platform.date_parse (m.date ++ 84 ∷ (m.time ++ zone_text m.zone))
  some (thousand_times ms +ℤ pos (fraction_micros m.fraction))

is_some : {A : Type 0} → Option A → Bool
is_some none = false
is_some (some a) = true

at_mostℤ : ℤ → ℤ → Bool
at_mostℤ (pos a) (pos b) = leb a b
at_mostℤ (pos a) (negsuc b) = false
at_mostℤ (negsuc a) (pos b) = true
at_mostℤ (negsuc a) (negsuc b) = leb b a

-- not after, where a text that is not parsed is before all
unfoldable pub at_most : Option ℤ → Option ℤ → Bool
unfolding at_mostℤ
at_most none y = true
at_most (some x) none = false
at_most (some x) (some y) = at_mostℤ x y

module _ {F : Type 0} (platform : Platform) where
  unfoldable pub is_dated : Row F → Bool
  unfolding ts_micros is_some
  is_dated row = is_some (ts_micros platform row.created_at)

  -- `cmpExact(a, b) <= 0`: newer, or as new and its id is not before
  unfoldable pub le_exact : Row F → Row F → Bool
  unfolding ts_micros at_most codes_le
  le_exact a b =
      let x = ts_micros platform a.created_at in
      let y = ts_micros platform b.created_at in
      at_most y x && (not (at_most x y) || codes_le b.id a.id)
