-- ===== src/Common/Text.antt =====
-- Texts: decimal numerals, case folding, joining and substring tests of the program's strings.
use Prim.Native.Nat.{ℕ, zero, suc, ◌+◌, ◌/◌, ◌%◌}
use Prim.Native.Char.{code}
use Prim.Native.String.{String, ◌++◌}
use mathlib.Core.Bool.{Bool, true, false, ◌&&◌, ◌||◌}
use mathlib.Core.List.{List, [], ◌∷◌, map}
use text.Mathlib.Text.{starts_with}
use supabase_lab.Common.Tests.{if◌then◌else◌, leb, ltb, ◌==◌}

infixr 65 ◌<>◌
-- concatenation of two texts
abbrev pub ◌<>◌ : String → String → String
s <> t = s ++ t

abbrev pub codes : String → List ℕ
codes String.[] = []
codes (String.◌∷◌ c s) = code c ∷ codes s

-- one character of `toLowerCase`, for ASCII
abbrev pub lower_code : ℕ → ℕ
lower_code c = if leb b'A' c && leb c b'Z' then c + 32 else c

-- `s.toLowerCase()`, as code points
abbrev pub lower : String → List ℕ
lower s = map lower_code (codes s)

unfoldable pub codes_equal : List ℕ → List ℕ → Bool
codes_equal [] [] = true
codes_equal (a ∷ s) (b ∷ t) = a == b && codes_equal s t
codes_equal _ _ = false

-- `parts.join(sep)`
unfoldable pub join : String → List String → String
join sep [] = ""
join sep (s ∷ []) = s
join sep (s ∷ t ∷ rest) = s <> sep <> join sep (t ∷ rest)

abbrev digit : ℕ → String
digit d =
    if d == 0
    then "0"
    else if d == 1
    then "1"
    else if d == 2
    then "2"
    else if d == 3
    then "3"
    else if d == 4
    then "4"
    else if d == 5
    then "5"
    else if d == 6
    then "6"
    else if d == 7
    then "7"
    else if d == 8
    then "8"
    else "9"

decimal : ℕ → ℕ → String
decimal zero n = ""
decimal (suc fuel) n =
    let front = decimal fuel (n / 10) in if ltb n 10 then digit n else front <> digit (n % 10)

-- `String(n)` of a natural number
unfoldable pub show : ℕ → String
unfolding decimal
show n = decimal (suc n) n

-- `/t/.test(s)` for a plain text `t`
unfoldable pub contains_text : String → String → Bool
contains_text String.[] t = starts_with "" t
contains_text (String.◌∷◌ c s) t = starts_with (String.◌∷◌ c s) t || contains_text s t

-- `s.slice(0, n)`
unfoldable pub take_text : ℕ → String → String
take_text zero s = ""
take_text (suc n) String.[] = ""
take_text (suc n) (String.◌∷◌ c s) = String.◌∷◌ c (take_text n s)

-- the white space and line ends that `trim` removes
unfoldable pub is_space : ℕ → Bool
is_space c =
    (leb 9 c && leb c 13)
    || c == 32
    || c == 160
    || c == 5760
    || (leb 8192 c && leb c 8202)
    || c == 8232
    || c == 8233
    || c == 8239
    || c == 8287
    || c == 12288
    || c == 65279
