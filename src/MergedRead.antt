-- ===== src/MergedRead.antt =====
-- experiments/cross-project-auth/lib/merge.ts: a read of several projects, and the merge of their
-- rows. The times, and the texts of errors, are left out.
pub mod Newest
pub mod Instants
pub mod Order
pub mod Merged
use supabase_lab.Common.{
  ℕ, zero, suc, ◌+◌, String, Option, none, some, Bool, true, false, not, ◌&&◌, List, [], ◌∷◌, ◌++◌,
  length, take, sort, leb, ◌==◌, if◌then◌else◌, ◌<>◌, show, or_else, every,
}
use supabase_lab.MergedRead.Newest.{concat}
use supabase_lab.MergedRead.Instants.{Row, Platform, le_exact, is_dated}

-- `Leg`; its rows are `none` for -1
pub record Leg : Type 0 where
  pub name : String
  pub status : ℕ
  pub rows : Option ℕ
  pub code : Option String

-- what a request comes to: a response with its body, or an exception
pub data Reply : Type 0 where
  response : ℕ → String → Reply
  threw : Reply

-- what the parser makes of a body: an array of rows, or any other value with its `code`
pub data Json (F : Type 0) : Type 0 where
  array : List (Row F) → Json F
  value : Option String → Json F

-- what a leg comes to: its entry with its rows, or a `LegFailure`
pub data LegRead (F : Type 0) : Type 0 where
  answered : Leg → List (Row F) → LegRead F
  failure : Leg → LegRead F

pub data ReadError : Type 0 where
  leg_failures : List Leg → ReadError
  unparsed_timestamp : ReadError

pub record FanResult (F : Type 0) : Type 0 where
  pub ok : Bool
  pub partial : Bool
  pub rows : List (Row F)
  pub legs : List Leg
  pub error : Option ReadError

pub record Cursor : Type 0 where
  pub created_at : String
  pub id : String

pub record PageOptions : Type 0 where
  pub cursor : Option Cursor
  pub offset : Option ℕ
  pub select : Option String

keyset : (String → String) → Option Cursor → String
keyset encode none = ""
keyset encode (some c) =
    "&or="
    <> encode (
        "(created_at.lt.\"" <> c.created_at <> "\",and(created_at.eq.\"" <> c.created_at
        <> "\",id.lt." <> c.id <> "))")

-- an offset of 0 is left out
skipped : Option ℕ → String
skipped none = ""
skipped (some zero) = ""
skipped (some (suc n)) = "&offset=" <> show (suc n)

-- `pageQuery`, for the platform's `encodeURIComponent`
unfoldable pub page_query : (String → String) → ℕ → PageOptions → String
unfolding keyset skipped show
page_query encode limit opts =
    "select="
    <> or_else opts.select "id,created_at,body,src"
    <> "&order=created_at.desc,id.desc&limit="
    <> show limit
    <> keyset encode opts.cursor
    <> skipped opts.offset

unfoldable pub settled_error : List Leg → Option ReadError
settled_error [] = none
settled_error (leg ∷ legs) = some (ReadError.leg_failures (leg ∷ legs))

unfoldable pub is_empty : {A : Type 0} → List A → Bool
is_empty [] = true
is_empty (x ∷ xs) = false

module _ {F : Type 0} where
  -- `readLeg`: only an array with status 200 is an answer
  read_status : String → ℕ → Option (Json F) → LegRead F
  read_status name status none =
      LegRead.failure (record { name = name; status = status; rows = none; code = none })
  read_status name status (some (Json.value code)) =
      LegRead.failure (record { name = name; status = status; rows = none; code = code })
  read_status name status (some (Json.array rows)) =
      if status == 200
      then LegRead.answered
          (record { name = name; status = 200; rows = some (length rows); code = none }) rows
      else LegRead.failure (record { name = name; status = status; rows = none; code = none })

  unfoldable pub read_leg : (String → Option (Json F)) → String → Reply → LegRead F
  unfolding read_status
  read_leg parse name Reply.threw =
      LegRead.failure (record { name = name; status = 0; rows = none; code = none })
  read_leg parse name (Reply.response status text) = read_status name status (parse text)

  leg_of : LegRead F → Leg
  leg_of (LegRead.answered leg rows) = leg
  leg_of (LegRead.failure leg) = leg

  -- the rows of the legs that answered, and the legs that failed
  unfoldable pub parts_of : List (LegRead F) → List (List (Row F))
  parts_of [] = []
  parts_of (LegRead.answered leg rows ∷ rest) = rows ∷ parts_of rest
  parts_of (LegRead.failure leg ∷ rest) = parts_of rest

  unfoldable pub failures_of : List (LegRead F) → List Leg
  failures_of [] = []
  failures_of (LegRead.answered leg rows ∷ rest) = failures_of rest
  failures_of (LegRead.failure leg ∷ rest) = leg ∷ failures_of rest

  -- the legs that have come back when the first one fails, or all of them
  legs_until_failure : List (LegRead F) → List Leg
  legs_until_failure [] = []
  legs_until_failure (LegRead.answered leg rows ∷ rest) = leg ∷ legs_until_failure rest
  legs_until_failure (LegRead.failure leg ∷ rest) = leg ∷ []

  unfoldable pub all_legs : List (LegRead F) → List Leg
  unfolding leg_of
  all_legs [] = []
  all_legs (r ∷ rest) = leg_of r ∷ all_legs rest

  -- `rows.sort(cmp)`: the comparator throws at a time that it does not parse, and every row is
  -- compared when there are two at least
  unfoldable pub sort_rows : Platform → List (Row F) → Option (List (Row F))
  unfolding is_dated le_exact sort
  sort_rows platform [] = some []
  sort_rows platform (row ∷ []) = some (row ∷ [])
  sort_rows platform (row ∷ other ∷ rows) =
      if every (is_dated platform) (row ∷ other ∷ rows)
      then some (sort (le_exact platform) (row ∷ other ∷ rows))
      else none

  -- the result of policy "all", once every leg has answered
  unfoldable pub all_answered : ℕ → List Leg → Option (List (Row F)) → FanResult F
  unfolding take
  all_answered limit legs (some rows) = record {
    ok = true;
    partial = false;
    rows = take limit rows;
    legs = legs;
    error = none;
  }
  all_answered limit legs none = record {
    ok = false;
    partial = false;
    rows = [];
    legs = legs;
    error = some ReadError.unparsed_timestamp;
  }

  -- policy "all": `reads` in the order of the targets, `completions` in the order of time
  unfoldable pub all_from :
      Platform → ℕ → List (LegRead F) → List (LegRead F) → List Leg → FanResult F
  unfolding all_answered sort_rows concat parts_of legs_until_failure
  all_from platform limit reads completions [] =
      all_answered limit (all_legs completions) (sort_rows platform (concat (parts_of reads)))
  all_from platform limit reads completions (failed ∷ _) = record {
    ok = false;
    partial = false;
    rows = [];
    legs = legs_until_failure completions;
    error = some (ReadError.leg_failures (failed ∷ []));
  }

  unfoldable pub fan_out_all : Platform → ℕ → List (LegRead F) → List (LegRead F) → FanResult F
  unfolding all_from failures_of
  fan_out_all platform limit reads completions =
      all_from platform limit reads completions (failures_of completions)

  unfoldable pub settled_from :
      ℕ → List (LegRead F) → List (LegRead F) → Option (List (Row F)) → Option (FanResult F)
  unfolding take settled_error is_empty failures_of parts_of all_legs
  settled_from limit reads completions none = none
  settled_from limit reads completions (some rows) = some (record {
    ok = is_empty (failures_of reads);
    partial = not (is_empty (failures_of reads)) && not (is_empty (parts_of reads));
    rows = take limit rows;
    legs = all_legs completions;
    error = settled_error (failures_of reads);
  })

  -- policy "settled", which throws at a time that it does not parse
  unfoldable pub fan_out_settled :
      Platform → ℕ → List (LegRead F) → List (LegRead F) → Option (FanResult F)
  unfolding settled_from sort_rows concat
  fan_out_settled platform limit reads completions =
      settled_from limit reads completions (sort_rows platform (concat (parts_of reads)))
