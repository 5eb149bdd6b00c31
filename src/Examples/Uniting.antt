-- ===== src/Examples/Uniting.antt =====
-- Examples for experiments/cross-project-auth/lib/merge.ts: two projects whose rows differ in the
-- microseconds only.
use supabase_lab.Common.{
  ℕ, ◌≡◌, ◌≢◌, ◌↔◌, refl, none, some, true, false, List, [], ◌∷◌, ◌++◌, String, codes, pos, take,
  drop,
}
use supabase_lab.MergedRead.{
  Leg, LegRead, Reply, Json, FanResult, page_query, read_leg, parts_of, failures_of, all_legs,
  fan_out_all, fan_out_settled,
}
use supabase_lab.MergedRead.Newest.{concat, newest}
use supabase_lab.MergedRead.Instants.{Row, Platform, ts_micros, zone_text, is_dated, le_exact}
use supabase_lab.MergedRead.Merged.{fan_out-newest, fan_out_settled-newest}

-- every second is the same
abbrev still : Platform
still = record { date_parse = λ s. some (pos 5) }

abbrev row : String → String → Row ℕ
row id at = record { id = codes id; created_at = codes at; others = 0 }

abbrev early : Row ℕ
early = row "b" "2026-10-12T08:00:00.000001+00:00"

abbrev middle : Row ℕ
middle = row "a" "2026-10-12T08:00:00.00001+00:00"

abbrev late : Row ℕ
late = row "a" "2026-10-12 08:00:00.5Z"

micros : ts_micros still (codes "2026-10-12T08:00:00.00001+00") ≡ some (pos 5010)
unfolding ts_micros
micros = refl

no_micros : ts_micros still (codes "2026-10-12T08:00:00.") ≡ none
unfolding ts_micros
no_micros = refl

zone_colon : zone_text (some (codes "+0530")) ≡ codes "+05:30"
unfolding zone_text take drop
zone_colon = refl

first_page :
    page_query (λ s. s) 10 (record { cursor = none; offset = some 0; select = none })
    ≡ "select=id,created_at,body,src&order=created_at.desc,id.desc&limit=10"
unfolding page_query
first_page = refl

abbrev leg : String → Leg
leg name = record { name = name; status = 200; rows = some 2; code = none }

abbrev down : Leg
down = record { name = "eu"; status = 503; rows = none; code = some "PGRST002" }

abbrev refusal : Json ℕ
refusal = Json.value (some "PGRST002")

read_down : read_leg (λ s. some refusal) "eu" (Reply.response 503 "{}") ≡ LegRead.failure down
unfolding read_leg
read_down = refl

abbrev us_table : List (Row ℕ)
us_table = early ∷ late ∷ []

abbrev eu_table : List (Row ℕ)
eu_table = middle ∷ []

abbrev us : LegRead ℕ
us = LegRead.answered (leg "us") (late ∷ early ∷ [])

abbrev eu : LegRead ℕ
eu = LegRead.answered (leg "eu") (middle ∷ [])

newest_two : newest (le_exact still) 2 (us_table ++ eu_table) ≡ late ∷ middle ∷ []
unfolding newest le_exact
newest_two = refl

fan_out-newest_example :
    let r : FanResult ℕ = record {
      ok = true;
      partial = false;
      rows = newest (le_exact still) 2 (concat (us_table ∷ eu_table ∷ []));
      legs = all_legs (eu ∷ us ∷ []);
      error = none;
    } in
    (fan_out_all still 2 (us ∷ eu ∷ []) (eu ∷ us ∷ []) ≡ r)
    × (fan_out_settled still 2 (us ∷ eu ∷ []) (eu ∷ us ∷ []) ≡ some r)
unfolding newest le_exact concat is_dated failures_of
fan_out-newest_example =
    fan_out-newest still 2 (us ∷ eu ∷ []) (eu ∷ us ∷ []) (us_table ∷ eu_table ∷ [])
      (refl, (refl, tt)) refl refl refl

fan_out_settled-newest_example :
    (r : FanResult ℕ) × (fan_out_settled still 2
        (us ∷ LegRead.failure down ∷ [])
        (LegRead.failure down ∷ us ∷ [])
      ≡ some r)
    × (r.rows ≡ newest (le_exact still) 2 (concat (us_table ∷ [])))
    × ((r.ok ≡ true) ↔ (failures_of (us ∷ LegRead.failure down ∷ []) ≡ []))
    × ((r.partial ≡ true) ↔ (
        (failures_of (us ∷ LegRead.failure down ∷ []) ≢ [])
        × (parts_of (us ∷ LegRead.failure down ∷ []) ≢ [])))
unfolding newest le_exact concat is_dated
fan_out_settled-newest_example =
    fan_out_settled-newest still 2 (us ∷ LegRead.failure down ∷ []) (LegRead.failure down ∷ us ∷ [])
      (us_table ∷ []) (refl, tt) refl
