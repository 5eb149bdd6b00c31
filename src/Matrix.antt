-- ===== src/Matrix.antt =====
-- harness/src/matrix.ts: feature probes on one connection, and their outcomes as a row of a report.
pub mod Verdicts
use Prim.Native.Char.{code}
use supabase_lab.Common.{
  ◌&&◌, is_space, ◌+◌, ℕ, String, Option, none, some, Bool, true, false, not, List, [], ◌∷◌, map,
  filter, length, join, show, ltb, take_text, set_key, truthy, or_else, ◌<>◌, if◌then◌else◌,
}
use supabase_lab.Types.{Status, pass, fail, skip, info}

pub record FeatureOutcome : Type 0 where
  pub name : String
  pub ok : Bool
  pub error : String
  pub note : Option String

-- what the run of a probe comes to: a note, if any, or the text of what it throws
pub data Probed : Type 0 where
  worked : Option String → Probed
  threw : String → Probed

-- one probe: its name, and how it runs on the state of the connection
pub record Feature (S : Type 0) : Type 0 where
  pub name : String
  pub run : S → Probed × S

-- the text with white space of any length as one space, behind a word and with a space pending
single_line : Bool → Bool → String → String
unfolding is_space
single_line started pending String.[] = ""
single_line started pending (String.◌∷◌ c s) =
    let blank = single_line started true s in
    let rest = String.◌∷◌ c (single_line true false s) in
    if is_space (code c) then blank else if started && pending then " " <> rest else rest

-- `raw.replace(/\s+/g, " ").trim()`
unfoldable pub error_text : String → String
unfolding single_line
error_text raw = single_line false false raw

-- `...(note ? { note } : {})`
kept_note : Option String → Option String
kept_note note = if truthy note then note else none

unfoldable pub outcome_of : String → Probed → FeatureOutcome
unfolding kept_note error_text
outcome_of name (worked note) = record { name = name; ok = true; error = ""; note = kept_note note }
outcome_of name (threw error) = record {
  name = name;
  ok = false;
  error = error_text error;
  note = none;
}

module _ {S : Type 0} where
  unfoldable pub run_features : List (Feature S) → S → List FeatureOutcome × S
  unfolding outcome_of
  run_features [] s = ([], s)
  run_features (f ∷ fs) s =
      let (probed, s') = f.run s in
      let (outcomes, s'') = run_features fs s' in (outcome_of f.name probed ∷ outcomes, s'')

unfoldable pub ok_text : Option String → String
ok_text note = if truthy note then "ok (" <> or_else note "" <> ")" else "ok"

-- `s.length`
text_length : String → ℕ
text_length String.[] = 0
text_length (String.◌∷◌ c s) = text_length s + 1

unfoldable pub cell_of : ℕ → FeatureOutcome → String
unfolding ok_text text_length take_text
cell_of max_len o =
    if o.ok
    then ok_text o.note
    else if ltb max_len (text_length o.error)
    then "failed: " <> take_text max_len o.error <> "..."
    else "failed: " <> o.error

unfoldable pub add_measurements :
    ℕ → List (String × String) → List FeatureOutcome → List (String × String)
unfolding cell_of set_key
add_measurements max_len m [] = m
add_measurements max_len m (o ∷ os) =
    add_measurements max_len (set_key o.name (cell_of max_len o) m) os

unfoldable pub to_measurements : List FeatureOutcome → ℕ → List (String × String)
unfolding add_measurements
to_measurements outcomes max_len = add_measurements max_len [] outcomes

unfoldable pub render_evidence : List FeatureOutcome → String
unfolding ok_text join
render_evidence outcomes = join "\n" (
    map (λ (o : FeatureOutcome). o.name <> ": " <> (if o.ok then ok_text o.note else o.error))
      outcomes)

pub record Summary : Type 0 where
  pub status : Status
  pub detail : String

unfoldable pub broken_of : List FeatureOutcome → List String
broken_of outcomes = map (λ (o : FeatureOutcome). o.name) (filter (λ o. not o.ok) outcomes)

-- the row of a mode, from the names of the features that it broke and the number probed
unfoldable pub row_of : Bool → List String → ℕ → Summary
unfolding join show
row_of true [] n = record {
  status = pass;
  detail = "control mode supports all " <> show n <> " features";
}
row_of true (b ∷ bs) n = record {
  status = fail;
  detail =
      "control mode did not support "
      <> join ", " (b ∷ bs)
      <> " - the probe is suspect, not the pooler";
}
row_of false [] n = record {
  status = info;
  detail = "0/" <> show n <> " unsupported - behaved as a direct session on every feature";
}
row_of false (b ∷ bs) n = record {
  status = info;
  detail = show (length (b ∷ bs)) <> "/" <> show n <> " unsupported: " <> join ", " (b ∷ bs);
}

unfoldable pub summarise_row : List FeatureOutcome → Bool → Summary
unfolding row_of broken_of
summarise_row outcomes control = row_of control (broken_of outcomes) (length outcomes)

pub record Prior : Type 0 where
  pub label : String
  pub ok : Bool

unfoldable pub compare_prior : String → String → String → Bool → Bool → Summary
compare_prior label name error true true = record {
  status = pass;
  detail = "reproduces " <> label <> ": " <> name <> " still works";
}
compare_prior label name error true false = record {
  status = fail;
  detail = "REGRESSION vs " <> label <> ": " <> name <> " now fails with \"" <> error <> "\"";
}
compare_prior label name error false true = record {
  status = info;
  detail = label <> " recorded " <> name <> " as broken; it works now";
}
compare_prior label name error false false = record {
  status = pass;
  detail = "reproduces " <> label <> ": " <> name <> " still fails";
}

unfoldable pub regression_verdict : Option FeatureOutcome → Prior → Summary
unfolding compare_prior
regression_verdict none prior = record {
  status = skip;
  detail = "mode not probed - nothing to compare against " <> prior.label;
}
regression_verdict (some o) prior = compare_prior prior.label o.name o.error prior.ok o.ok
