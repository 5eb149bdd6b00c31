-- ===== src/Diff/Render.antt =====
-- `renderDiffMarkdown` of diff.ts. The text of a value that every object inherits is a parameter.
use supabase_lab.Common.{
  String, List, [], ◌∷◌, ◌++◌, Bool, true, false, ◌&&◌, ◌==◌, map, join, show, ◌<>◌, if◌then◌else◌,
}
use supabase_lab.Types.{num, text, Status, pass, fail, skip, info}
use supabase_lab.Diff.{
  Cell, absent, inherited_value, measured, MeasurementChange, StatusChange, ArtifactDiff,
}

unfoldable pub status_name : Status → String
status_name pass = "pass"
status_name fail = "fail"
status_name skip = "skip"
status_name info = "info"

unfoldable pub no_items {ℓ} : {A : Type ℓ} → List A → Bool
no_items [] = true
no_items (_ ∷ _) = false

unfoldable pub is_quiet : ArtifactDiff → Bool
unfolding no_items
is_quiet d =
    no_items d.added && (no_items d.removed && (no_items d.changed && no_items d.status_changed))

unfoldable pub status_lines : List StatusChange → List String
unfolding status_name
status_lines [] = []
status_lines (s ∷ ss) =
    ("## Status changes" ∷ "" ∷ "| id | from | to |" ∷ "| --- | --- | --- |" ∷ [])
    ++ map
        (λ (s : StatusChange).
          "| " <> s.id <> " | " <> status_name s.from <> " | " <> status_name s.to <> " |")
        (s ∷ ss)
    ++ "" ∷ []

unfoldable pub listed : String → List String → List String
unfolding join
listed what [] = []
listed what (s ∷ ss) = (what <> join ", " (s ∷ ss)) ∷ "" ∷ []

module _ (source_of : String → String) where
  unfoldable pub cell_text : Cell → String
  unfolding show
  cell_text absent = "(absent)"
  cell_text (inherited_value key) = source_of key
  cell_text (measured (num n)) = show n
  cell_text (measured (text s)) = s

  unfoldable pub changed_lines : List MeasurementChange → List String
  unfolding cell_text
  changed_lines [] = []
  changed_lines (c ∷ cs) =
      ("## Changed measurements" ∷ "" ∷ "| id | key | before | after |"
        ∷ "| --- | --- | --- | --- |" ∷ [])
      ++ map
          (λ (c : MeasurementChange).
            "| "
            <> c.id
            <> " | "
            <> c.key
            <> " | "
            <> cell_text c.from
            <> " | "
            <> cell_text c.to
            <> " |")
          (c ∷ cs)
      ++ "" ∷ []

  unfoldable pub render_diff_markdown : ArtifactDiff → String
  unfolding is_quiet status_lines changed_lines listed join show
  render_diff_markdown d =
      if is_quiet d
      then "# Platform diff\n\nno change across " <> show d.unchanged <> " measurements.\n"
      else join "\n" (
          ("# Platform diff" ∷ "" ∷ [])
          ++ status_lines d.status_changed
          ++ changed_lines d.changed
          ++ listed "Added tests: " d.added
          ++ listed "Removed tests: " d.removed
          ++ (show d.unchanged
              <> " measurement"
              <> (if d.unchanged == 1 then "" else "s")
              <> " unchanged.")
            ∷ [])
