-- ===== src/Report/Table.antt =====
-- What the tables of a report show.
use Prim.Native.Char.{code}
use mathlib.Core.List.Perm
use mathlib.Core.List.{perm_middle}
use supabase_lab.Common.{
  ◌≡◌, inl, inr, refl, ℕ, suc, String, Bool, List, [], ◌∷◌, Perm, codes, ◌==◌, if◌then◌else◌,
  Bool-cases,
}
use supabase_lab.Types.{TestResult, Status, pass, fail, skip, info, status_eq}
use supabase_lab.Report.{status_order, with_status, by_status, escape_pipes}

-- how many pipes have no backslash before them, which are the ends of cells
unfoldable pub open_pipes : Bool → List ℕ → ℕ
open_pipes escaped [] = 0
open_pipes escaped (c ∷ s) =
    let rest = open_pipes (c == b'\\') s in
    if c == b'|' then (if escaped then rest else suc rest) else rest

-- An escaped text holds no pipe without a backslash before it, whatever stands before the text: it
-- does not end its cell in a table.
pub open_pipes-escape_pipes :
    (s : String) (escaped : Bool) → open_pipes escaped (codes (escape_pipes s)) ≡ 0
unfolding escape_pipes open_pipes
open_pipes-escape_pipes String.[] escaped = refl
open_pipes-escape_pipes (String.◌∷◌ c s) escaped = elim (Bool-cases (code c == b'|')) [
  | inl e ↦ rw (e, e) (open_pipes-escape_pipes s (code c == b'\\'))
  | inr e ↦ rw (e, e) (open_pipes-escape_pipes s (code c == b'\\'))
]

module _ (r : TestResult) (rs : List TestResult) where
  -- a result moves to the front from the rows of its status
  row_first :
      (s : Status)
      → r.status ≡ s
      → Perm (by_status status_order (r ∷ rs)) (r ∷ by_status status_order rs)
  unfolding by_status with_status status_eq
  row_first fail e = rw e (Perm.refl _)
  row_first pass e = rw e (perm_middle (with_status fail rs) _)
  row_first info e = rw e (
      Perm.trans (Perm.append_left (with_status fail rs) (perm_middle (with_status pass rs) _))
        (perm_middle (with_status fail rs) _))
  row_first skip e = rw e (
      Perm.trans
        (Perm.append_left (with_status fail rs) (
          Perm.trans (Perm.append_left (with_status pass rs) (perm_middle (with_status info rs) _))
            (perm_middle (with_status pass rs) _)))
        (perm_middle (with_status fail rs) _))

-- Every result of an artifact has exactly one row in the table of results.
pub by_status-perm : (results : List TestResult) → Perm (by_status status_order results) results
unfolding by_status with_status
by_status-perm [] = Perm.nil
by_status-perm (r ∷ rs) =
    Perm.trans (row_first r rs r.status refl) (Perm.cons r (by_status-perm rs))
