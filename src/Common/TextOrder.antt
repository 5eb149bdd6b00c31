-- ===== src/Common/TextOrder.antt =====
-- The default order of `Array.prototype.sort` on texts: by code points, which is the order by
-- UTF-16 units for texts in the basic plane.
use Prim.Native.Nat.{ℕ}
use Prim.Native.String.{String}
use mathlib.Core.Path.{◌≡◌, refl}
use mathlib.Core.Logic.{◌⊎◌, inl, inr}
use mathlib.Core.Bool.{Bool, true, false}
use mathlib.Core.List.{List, [], ◌∷◌}
use native.Mathlib.Omega.{arith}
use supabase_lab.Common.Tests.{if◌then◌else◌, ltb, ◌==◌}
use supabase_lab.Common.Text.{codes}

unfoldable pub codes_le : List ℕ → List ℕ → Bool
codes_le [] t = true
codes_le (a ∷ s) [] = false
codes_le (a ∷ s) (b ∷ t) =
    let rest = codes_le s t in if ltb a b then true else if a == b then rest else false

unfoldable pub text_le : String → String → Bool
unfolding codes_le
text_le s t = codes_le (codes s) (codes t)

pub codes_le-total : (s t : List ℕ) → (codes_le s t ≡ true) ⊎ (codes_le t s ≡ true)
unfolding codes_le
codes_le-total [] t = inl refl
codes_le-total (a ∷ s) [] = inr refl
codes_le-total (a ∷ s) (b ∷ t) = ground (arith, codes_le-total s t)

pub codes_le_trans :
    (s t u : List ℕ) → codes_le s t ≡ true → codes_le t u ≡ true → codes_le s u ≡ true
unfolding codes_le
codes_le_trans [] t u h k = refl
codes_le_trans (a ∷ s) [] u h k = cc
codes_le_trans (a ∷ s) (b ∷ t) [] h k = cc
codes_le_trans (a ∷ s) (b ∷ t) (c ∷ u) h k = ground (arith, codes_le_trans s t u)

pub text_le-total : (s t : String) → (text_le s t ≡ true) ⊎ (text_le t s ≡ true)
unfolding text_le
text_le-total s t = codes_le-total (codes s) (codes t)

pub text_le_trans : (s t u : String) → text_le s t ≡ true → text_le t u ≡ true → text_le s u ≡ true
unfolding text_le
text_le_trans s t u = codes_le_trans (codes s) (codes t) (codes u)
