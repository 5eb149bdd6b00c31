-- ===== src/Common/Integers.antt =====
-- Integers over the native numbers, for differences that the code leaves signed.
use Prim.Native.Nat.{ℕ, suc, ◌+◌, ◌-◌, ◌≤◌, compare, Ordering}
use mathlib.Core.Path.{◌≡◌, refl}
use native.Mathlib.Omega.{arith}

pub data ℤ : Type 0 where
  pos negsuc : ℕ → ℤ

-- `a - b` of two numbers
unfoldable pub diff : ℕ → ℕ → ℤ
diff a b = elim (compare a b) [ Ordering.lt ↦ negsuc (b - a - 1) | _ ↦ pos (a - b) ]

infixl 65 ◌+ℤ◌
unfoldable pub ◌+ℤ◌ : ℤ → ℤ → ℤ
unfolding diff
pos a +ℤ pos b = pos (a + b)
pos a +ℤ negsuc b = diff a (suc b)
negsuc a +ℤ pos b = diff b (suc a)
negsuc a +ℤ negsuc b = negsuc (suc (a + b))

pub diff-of_le : (a b : ℕ) → b ≤ a → diff a b ≡ pos (a - b)
unfolding diff
diff-of_le a b h = ground arith

pub add-diff : (t a b : ℕ) → b ≤ a → pos t +ℤ diff a b ≡ pos (t + (a - b))
unfolding ◌+ℤ◌
add-diff t a b h = rw (diff-of_le a b h) refl
