-- ===== src/Shared/Ints.antt =====
-- Integers over the native numbers, for the indices of the source that may be -1, and `slice`.
use Prim.Native.Nat.{ℕ, zero, suc, ◌+◌, ◌-◌, min}
use mathlib.Core.List.{List}
use xp_panel.Shared.Tests.{leb, if◌then◌else◌}
use xp_panel.Shared.Lists.{length, take, drop}

-- `negsuc n` is -(n + 1).
pub data ℤ : Type 0 where
  pos : ℕ → ℤ
  negsuc : ℕ → ℤ

-- `Math.min(a, b)` and `Math.max(a, b)`.
unfoldable pub min_int : ℤ → ℤ → ℤ
min_int (pos a) (pos b) = if leb a b then pos a else pos b
min_int (pos a) (negsuc b) = negsuc b
min_int (negsuc a) (pos b) = negsuc a
min_int (negsuc a) (negsuc b) = if leb a b then negsuc b else negsuc a

unfoldable pub max_int : ℤ → ℤ → ℤ
max_int (pos a) (pos b) = if leb a b then pos b else pos a
max_int (pos a) (negsuc b) = pos a
max_int (negsuc a) (pos b) = pos b
max_int (negsuc a) (negsuc b) = if leb a b then negsuc a else negsuc b

unfoldable pub next_int : ℤ → ℤ
next_int (pos a) = pos (a + 1)
next_int (negsuc zero) = pos 0
next_int (negsuc (suc a)) = negsuc a

-- The place that an argument of `slice` stands for.
unfoldable pub place : ℕ → ℤ → ℕ
place n (pos a) = min a n
place n (negsuc a) = n - suc a

-- `l.slice(a, b)`.
unfoldable pub slice {ℓ} : {A : Type ℓ} → List A → ℤ → ℤ → List A
unfolding place
slice l a b = let start = place (length l) a in take (place (length l) b - start) (drop start l)
