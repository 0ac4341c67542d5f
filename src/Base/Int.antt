-- ===== src/Base/Int.antt =====
-- Signed integers over the native numbers, as far as the code compares them.
use Prim.Native.Nat.{ℕ, suc, ◌-◌, ◌*◌}
use mathlib.Core.Bool.{Bool, false}
use xemu_perf_tests.Base.Tests.{◌==◌}

-- `negsuc n` is -(n + 1).
pub data ℤ : Type 0 where
  pos : ℕ → ℤ
  negsuc : ℕ → ℤ

abbrev pub eq_ℤ : ℤ → ℤ → Bool
eq_ℤ (pos a) (pos b) = a == b
eq_ℤ (negsuc a) (negsuc b) = a == b
eq_ℤ _ _ = false

-- Times a number that is not 0.
abbrev pub scale : ℤ → ℕ → ℤ
scale (pos a) k = pos (a * k)
scale (negsuc a) k = negsuc (suc a * k - 1)
