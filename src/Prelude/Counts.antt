-- ===== src/Prelude/Counts.antt =====
-- Counts that may fall below zero.
use Prim.Native.Nat.{ℕ, zero, suc}
use mathlib.Core.Bool.{Bool, true}
use artdaq_daqinterface.Prelude.Tests.{ltb}

-- `below n` is -(n + 1).
pub data ℤ : Type 0 where
  pos : ℕ → ℤ
  below : ℕ → ℤ

-- `n - 1`
unfoldable pub dec : ℤ → ℤ
dec (pos zero) = below 0
dec (pos (suc n)) = pos n
dec (below n) = below (suc n)

-- `a < n`
unfoldable pub is_less : ℤ → ℕ → Bool
is_less (pos a) n = ltb a n
is_less (below a) n = true
