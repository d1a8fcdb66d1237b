-- ===== src/Prelude/Int.antt =====
-- The signed integers that `int` and `long` values are read as.
use Prim.Native.Nat.{ℕ}

-- `negsuc n` is -(n + 1).
pub data ℤ : Type 0 where
  pos : ℕ → ℤ
  negsuc : ℕ → ℤ
