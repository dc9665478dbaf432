-- ===== src/Common/Integers.antt =====
-- Python's `int`.
use Prim.Native.Nat.{ℕ}

-- An integer: `negsuc n` is -(n + 1).
pub data ℤ : Type 0 where
  pos : ℕ → ℤ
  negsuc : ℕ → ℤ
