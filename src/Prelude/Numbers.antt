-- ===== src/Prelude/Numbers.antt =====
-- Python's integers.
use Prim.Native.Nat.{ℕ}

-- `negative n` is -(n + 1).
pub data Integer : Type 0 where
  natural negative : ℕ → Integer
