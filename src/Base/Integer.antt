-- ===== src/Base/Integer.antt =====
-- The integers, of which C's `int` is a part.
use Prim.Native.Nat.{ℕ}

pub data ℤ : Type 0 where
  pos negsuc : ℕ → ℤ
