-- ===== src/Common/Int.antt =====
-- Go's int, as an integer over the native numbers under the library's names (its ℤ stands on the
-- unary ℕ).
use timecraft.Common.{ℕ}

-- `negsuc n` is -(n + 1).
pub data ℤ : Type 0 where
  pos : ℕ → ℤ
  negsuc : ℕ → ℤ
