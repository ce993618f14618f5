-- ===== src/Prelude/Int.antt =====
-- Signed integers over the native numbers, as far as settings hold them.
use libight.Prelude.{ℕ}

-- `negsuc n` is -(n + 1).
pub data ℤ : Type 0 where
  pos : ℕ → ℤ
  negsuc : ℕ → ℤ
