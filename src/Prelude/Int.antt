-- ===== src/Prelude/Int.antt =====
-- Signed integers, as data: `negsuc n` is -(n + 1).
use Prim.Native.Nat.{ℕ}

pub data ℤ : Type 0 where
  pos : ℕ → ℤ
  negsuc : ℕ → ℤ

-- `max(0, x)`
abbrev pub clip : ℤ → ℕ
clip (pos n) = n
clip (negsuc n) = 0
