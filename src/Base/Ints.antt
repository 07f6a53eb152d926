-- ===== src/Base/Ints.antt =====
-- Go's `big.Int`: signed integers without bounds.
use Prim.Native.Nat.{ℕ, suc}

-- `negsuc n` is -(n + 1).
pub data ℤ : Type 0 where
  pos : ℕ → ℤ
  negsuc : ℕ → ℤ

abbrev pub nat_abs : ℤ → ℕ
nat_abs (pos n) = n
nat_abs (negsuc n) = suc n

-- The number without its sign.
abbrev pub magnitude : ℤ → ℤ
magnitude i = pos (nat_abs i)
