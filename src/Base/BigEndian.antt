-- ===== src/Base/BigEndian.antt =====
-- `big.Int.Bytes`, `big.Int.SetBytes` and `binary.BigEndian`: numbers as big-endian bytes.
use Prim.Native.Nat.{ℕ, zero, suc, ◌+◌, ◌*◌, ◌/◌, ◌%◌, ◌≤◌}
use mathlib.Core.Path.{◌≡◌, ◌∙◌, ap}
use mathlib.Core.Logic.{inl, inr}
use mathlib.Core.List.{List, [], ◌∷◌}
use mathlib.Core.Option.{some}
use native.Mathlib.Omega.{arith}
use zk_pig.Base.Tests.{◌==◌, if◌then◌else◌, Bool-cases}
use zk_pig.Base.Lists.{Slice, items}

abbrev pub Bytes : Type 0
Bytes = List ℕ

-- Each byte, first the most significant one, shifts what was read before it.
unfoldable pub be_value : ℕ → Bytes → ℕ
be_value acc [] = acc
be_value acc (b ∷ bs) = be_value (acc * 256 + b) bs

-- The fuel `n` is enough, since each round divides by 256.
be_digits : ℕ → ℕ → Bytes → Bytes
be_digits zero n rest = rest
be_digits (suc fuel) n rest =
    let more = be_digits fuel (n / 256) ((n % 256) ∷ rest) in if n == 0 then rest else more

-- `new(big.Int).SetBytes(b)`; a nil slice is zero.
unfoldable pub be_nat : Slice ℕ → ℕ
unfolding be_value
be_nat s = be_value 0 (items s)

-- `b.Bytes()` of a number that is not negative: no leading zero byte, and nothing for 0.
unfoldable pub be_bytes : ℕ → Bytes
unfolding be_digits
be_bytes n = be_digits n n []

be_value-be_digits :
    (fuel n : ℕ) (rest : Bytes) → n ≤ fuel → be_value 0 (be_digits fuel n rest) ≡ be_value n rest
unfolding be_value be_digits
be_value-be_digits zero n rest h = ap (λ (k : ℕ). be_value k rest) (omega arith)
be_value-be_digits (suc fuel) n rest h = elim (Bool-cases (n == 0)) [
  | inl z ↦ rw z (ap (λ (k : ℕ). be_value k rest) (ground arith))
  | inr p ↦ rw p (
      be_value-be_digits fuel (n / 256) ((n % 256) ∷ rest) (ground arith)
      ∙ ap (λ (k : ℕ). be_value k rest) (omega arith))
]

-- Reading what was written gives the number back.
pub be_nat-be_bytes : (n : ℕ) → be_nat (some (be_bytes n)) ≡ n
unfolding be_nat be_bytes
be_nat-be_bytes n = be_value-be_digits n n [] (omega arith)
