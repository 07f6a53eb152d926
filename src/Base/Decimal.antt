-- ===== src/Base/Decimal.antt =====
-- `fmt.Sprintf("%d", n)` of an unsigned number, as the bytes of the text.
use Prim.Native.Nat.{ℕ, zero, suc, ◌+◌, ◌-◌, ◌*◌, ◌/◌, ◌%◌, ◌^◌, ◌≤◌, ◌<◌}
use mathlib.Core.Path.{◌≡◌, refl, sym, ◌∙◌, ap}
use mathlib.Core.Logic.{inl, inr}
use mathlib.Core.Bool.{true}
use mathlib.Core.List.{[], ◌∷◌}
use native.Mathlib.Omega.{arith}
use zk_pig.Base.Tests.{ltb, if◌then◌else◌, Bool-cases}
use zk_pig.Base.Lists.{length}
use zk_pig.Base.BigEndian.{Bytes}

-- The digits of `n` in front of `rest`. The fuel `n` is enough, since each round divides by 10.
dec_digits : ℕ → ℕ → Bytes → Bytes
dec_digits zero n rest = (48 + n % 10) ∷ rest
dec_digits (suc fuel) n rest =
    let more = dec_digits fuel (n / 10) ((48 + n % 10) ∷ rest) in
    if ltb n 10 then (48 + n) ∷ rest else more

unfoldable pub decimal : ℕ → Bytes
unfolding dec_digits
decimal n = dec_digits n n []

-- What the digits say, read from the left.
unfoldable pub dec_value : ℕ → Bytes → ℕ
dec_value acc [] = acc
dec_value acc (b ∷ bs) = dec_value (acc * 10 + (b - 48)) bs

dec_value-dec_digits :
    (fuel n : ℕ) (rest : Bytes) → n ≤ fuel → dec_value 0 (dec_digits fuel n rest) ≡ dec_value n rest
unfolding dec_value dec_digits
dec_value-dec_digits zero n rest h = ap (λ (k : ℕ). dec_value k rest) (omega arith)
dec_value-dec_digits (suc fuel) n rest h = elim (Bool-cases (ltb n 10)) [
  | inl small ↦ rw small (ap (λ (k : ℕ). dec_value k rest) (omega arith))
  | inr large ↦ rw large (
      dec_value-dec_digits fuel (n / 10) ((48 + n % 10) ∷ rest) (ground arith)
      ∙ ap (λ (k : ℕ). dec_value k rest) (omega arith))
]

-- Reading the digits gives the number back.
pub dec_value-decimal : (n : ℕ) → dec_value 0 (decimal n) ≡ n
unfolding decimal dec_value
dec_value-decimal n = dec_value-dec_digits n n [] (omega arith)

-- Different numbers have different digits.
pub decimal_inj : {m n : ℕ} → decimal m ≡ decimal n → m ≡ n
decimal_inj {m} {n} h = sym (dec_value-decimal m) ∙ ap (dec_value 0) h ∙ dec_value-decimal n

-- A byte is a decimal digit.
abbrev pub AllDigits : Bytes → Type 0
AllDigits [] = Unit
AllDigits (b ∷ bs) = (48 ≤ b) × (b ≤ 57) × AllDigits bs

dec_digits-AllDigits :
    (fuel n : ℕ) (rest : Bytes) → n ≤ fuel → AllDigits rest → AllDigits (dec_digits fuel n rest)
unfolding dec_digits
dec_digits-AllDigits zero n rest h d = (omega arith, omega arith, d)
dec_digits-AllDigits (suc fuel) n rest h d = elim (Bool-cases (ltb n 10)) [
  | inl small ↦ rw small (omega arith, ground arith, d)
  | inr large ↦ rw large (
      dec_digits-AllDigits fuel (n / 10) ((48 + n % 10) ∷ rest) (ground arith)
        (omega arith, omega arith, d))
]

pub decimal-AllDigits : (n : ℕ) → AllDigits (decimal n)
unfolding decimal
decimal-AllDigits n = dec_digits-AllDigits n n [] (omega arith) tt

length-dec_digits :
    (k fuel n : ℕ) (rest : Bytes)
    → n ≤ fuel
    → n < 10 ^ suc k
    → length (dec_digits fuel n rest) ≤ suc k + length rest
unfolding dec_digits
length-dec_digits k zero n rest h b = omega arith
length-dec_digits zero (suc fuel) n rest h b = rw (small n b) (omega arith)
  where
    small : (m : ℕ) → m < 10 ^ 1 → ltb m 10 ≡ true
    small m h = ground arith
length-dec_digits (suc k) (suc fuel) n rest h b = elim (Bool-cases (ltb n 10)) [
  | inl small ↦ rw small (omega arith)
  | inr large ↦ rw large (
      omega (
        arith,
        length-dec_digits k fuel (n / 10) ((48 + n % 10) ∷ rest) (ground arith) (omega arith),
      ))
]

-- A number below a power of ten has at most that many digits.
pub length-decimal : (k n : ℕ) → n < 10 ^ suc k → length (decimal n) ≤ suc k
unfolding decimal
length-decimal k n h = omega (arith, length-dec_digits k n n [] (omega arith) h)

dec_digits-cons :
    (fuel n : ℕ) (rest : Bytes) → (b : ℕ) × (bs : Bytes) × (dec_digits fuel n rest ≡ b ∷ bs)
unfolding dec_digits
dec_digits-cons zero n rest = (48 + n % 10, rest, refl)
dec_digits-cons (suc fuel) n rest = elim (Bool-cases (ltb n 10)) [
  | inl small ↦ rw small (48 + n, rest, refl)
  | inr large ↦ rw large (dec_digits-cons fuel (n / 10) ((48 + n % 10) ∷ rest))
]

-- There is a first digit.
pub decimal-cons : (n : ℕ) → (b : ℕ) × (bs : Bytes) × (decimal n ≡ b ∷ bs)
unfolding decimal
decimal-cons n = dec_digits-cons n n []
