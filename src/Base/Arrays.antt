-- ===== src/Base/Arrays.antt =====
-- Go's byte arrays of a fixed size, `[n]byte`, and the conversion of a slice to an array.
use Prim.Native.Nat.{ℕ, ◌≤◌}
use mathlib.Core.Path.{refl, ◌≡◌, ◌∙◌, ap}
use mathlib.Core.Logic.{◌↔◌, dite, dif_pos}
use native.Mathlib.Omega.{arith}
use native.Mathlib.Decide.{dec_le}
use native.Mathlib.Nat.{ℕ_set}
use native.Mathlib.Bridge.{le_prop}
use mathlib.Core.HLevel.{is_prop→PathP}
use mathlib.Core.Bool.{Bool, true, false, ◌&&◌}
use mathlib.Core.List.{[], ◌∷◌}
use zk_pig.Base.Tests.{◌==◌}
use zk_pig.Base.Results.{Outcome, ok, panic}
use zk_pig.Base.Lists.{length, take, replicate, length-take, length-replicate, take-all}
use zk_pig.Base.BigEndian.{Bytes}

pub record Array (n : ℕ) : Type 0 where
  pub bytes : Bytes
  pub sized : length bytes ≡ n

pub Array-ext : {n : ℕ} (a b : Array n) → a.bytes ≡ b.bytes → a ≡ b
Array-ext {n} a b p = λ i. record {
  bytes = p i;
  sized = is_prop→PathP (λ j. length (p j) ≡ n) (λ j. ℕ_set (length (p j)) n) a.sized b.sized i;
}

-- The zero value.
abbrev pub zeros : (n : ℕ) → Array n
zeros n = record { bytes = replicate n 0; sized = length-replicate n 0 }

pub length-take_le : (n : ℕ) (bs : Bytes) → n ≤ length bs → length (take n bs) ≡ n
length-take_le n bs h = omega (arith, length-take n bs)

-- `[n]byte(b)` panics if the slice is too short, and takes its first `n` bytes if it is longer.
unfoldable pub to_array : (n : ℕ) → Bytes → Outcome (Array n)
to_array n bs =
    dite (dec_le n (length bs))
      (λ h. ok (record { bytes = take n bs; sized = length-take_le n bs h })) (λ _. panic)

full : {n : ℕ} (a : Array n) → n ≤ length a.bytes
full a = omega (arith, a.sized)

-- The conversion of an array's own bytes gives the array.
pub to_array-bytes : {n : ℕ} (a : Array n) → to_array n a.bytes ≡ ok a
unfolding to_array
to_array-bytes {n} a =
    dif_pos (dec_le n (length a.bytes)) le_prop (full a)
      (λ h. ok (record { bytes = take n a.bytes; sized = length-take_le n a.bytes h })) (λ _. panic)
    ∙ ap ok (
        Array-ext (record { bytes = take n a.bytes; sized = length-take_le n a.bytes (full a) }) a
          (take-all n a.bytes (omega (arith, a.sized))))

-- `==` on byte strings and on arrays.
unfoldable pub bytes_eq : Bytes → Bytes → Bool
bytes_eq [] [] = true
bytes_eq (x ∷ xs) (y ∷ ys) = x == y && bytes_eq xs ys
bytes_eq _ _ = false

pub bytes_eq_sound : (xs ys : Bytes) → bytes_eq xs ys ≡ true → xs ≡ ys
unfolding bytes_eq
bytes_eq_sound [] [] h = refl
bytes_eq_sound [] (y ∷ ys) h = cc
bytes_eq_sound (x ∷ xs) [] h = cc
bytes_eq_sound (x ∷ xs) (y ∷ ys) h = ground (arith, bytes_eq_sound xs ys)

pub bytes_eq_refl : (xs : Bytes) → bytes_eq xs xs ≡ true
unfolding bytes_eq
bytes_eq_refl [] = refl
bytes_eq_refl (x ∷ xs) = ground (arith, bytes_eq_refl xs)

unfoldable pub array_eq : {n : ℕ} → Array n → Array n → Bool
unfolding bytes_eq
array_eq a b = bytes_eq a.bytes b.bytes

pub array_eq_sound : {n : ℕ} (a b : Array n) → array_eq a b ≡ true → a ≡ b
unfolding array_eq
array_eq_sound a b h = Array-ext a b (bytes_eq_sound a.bytes b.bytes h)

pub array_eq_refl : {n : ℕ} (a : Array n) → array_eq a a ≡ true
unfolding array_eq
array_eq_refl a = bytes_eq_refl a.bytes

pub array_eq_iff : {n : ℕ} (a b : Array n) → (array_eq a b ≡ true) ↔ (a ≡ b)
array_eq_iff a b = (array_eq_sound a b, λ e. rw e (array_eq_refl b))
