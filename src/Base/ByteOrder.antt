-- ===== src/Base/ByteOrder.antt =====
-- The lexicographic order of byte strings that `bytes.Compare` decides.
use Prim.Native.Nat.{ℕ}
use mathlib.Core.Path.{◌≡◌, refl}
use mathlib.Core.Bool.{Bool, true, false}
use mathlib.Core.List.{List, [], ◌∷◌}
use native.Mathlib.Omega.{arith}
use zk_pig.Base.Tests.{ltb, if◌then◌else◌}

-- `bytes.Compare(a, b) < 0`
unfoldable pub bytes_less : List ℕ → List ℕ → Bool
bytes_less [] [] = false
bytes_less [] (y ∷ ys) = true
bytes_less (x ∷ xs) [] = false
bytes_less (x ∷ xs) (y ∷ ys) =
    let rest = bytes_less xs ys in if ltb x y then true else if ltb y x then false else rest

pub bytes_less_trans :
    (a b c : List ℕ) → bytes_less a b ≡ true → bytes_less b c ≡ true → bytes_less a c ≡ true
unfolding bytes_less
bytes_less_trans [] [] c h k = cc
bytes_less_trans [] (y ∷ ys) [] h k = cc
bytes_less_trans [] (y ∷ ys) (z ∷ zs) h k = refl
bytes_less_trans (x ∷ xs) [] c h k = cc
bytes_less_trans (x ∷ xs) (y ∷ ys) [] h k = cc
bytes_less_trans (x ∷ xs) (y ∷ ys) (z ∷ zs) h k = ground (arith, bytes_less_trans xs ys zs)

pub bytes_less_cotrans :
    (a b c : List ℕ) → bytes_less a b ≡ false → bytes_less b c ≡ false → bytes_less a c ≡ false
unfolding bytes_less
bytes_less_cotrans [] b [] h k = refl
bytes_less_cotrans [] [] (z ∷ zs) h k = cc
bytes_less_cotrans [] (y ∷ ys) (z ∷ zs) h k = cc
bytes_less_cotrans (x ∷ xs) b [] h k = refl
bytes_less_cotrans (x ∷ xs) [] (z ∷ zs) h k = cc
bytes_less_cotrans (x ∷ xs) (y ∷ ys) (z ∷ zs) h k = ground (arith, bytes_less_cotrans xs ys zs)

pub bytes_less_irrefl : (a : List ℕ) → bytes_less a a ≡ false
unfolding bytes_less
bytes_less_irrefl [] = refl
bytes_less_irrefl (x ∷ xs) = ground (arith, bytes_less_irrefl xs)

pub bytes_less_antisymm : (a b : List ℕ) → bytes_less a b ≡ false → bytes_less b a ≡ false → a ≡ b
unfolding bytes_less
bytes_less_antisymm [] [] h k = refl
bytes_less_antisymm [] (y ∷ ys) h k = cc
bytes_less_antisymm (x ∷ xs) [] h k = cc
bytes_less_antisymm (x ∷ xs) (y ∷ ys) h k = ground (arith, bytes_less_antisymm xs ys)

-- Neither of two byte strings is after itself or after what it is before.
pub bytes_less_asymm : (a b : List ℕ) → bytes_less a b ≡ true → bytes_less b a ≡ false
unfolding bytes_less
bytes_less_asymm [] [] h = refl
bytes_less_asymm [] (y ∷ ys) h = refl
bytes_less_asymm (x ∷ xs) [] h = cc
bytes_less_asymm (x ∷ xs) (y ∷ ys) h = ground (arith, bytes_less_asymm xs ys)
