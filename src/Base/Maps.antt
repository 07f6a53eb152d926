-- ===== src/Base/Maps.antt =====
-- Go maps with fixed-size byte arrays as keys, as association lists.
use Prim.Native.Nat.{ℕ}
use mathlib.Core.Path.{◌≡◌, refl}
use mathlib.Core.Option.{Option, none, some}
use mathlib.Core.List.{List, [], ◌∷◌}
use mathlib.Core.Logic.{inl, inr}
use zk_pig.Base.Tests.{Bool-cases}
use zk_pig.Base.Lists.{Exists, here, there}
use zk_pig.Base.Arrays.{array_eq_sound}
use native.Mathlib.Omega.{arith}
use zk_pig.Base.Tests.{if◌then◌else◌}
use zk_pig.Base.Arrays.{Array, array_eq, array_eq_iff}

abbrev pub Map : ℕ → Type 0 → Type 0
Map n V = List (Array n × V)

module _ {n : ℕ} {V : Type 0} where
  unfoldable pub lookup : Array n → Map n V → Option V
  lookup key [] = none
  lookup key ((other, value) ∷ rest) = if array_eq other key then some value else lookup key rest

  unfoldable pub insert : Array n → V → Map n V → Map n V
  insert k v [] = (k, v) ∷ []
  insert k v ((j, w) ∷ m) = if array_eq j k then (k, v) ∷ m else (j, w) ∷ insert k v m

  unfoldable pub erase : Array n → Map n V → Map n V
  erase k [] = []
  erase k ((j, w) ∷ m) = let rest = erase k m in if array_eq j k then rest else (j, w) ∷ rest

  pub lookup-insert :
      (k j : Array n) (v : V) (m : Map n V)
      → lookup j (insert k v m) ≡ (if array_eq k j then some v else lookup j m)
  unfolding lookup insert
  lookup-insert k j v [] = refl
  lookup-insert k j v ((i, w) ∷ m) =
      ground (arith, array_eq_iff k j, array_eq_iff i k, array_eq_iff i j, lookup-insert k j v m)

  pub lookup-erase :
      (k j : Array n) (m : Map n V)
      → lookup j (erase k m) ≡ (if array_eq k j then none else lookup j m)
  unfolding lookup erase
  lookup-erase k j [] = ground arith
  lookup-erase k j ((i, w) ∷ m) =
      ground (arith, array_eq_iff k j, array_eq_iff i k, array_eq_iff i j, lookup-erase k j m)

  -- A key that has a value is the key of an entry.
  pub lookup-Exists :
      (k : Array n) (m : Map n V) {v : V} → lookup k m ≡ some v → Exists (λ e. e.0 ≡ k) m
  unfolding lookup
  lookup-Exists k [] h = cc
  lookup-Exists k ((j, w) ∷ m) h = elim (Bool-cases (array_eq j k)) [
    | inl same ↦ here (array_eq_sound j k same)
    | inr other ↦ there (lookup-Exists k m (rw other at h))
  ]
