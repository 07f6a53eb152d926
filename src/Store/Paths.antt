-- ===== src/Store/Paths.antt =====
-- The paths under which src/store keeps the data of a block.
use mathlib.Core.List.{append_cancel_right}
use zk_pig.Base.{
  ℤ, nat_abs, ◌%◌, ◌^◌, ◌≤◌, ◌<◌, arith, length, decimal, AllDigits, decimal-AllDigits, decimal_inj,
  length-decimal, length-append, ◌≡◌, ◌↔◌, ap,
}
use zk_pig.Store.{uint64}
use zk_pig.Store.ProverInputs.{prover_path}
use zk_pig.Store.PreflightData.{preflight_path, json_ending}

uint64-lt : (n : ℤ) → uint64 n < 10 ^ 20
uint64-lt n = omega arith

-- A block's files are named by at most twenty decimal digits, so that they lie in no other directory,
-- and two blocks share a file exactly if their numbers agree in 64 bits.
pub paths_bounds :
    (m n : ℤ)
    → AllDigits (prover_path (uint64 m))
      × (length (prover_path (uint64 m)) ≤ 20)
      × (length (preflight_path (uint64 m)) ≤ 25)
      × ((prover_path (uint64 m) ≡ prover_path (uint64 n))
          ↔ (nat_abs m % 2 ^ 64 ≡ nat_abs n % 2 ^ 64))
      × ((preflight_path (uint64 m) ≡ preflight_path (uint64 n))
          ↔ (nat_abs m % 2 ^ 64 ≡ nat_abs n % 2 ^ 64))
paths_bounds m n =
    let short = length-decimal 19 (uint64 m) (uint64-lt m) in
    (
      decimal-AllDigits (uint64 m),
      short,
      omega (arith, length-append (decimal (uint64 m)) json_ending),
      (decimal_inj, ap decimal),
      (
        λ h.
            decimal_inj
              (append_cancel_right (decimal (uint64 m)) (decimal (uint64 n)) json_ending h),
        ap preflight_path,
      ),
    )
