-- ===== src/Input.antt =====
-- src/prover-input/input.go: the prover input, over the type of transactions.
pub mod Normalize
pub mod Sorting
pub mod Compared
pub mod Sample
pub mod Tests
use zk_pig.Base.{ℕ, Option, Slice, String}
use zk_pig.Geth.Types.{Header, Withdrawal, ChainConfig}

pub record Witness : Type 0 where
  pub state : Slice (Slice ℕ)
  pub ancestors : Slice (Option Header)
  pub codes : Slice (Slice ℕ)

pub record Block (Transaction : Type 0) : Type 0 where
  pub header : Option Header
  pub transactions : Slice (Option Transaction)
  pub uncles : Slice (Option Header)
  pub withdrawals : Slice (Option Withdrawal)

pub record ProverInput (Transaction : Type 0) : Type 0 where
  pub version : String
  pub blocks : Slice (Option (Block Transaction))
  pub witness : Option Witness
  pub chain_config : Option ChainConfig
