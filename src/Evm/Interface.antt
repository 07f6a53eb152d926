-- ===== src/Evm/Interface.antt =====
-- What the executor calls of go-ethereum: the state processor, the block validator, the witness and
-- the state database. A hook of a tracer is given by whether it is set.
use zk_pig.Base.{Option, Bool, Outcome}

pub record Tracer : Type 0 where
  pub on_block_start : Bool
  pub on_block_end : Bool

pub record VmConfig : Type 0 where
  pub tracer : Option Tracer
  pub stateless_self_validation : Bool

pub record EvmLib : Type 1 where
  pub Block : Type 0
  pub HeaderChain : Type 0
  pub StateDb : Type 0
  pub ProcessResult : Type 0
  pub Witness : Type 0
  pub is_byzantium : HeaderChain → Block → Bool
  pub new_witness : HeaderChain → Block → Outcome Witness
  pub start_prefetcher : StateDb → Witness → StateDb
  pub stop_prefetcher : StateDb → StateDb
  pub process : HeaderChain → Block → VmConfig → StateDb → Outcome ProcessResult × StateDb
  pub validate_state :
      HeaderChain → Block → Option ProcessResult → StateDb → Outcome (Unit {0}) × StateDb
