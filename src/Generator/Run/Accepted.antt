-- ===== src/Generator/Run/Accepted.antt =====
-- That a block runs to its end when the processor and the validator of go-ethereum accept it.
use zk_pig.Base.{some, true, ok, ◌≡◌, refl}
use zk_pig.Evm.Interface.{EvmLib, VmConfig}
use zk_pig.Evm.Executor
use zk_pig.Evm.Executor.{
  execute, with_hooks, execute_block, prefetching, process_and_validate, process_block,
  process_with, after_process, then_validate, validate_block, after_validate,
}
use zk_pig.Evm.Decorators.{logger_hooks, execute_with_log, execute_logged, log_ending}
use zk_pig.Generator.Run.{run, ended}

-- The config that the block is processed with.
abbrev pub logged_config : VmConfig
logged_config = record { tracer = some logger_hooks; stateless_self_validation = true }

module _ (E : EvmLib) where
  -- A witness can be made, and the processor and the validator accept the block on the state.
  pub record Accepts (hc : E.HeaderChain) (block : E.Block) (state : E.StateDb) : Type 0 where
    pub byzantium : E.is_byzantium hc block ≡ true
    pub witness : E.Witness
    pub witness_made : E.new_witness hc block ≡ ok witness
    pub res : E.ProcessResult
    pub left : E.StateDb
    pub processed :
        E.process hc block logged_config (E.start_prefetcher state witness) ≡ (ok res, left)
    pub final : E.StateDb
    pub validated : E.validate_state hc block (some res) left ≡ (ok tt, final)

  -- The block runs to its end, with the processor's result and the prefetcher stopped.
  pub run-ok :
      (hc : E.HeaderChain) (block : E.Block) (state : E.StateDb) (a : Accepts hc block state)
      → run E hc block true state ≡ ok (some a.res, E.stop_prefetcher a.final)
  unfolding run ended execute_with_log execute_logged log_ending execute with_hooks execute_block
      Executor.byzantium prefetching process_and_validate process_block process_with after_process
      then_validate validate_block after_validate
  run-ok hc block state a = rw (a.byzantium, a.witness_made, a.processed, a.validated) refl
