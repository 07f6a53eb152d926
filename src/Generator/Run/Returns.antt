-- ===== src/Generator/Run/Returns.antt =====
-- That running a block returns, if the calls of go-ethereum do.
use zk_pig.Base.{none, some, Bool, panic, ◌≢◌, refl}
use zk_pig.Evm.Interface.{EvmLib}
use zk_pig.Evm.Executor.{Ending, returned, panicked, execute}
use zk_pig.Evm.Executor.Success.{execute-success}
use zk_pig.Evm.Executor.Results.{NeverPanics, execute-panicked_iff}
use zk_pig.Evm.Decorators.{traced, execute_with_log, execute_logged, log_ending}
use zk_pig.Generator.Run.{stateless_config, exec_params, fresh, run, ended}

module _ (E : EvmLib) (N : NeverPanics E) where
  pub run_returns :
      (hc : E.HeaderChain) (block : E.Block) (validate : Bool) (state : E.StateDb)
      → run E hc block validate state ≢ panic
  unfolding run ended execute_with_log execute_logged log_ending
  run_returns hc block validate state =
      let p = traced E (exec_params E hc block validate) stateless_config in
      let r = execute E p (fresh E state) in
      of r.0 r.1.state (λ h. absurd (cc ((execute-panicked_iff E N p (fresh E state)).0 h)))
        (λ h. let (_, _, _, _, _, is, _) = (execute-success E p (fresh E state) none h).0 in cc is)
    where
      of :
          (ending : Ending E) (s : E.StateDb)
          → ending ≢ panicked
          → ending ≢ returned none none
          → ended E (log_ending E ending) s ≢ panic
      of (returned none none) s h k = absurd (k refl)
      of (returned (some res) none) s h k = λ e. cc
      of (returned res (some x)) s h k = λ e. cc
      of panicked s h k = absurd (h refl)
