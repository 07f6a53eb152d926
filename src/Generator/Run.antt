-- ===== src/Generator/Run.antt =====
-- How the three steps of the generator run a block: the call of the executor stack on a state database.
pub mod Accepted
pub mod Returns
use zk_pig.Base.{Option, none, some, [], Bool, true, false, Outcome, ok, err, panic, ◌≡◌, refl}
use zk_pig.Evm.Interface.{EvmLib, VmConfig}
use zk_pig.Evm.Executor.{ExecParams, World, Ending, returned, panicked}
use zk_pig.Evm.Executor.Success.{Checked}
use zk_pig.Evm.Executor.Keeps.{KeptBy}
use zk_pig.Evm.Decorators.{
  traced, execute_with_log, execute_with_log-success, execute_with_log_state,
}

-- `&vm.Config{StatelessSelfValidation: true}`
abbrev pub stateless_config : VmConfig
stateless_config = record { tracer = none; stateless_self_validation = true }

module _ (E : EvmLib) where
  -- The params of the generator have no reporter.
  abbrev pub exec_params : E.HeaderChain → E.Block → Bool → ExecParams E
  exec_params hc block validate = record {
    vm_config = some stateless_config;
    block = block;
    validate = validate;
    chain = hc;
    reporter = false;
  }

  abbrev pub fresh : E.StateDb → World E
  fresh state = record { state = state; calls = [] }

  -- The result and the state that the execution leaves.
  unfoldable pub ended : Ending E → E.StateDb → Outcome (Option E.ProcessResult × E.StateDb)
  ended (returned res none) state = ok (res, state)
  ended (returned res (some e)) state = err e
  ended panicked state = panic

  unfoldable pub run :
      E.HeaderChain → E.Block → Bool → E.StateDb → Outcome (Option E.ProcessResult × E.StateDb)
  unfolding ended
  run hc block validate state =
      let (ending, w) = execute_with_log E (exec_params hc block validate) (fresh state) in
      ended ending w.state

  ended-ok :
      (ending : Ending E) (state : E.StateDb) {res : Option E.ProcessResult} {state' : E.StateDb}
      → ended ending state ≡ ok (res, state')
      → (ending ≡ returned res none) × (state ≡ state')
  unfolding ended
  ended-ok (returned r none) state h = (cc, cc)
  ended-ok (returned r (some e)) state h = cc
  ended-ok panicked state h = cc

  -- What a run that succeeds has checked.
  abbrev pub RunChecked : E.HeaderChain → E.Block → Bool → Option E.ProcessResult → Type 0
  RunChecked hc block validate res =
      Checked E (traced E (exec_params hc block validate) stateless_config) res

  pub run-Checked :
      (hc : E.HeaderChain) (block : E.Block) (validate : Bool) (state : E.StateDb)
      {res : Option E.ProcessResult} {state' : E.StateDb}
      → run hc block validate state ≡ ok (res, state')
      → RunChecked hc block validate res
  unfolding run
  run-Checked hc block validate state {res} h =
      let p = exec_params hc block validate in
      let r = execute_with_log E p (fresh state) in
      execute_with_log-success E p (fresh state) res refl (ended-ok r.0 r.1.state h).0

  pub run_state :
      (P : E.StateDb → Type 0)
      → KeptBy E P
      → (hc : E.HeaderChain) (block : E.Block) (validate : Bool) (state : E.StateDb)
        {res : Option E.ProcessResult} {state' : E.StateDb}
      → run hc block validate state ≡ ok (res, state')
      → P state
      → P state'
  unfolding run
  run_state P K hc block validate state h kept =
      let p = exec_params hc block validate in
      let r = execute_with_log E p (fresh state) in
      rw (← (ended-ok r.0 r.1.state h).1) (execute_with_log_state E P K p (fresh state) kept)

  -- The block was processed on some state, and the result and the state that this left were
  -- validated.
  abbrev pub Validated : E.HeaderChain → E.Block → Option E.ProcessResult → Type 0
  Validated hc block res =
      (cfg : VmConfig) × (s : E.StateDb) × (r : E.ProcessResult) × ((E.process hc block cfg s).0
        ≡ ok r)
      × (res ≡ some r)
      × ((E.validate_state hc block res (E.process hc block cfg s).1).0 ≡ ok tt)

  pub run-Validated :
      (hc : E.HeaderChain) (block : E.Block) (state : E.StateDb) {res : Option E.ProcessResult}
      {state' : E.StateDb}
      → run hc block true state ≡ ok (res, state')
      → Validated hc block res
  run-Validated hc block state h =
      let (cfg, s, r, _, e, e', valid) = run-Checked hc block true state h in
      (cfg, s, r, e, e', valid refl)
