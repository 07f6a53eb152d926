-- ===== src/Evm/Decorators.antt =====
-- The executor decorators of src/ethereum/evm/executor_logging.go around the executor, as the
-- generator stacks them: `ExecutorWithTags("evm")(ExecutorWithLog()(NewExecutor()))`. The tags and the
-- log lines are left out.
use zk_pig.Base.{Option, none, some, true, ◌≡◌, subst}
use zk_pig.Evm.Interface.{EvmLib, VmConfig, Tracer}
use zk_pig.Evm.Executor.{ExecParams, World, Ending, returned, panicked, execute}
use zk_pig.Evm.Executor.Success.{Checked, execute-success}
use zk_pig.Evm.Executor.Keeps.{KeptBy, execute_state}

-- `NewLoggerTracer(logger).Hooks()` sets both hooks of a block.
abbrev pub logger_hooks : Tracer
logger_hooks = record { on_block_start = true; on_block_end = true }

module _ (E : EvmLib) where
  -- `params.VMConfig.Tracer = ...`
  abbrev pub traced : ExecParams E → VmConfig → ExecParams E
  traced p cfg = record p { vm_config = some (record cfg { tracer = some logger_hooks }) }

  -- A success is logged with the gas of the result, which is dereferenced.
  unfoldable pub log_ending : Ending E → Ending E
  log_ending (returned none none) = panicked
  log_ending (returned (some res) none) = returned (some res) none
  log_ending (returned res (some e)) = returned res (some e)
  log_ending panicked = panicked

  unfoldable pub execute_logged : ExecParams E → World E → Option VmConfig → Ending E × World E
  unfolding log_ending
  execute_logged p w none = (panicked, w)
  execute_logged p w (some cfg) =
      let (ending, w') = execute E (traced p cfg) w in (log_ending ending, w')

  -- `ExecutorWithLog`
  unfoldable pub execute_with_log : ExecParams E → World E → Ending E × World E
  unfolding execute_logged
  execute_with_log p w = execute_logged p w p.vm_config

  log_ending-returned :
      (ending : Ending E) (res : Option E.ProcessResult)
      → log_ending ending ≡ returned res none
      → ending ≡ returned res none
  unfolding log_ending
  log_ending-returned (returned none none) res h = cc
  log_ending-returned (returned (some r) none) res h = h
  log_ending-returned (returned r (some e)) res h = h
  log_ending-returned panicked res h = h

  -- The result of a success under the decorator was checked by the executor.
  pub execute_with_log-success :
      (p : ExecParams E) (w : World E) (res : Option E.ProcessResult) {cfg : VmConfig}
      → p.vm_config ≡ some cfg
      → (execute_with_log p w).0 ≡ returned res none
      → Checked E (traced p cfg) res
  unfolding execute_with_log
  execute_with_log-success p w res {cfg} hc h =
      let h' = subst (λ (o : Option VmConfig). (execute_logged p w o).0 ≡ returned res none) hc h in
      of_logged h'
    where
      of_logged :
          (execute_logged p w (some cfg)).0 ≡ returned res none → Checked E (traced p cfg) res
      of_logged h =
          let run = execute E (traced p cfg) w in
          (execute-success E (traced p cfg) w res (log_ending-returned run.0 res h)).0

  pub execute_with_log_state :
      (P : E.StateDb → Type 0)
      → KeptBy E P
      → (p : ExecParams E) (w : World E) → P w.state
      → P (execute_with_log p w).1.state
  unfolding execute_with_log
  execute_with_log_state P K p w h = with_config p.vm_config
    where
      with_config : (o : Option VmConfig) → P (execute_logged p w o).1.state
      with_config none = h
      with_config (some cfg) = execute_state E P K (traced p cfg) w h
