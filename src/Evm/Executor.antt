-- ===== src/Evm/Executor.antt =====
-- src/ethereum/evm/executor.go. The calls that others can see are kept in a list, the last one first.
-- A function that is deferred runs however the function ends.
pub mod Calls
pub mod Results
pub mod Success
pub mod Keeps
use zk_pig.Base.{
  Option, none, some, List, [], ◌∷◌, Bool, true, false, if◌then◌else◌, Error, wrap, Outcome, ok,
  err, panic,
}
use zk_pig.Evm.Interface.{EvmLib, VmConfig, Tracer}

module _ (E : EvmLib) where
  pub record ExecParams : Type 0 where
    pub vm_config : Option VmConfig
    pub block : E.Block
    pub validate : Bool
    pub chain : E.HeaderChain
    -- whether `Reporter` is set
    pub reporter : Bool

  pub data Call : Type 0 where
    on_block_start : E.Block → Call
    on_block_end : Option Error → Call
    prefetcher_started : Call
    prefetcher_stopped : Call
    processed : Call
    validated : Call
    reported : Option E.ProcessResult → Option Error → Call

  pub record World : Type 0 where
    pub state : E.StateDb
    pub calls : List Call

  -- `(res, execErr)`, or a panic that goes through `Execute`.
  pub data Ending : Type 0 where
    returned : Option E.ProcessResult → Option Error → Ending
    panicked : Ending

  abbrev pub called : Call → World → World
  called c w = record w { calls = c ∷ w.calls }

  abbrev pub report : ExecParams → Option E.ProcessResult → Option Error → World → World
  report p res e w = if p.reporter then called (reported res e) w else w

  unfoldable pub after_process : ExecParams → World → Outcome E.ProcessResult → Ending × World
  after_process p w (ok res) = (returned (some res) none, w)
  after_process p w (err e) =
      (returned none (some (wrap "block processing failed" e)), report p none (some e) w)
  after_process p w panic = (panicked, w)

  unfoldable pub process_with : ExecParams → World → Option VmConfig → Ending × World
  unfolding after_process
  process_with p w none = (panicked, w)
  process_with p w (some cfg) =
      let (o, s) = E.process p.chain p.block cfg w.state in
      after_process p (called processed (record w { state = s })) o

  unfoldable pub process_block : ExecParams → World → Ending × World
  unfolding process_with
  process_block p w = process_with p w p.vm_config

  unfoldable pub after_validate :
      ExecParams → Option E.ProcessResult → World → Outcome (Unit {0}) → Ending × World
  after_validate p res w (ok u) = (returned res none, report p res none w)
  after_validate p res w (err e) =
      (returned res (some (wrap "block validation failed" e)), report p res (some e) w)
  after_validate p res w panic = (panicked, w)

  unfoldable pub validate_block : ExecParams → Option E.ProcessResult → World → Ending × World
  unfolding after_validate
  validate_block p res w =
      let (o, s) = E.validate_state p.chain p.block res w.state in
      after_validate p res (called validated (record w { state = s })) o

  unfoldable pub then_validate : ExecParams → Ending × World → Ending × World
  unfolding validate_block
  then_validate p (returned res none, w) =
      if p.validate then validate_block p res w else (returned res none, w)
  then_validate p (returned res (some e), w) = (returned res (some e), w)
  then_validate p (panicked, w) = (panicked, w)

  unfoldable pub process_and_validate : ExecParams → World → Ending × World
  unfolding process_block then_validate
  process_and_validate p w = then_validate p (process_block p w)

  unfoldable pub prefetching : ExecParams → World → Outcome E.Witness → Ending × World
  unfolding process_and_validate
  prefetching p w (ok witness) =
      let (ending, w') =
        process_and_validate p
          (called prefetcher_started (record w { state = E.start_prefetcher w.state witness })) in
      (ending, called prefetcher_stopped (record w' { state = E.stop_prefetcher w'.state }))
  prefetching p w (err e) = (returned none (some (wrap "failed to create witness" e)), w)
  prefetching p w panic = (panicked, w)

  unfoldable pub byzantium : ExecParams → World → Option VmConfig → Ending × World
  unfolding prefetching process_and_validate
  byzantium p w none = (panicked, w)
  byzantium p w (some cfg) =
      if cfg.stateless_self_validation
      then prefetching p w (E.new_witness p.chain p.block)
      else process_and_validate p w

  unfoldable pub execute_block : ExecParams → World → Ending × World
  unfolding byzantium process_and_validate
  execute_block p w =
      if E.is_byzantium p.chain p.block then byzantium p w p.vm_config else process_and_validate p w

  -- `execErr` when the deferred hook runs.
  unfoldable pub exec_err : Ending → Option Error
  exec_err (returned res e) = e
  exec_err panicked = none

  -- The hooks around the rest of the function.
  unfoldable pub with_hooks : ExecParams → World → Option Tracer → Ending × World
  unfolding execute_block exec_err
  with_hooks p w none = execute_block p w
  with_hooks p w (some t) =
      let start = if t.on_block_start then called (on_block_start p.block) w else w in
      let (ending, w') = execute_block p start in
      (ending, if t.on_block_end then called (on_block_end (exec_err ending)) w' else w')

  abbrev pub tracer_of : Option VmConfig → Option Tracer
  tracer_of none = none
  tracer_of (some cfg) = cfg.tracer

  unfoldable pub execute : ExecParams → World → Ending × World
  unfolding with_hooks
  execute p w = with_hooks p w (tracer_of p.vm_config)
