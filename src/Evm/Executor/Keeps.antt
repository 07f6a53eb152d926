-- ===== src/Evm/Executor/Keeps.antt =====
-- What the calls of go-ethereum keep true of the state database, an execution keeps true.
use zk_pig.Base.{
  Option, none, some, Bool, true, false, if◌then◌else◌, Outcome, ok, err, panic, Error,
}
use zk_pig.Evm.Interface.{EvmLib, VmConfig, Tracer}
use zk_pig.Evm.Executor.{
  ExecParams, on_block_start, prefetcher_started, processed, validated, World, Ending, returned,
  panicked, called, report, after_process, process_with, process_block, after_validate,
  validate_block, then_validate, process_and_validate, prefetching, byzantium, execute_block,
  with_hooks, tracer_of, execute,
}

pub record KeptBy (E : EvmLib) (P : E.StateDb → Type 0) : Type 0 where
  pub start : (s : E.StateDb) (witness : E.Witness) → P s → P (E.start_prefetcher s witness)
  pub stop : (s : E.StateDb) → P s → P (E.stop_prefetcher s)
  pub process :
      (c : E.HeaderChain) (b : E.Block) (cfg : VmConfig) (s : E.StateDb)
      → P s
      → P (E.process c b cfg s).1
  pub validate_state :
      (c : E.HeaderChain) (b : E.Block) (res : Option E.ProcessResult) (s : E.StateDb)
      → P s
      → P (E.validate_state c b res s).1

module _ (E : EvmLib) (P : E.StateDb → Type 0) (K : KeptBy E P) where
  if_world : (test : Bool) (a b : World E) → P a.state → P b.state → P (if test then a else b).state
  if_world true a b h k = h
  if_world false a b h k = k

  if_result :
      (test : Bool) (a b : Ending E × World E)
      → P a.1.state
      → P b.1.state
      → P (if test then a else b).1.state
  if_result true a b h k = h
  if_result false a b h k = k

  report_state :
      (p : ExecParams E) (res : Option E.ProcessResult) (e : Option Error) (w : World E)
      → P w.state
      → P (report E p res e w).state
  report_state p res e w h = if_world p.reporter _ w h h

  after_process_state :
      (p : ExecParams E) (w : World E) (o : Outcome E.ProcessResult)
      → P w.state
      → P (after_process E p w o).1.state
  unfolding after_process
  after_process_state p w (ok res) h = h
  after_process_state p w (err e) h = report_state p none (some e) w h
  after_process_state p w panic h = h

  process_with_state :
      (p : ExecParams E) (w : World E) (cfg : Option VmConfig)
      → P w.state
      → P (process_with E p w cfg).1.state
  unfolding process_with
  process_with_state p w none h = h
  process_with_state p w (some cfg) h =
      let q = E.process p.chain p.block cfg w.state in
      after_process_state p (called E processed (record w { state = q.1 })) q.0
        (K.process p.chain p.block cfg w.state h)

  after_validate_state :
      (p : ExecParams E) (res : Option E.ProcessResult) (w : World E) (o : Outcome (Unit {0}))
      → P w.state
      → P (after_validate E p res w o).1.state
  unfolding after_validate
  after_validate_state p res w (ok u) h = report_state p res none w h
  after_validate_state p res w (err e) h = report_state p res (some e) w h
  after_validate_state p res w panic h = h

  then_validate_state :
      (p : ExecParams E) (ending : Ending E) (w : World E)
      → P w.state
      → P (then_validate E p (ending, w)).1.state
  unfolding then_validate validate_block
  then_validate_state p (returned res none) w h =
      let q = E.validate_state p.chain p.block res w.state in
      if_result p.validate _ (returned res none, w)
        (after_validate_state p res (called E validated (record w { state = q.1 })) q.0
          (K.validate_state p.chain p.block res w.state h))
        h
  then_validate_state p (returned res (some e)) w h = h
  then_validate_state p panicked w h = h

  process_and_validate_state :
      (p : ExecParams E) (w : World E) → P w.state → P (process_and_validate E p w).1.state
  unfolding process_and_validate process_block
  process_and_validate_state p w h =
      let q = process_with E p w p.vm_config in
      then_validate_state p q.0 q.1 (process_with_state p w p.vm_config h)

  prefetching_state :
      (p : ExecParams E) (w : World E) (o : Outcome E.Witness)
      → P w.state
      → P (prefetching E p w o).1.state
  unfolding prefetching
  prefetching_state p w (ok witness) h =
      let w' =
        called E prefetcher_started (record w { state = E.start_prefetcher w.state witness }) in
      K.stop (process_and_validate E p w').1.state
        (process_and_validate_state p w' (K.start w.state witness h))
  prefetching_state p w (err e) h = h
  prefetching_state p w panic h = h

  byzantium_state :
      (p : ExecParams E) (w : World E) (cfg : Option VmConfig)
      → P w.state
      → P (byzantium E p w cfg).1.state
  unfolding byzantium
  byzantium_state p w none h = h
  byzantium_state p w (some cfg) h =
      if_result cfg.stateless_self_validation (prefetching E p w (E.new_witness p.chain p.block))
        (process_and_validate E p w) (prefetching_state p w (E.new_witness p.chain p.block) h)
        (process_and_validate_state p w h)

  execute_block_state :
      (p : ExecParams E) (w : World E) → P w.state → P (execute_block E p w).1.state
  unfolding execute_block
  execute_block_state p w h =
      if_result (E.is_byzantium p.chain p.block) (byzantium E p w p.vm_config)
        (process_and_validate E p w) (byzantium_state p w p.vm_config h)
        (process_and_validate_state p w h)

  with_hooks_state :
      (p : ExecParams E) (w : World E) (o : Option Tracer)
      → P w.state
      → P (with_hooks E p w o).1.state
  unfolding with_hooks
  with_hooks_state p w none h = execute_block_state p w h
  with_hooks_state p w (some t) h =
      let start = if t.on_block_start then called E (on_block_start p.block) w else w in
      let q = execute_block E p start in
      let kept =
        execute_block_state p start
          (if_world t.on_block_start (called E (on_block_start p.block) w) w h h) in
      if_world t.on_block_end _ q.1 kept kept

  -- A property of the state database that the prefetcher, the processor and the validator keep is
  -- kept by `Execute`.
  pub execute_state : (p : ExecParams E) (w : World E) → P w.state → P (execute E p w).1.state
  unfolding execute
  execute_state p w h = with_hooks_state p w (tracer_of E p.vm_config) h
