-- ===== src/Evm/Executor/Calls.antt =====
-- The order of the calls that `Execute` makes, as the runs of a small automaton.
use zk_pig.Base.{
  Option, none, some, List, [], ◌∷◌, Bool, true, false, Bool-cases, inl, inr, Error, Outcome, ok,
  err, panic, ◌≡◌, refl, sym, ap, ◌∙◌, subst,
}
use zk_pig.Evm.Interface.{EvmLib, VmConfig, Tracer}
use zk_pig.Evm.Executor.{
  ExecParams, Call, on_block_start, on_block_end, prefetcher_started, prefetcher_stopped, processed,
  validated, reported, World, Ending, returned, panicked, called, report, after_process,
  process_with, process_block, after_validate, validate_block, then_validate, process_and_validate,
  prefetching, byzantium, execute_block, exec_err, with_hooks, tracer_of, execute,
}

-- Where an execution stands: the phase tells whether the prefetcher runs, and what was done.
pub data Phase : Type 0 where
  idle : Phase
  in_block : Bool → Phase
  was_processed : Bool → Phase
  was_validated : Bool → Phase
  closing : Phase

module _ (E : EvmLib) where
  -- One call: a block is processed at most once, then validated at most once, and the prefetcher
  -- runs around both or not at all.
  abbrev pub step : Phase → Call E → Option Phase
  step idle (on_block_start b) = some (in_block false)
  step (in_block false) prefetcher_started = some (in_block true)
  step (in_block f) processed = some (was_processed f)
  step (in_block true) prefetcher_stopped = some closing
  step (in_block false) (on_block_end e) = some idle
  step (was_processed f) validated = some (was_validated f)
  step (was_processed f) (reported res e) = some (was_processed f)
  step (was_processed true) prefetcher_stopped = some closing
  step (was_processed false) (on_block_end e) = some idle
  step (was_validated f) (reported res e) = some (was_validated f)
  step (was_validated true) prefetcher_stopped = some closing
  step (was_validated false) (on_block_end e) = some idle
  step closing (on_block_end e) = some idle
  step _ _ = none

  unfoldable pub step_from : Option Phase → Call E → Option Phase
  step_from none c = none
  step_from (some phase) c = step phase c

  -- The calls, of which the last one stands first.
  unfoldable pub follow : List (Call E) → Option Phase
  unfolding step_from
  follow [] = some idle
  follow (c ∷ cs) = step_from (follow cs) c

  -- The prefetcher runs or does not, and the block may be closed.
  abbrev Open : Bool → Option Phase → Type 0
  Open f none = ⊥
  Open f (some idle) = ⊥
  Open f (some (in_block g)) = f ≡ g
  Open f (some (was_processed g)) = f ≡ g
  Open f (some (was_validated g)) = f ≡ g
  Open f (some closing) = f ≡ false

  report-processed :
      (p : ExecParams E) (res : Option E.ProcessResult) (e : Option Error) (w : World E) (f : Bool)
      → follow w.calls ≡ some (was_processed f)
      → follow (report E p res e w).calls ≡ some (was_processed f)
  unfolding follow step_from
  report-processed p res e w f h = elim (Bool-cases p.reporter) [
    | inl t ↦ rw (t, h) refl
    | inr n ↦ rw n h
  ]

  report-validated :
      (p : ExecParams E) (res : Option E.ProcessResult) (e : Option Error) (w : World E) (f : Bool)
      → follow w.calls ≡ some (was_validated f)
      → follow (report E p res e w).calls ≡ some (was_validated f)
  unfolding follow step_from
  report-validated p res e w f h = elim (Bool-cases p.reporter) [
    | inl t ↦ rw (t, h) refl
    | inr n ↦ rw n h
  ]

  after_process-follow :
      (p : ExecParams E) (w : World E) (o : Outcome E.ProcessResult) (f : Bool)
      → follow w.calls ≡ some (was_processed f)
      → follow (after_process E p w o).1.calls ≡ some (was_processed f)
  unfolding after_process
  after_process-follow p w (ok res) f h = h
  after_process-follow p w (err e) f h = report-processed p none (some e) w f h
  after_process-follow p w panic f h = h

  after_validate-follow :
      (p : ExecParams E) (res : Option E.ProcessResult) (w : World E) (o : Outcome (Unit {0}))
      (f : Bool)
      → follow w.calls ≡ some (was_validated f)
      → follow (after_validate E p res w o).1.calls ≡ some (was_validated f)
  unfolding after_validate
  after_validate-follow p res w (ok u) f h = report-validated p res none w f h
  after_validate-follow p res w (err e) f h = report-validated p res (some e) w f h
  after_validate-follow p res w panic f h = h

  Opened : Bool → World E → Type 0
  Opened f w = Open f (follow w.calls)

  validate_block-Open :
      (p : ExecParams E) (res : Option E.ProcessResult) (w : World E) (f : Bool)
      → follow w.calls ≡ some (was_processed f)
      → Open f (follow (validate_block E p res w).1.calls)
  unfolding validate_block follow step_from
  validate_block-Open p res w f h =
      let (o, s) = E.validate_state p.chain p.block res w.state in
      rw (after_validate-follow p res (called E validated (record w { state = s })) o f (rw h refl))
        refl

  then_validate-Open :
      (p : ExecParams E) (ending : Ending E) (w : World E) (f : Bool)
      → follow w.calls ≡ some (was_processed f)
      → Open f (follow (then_validate E p (ending, w)).1.calls)
  unfolding then_validate
  then_validate-Open p (returned res none) w f h = elim (Bool-cases p.validate) [
    | inl t ↦ rw t (validate_block-Open p res w f h)
    | inr n ↦ rw (n, h) refl
  ]
  then_validate-Open p (returned res (some e)) w f h = rw h refl
  then_validate-Open p panicked w f h = rw h refl

  processing : (f : Bool) → step (in_block f) processed ≡ some (was_processed f)
  processing true = refl
  processing false = refl

  process_with-Open :
      (p : ExecParams E) (w : World E) (cfg : Option VmConfig) (f : Bool)
      → follow w.calls ≡ some (in_block f)
      → Open f (follow (then_validate E p (process_with E p w cfg)).1.calls)
  unfolding process_with then_validate follow step_from
  process_with-Open p w none f h = rw h refl
  process_with-Open p w (some cfg) f h =
      let (o, s) = E.process p.chain p.block cfg w.state in
      let w' = called E processed (record w { state = s }) in
      let q = after_process E p w' o in
      then_validate-Open p q.0 q.1 f (after_process-follow p w' o f (rw h (processing f)))

  process_and_validate-Open :
      (p : ExecParams E) (w : World E) (f : Bool)
      → follow w.calls ≡ some (in_block f)
      → Open f (follow (process_and_validate E p w).1.calls)
  unfolding process_and_validate process_block
  process_and_validate-Open p w f h = process_with-Open p w p.vm_config f h

  stopping : (o : Option Phase) → Open true o → Open false (step_from o prefetcher_stopped)
  unfolding step_from
  stopping none h = h
  stopping (some idle) h = h
  stopping (some (in_block true)) h = refl
  stopping (some (in_block false)) h = cc
  stopping (some (was_processed true)) h = refl
  stopping (some (was_processed false)) h = cc
  stopping (some (was_validated true)) h = refl
  stopping (some (was_validated false)) h = cc
  stopping (some closing) h = cc

  ending_block :
      (o : Option Phase) (e : Option Error)
      → Open false o
      → step_from o (on_block_end e) ≡ some idle
  unfolding step_from
  ending_block none e h = absurd h
  ending_block (some idle) e h = absurd h
  ending_block (some (in_block false)) e h = refl
  ending_block (some (in_block true)) e h = cc
  ending_block (some (was_processed false)) e h = refl
  ending_block (some (was_processed true)) e h = cc
  ending_block (some (was_validated false)) e h = refl
  ending_block (some (was_validated true)) e h = cc
  ending_block (some closing) e h = refl

  prefetching-Open :
      (p : ExecParams E) (w : World E) (o : Outcome E.Witness)
      → follow w.calls ≡ some (in_block false)
      → Open false (follow (prefetching E p w o).1.calls)
  unfolding prefetching follow step_from
  prefetching-Open p w (ok witness) h =
      let w' =
        called E prefetcher_started (record w { state = E.start_prefetcher w.state witness }) in
      stopping (follow (process_and_validate E p w').1.calls)
        (process_and_validate-Open p w' true (rw h refl))
  prefetching-Open p w (err e) h = rw h refl
  prefetching-Open p w panic h = rw h refl

  byzantium-Open :
      (p : ExecParams E) (w : World E) (cfg : Option VmConfig)
      → follow w.calls ≡ some (in_block false)
      → Open false (follow (byzantium E p w cfg).1.calls)
  unfolding byzantium
  byzantium-Open p w none h = rw h refl
  byzantium-Open p w (some cfg) h = elim (Bool-cases cfg.stateless_self_validation) [
    | inl t ↦ rw t (prefetching-Open p w (E.new_witness p.chain p.block) h)
    | inr n ↦ rw n (process_and_validate-Open p w false h)
  ]

  execute_block-Open :
      (p : ExecParams E) (w : World E)
      → follow w.calls ≡ some (in_block false)
      → Open false (follow (execute_block E p w).1.calls)
  unfolding execute_block
  execute_block-Open p w h = elim (Bool-cases (E.is_byzantium p.chain p.block)) [
    | inl t ↦ rw t (byzantium-Open p w p.vm_config h)
    | inr n ↦ rw n (process_and_validate-Open p w false h)
  ]

  with_hooks-follow :
      (p : ExecParams E) (w : World E) (t : Tracer)
      → t.on_block_start ≡ true
      → t.on_block_end ≡ true
      → follow w.calls ≡ some idle
      → follow (with_hooks E p w (some t)).1.calls ≡ some idle
  unfolding with_hooks follow step_from
  with_hooks-follow p w t hs he h =
      let start = called E (on_block_start p.block) w in
      let q = execute_block E p start in
      rw (hs, he)
        (ending_block (follow q.1.calls) (exec_err E q.0) (execute_block-Open p start (rw h refl)))

  -- When the VM config has a tracer with both hooks, every execution, one that fails or panics too,
  -- makes its calls in the order of the automaton: from a history that ends between blocks it comes
  -- back there, so the start hook is matched by one end hook, which comes last, the block is
  -- processed at most once and validated only after that, and a prefetcher that is started before
  -- the processing is stopped behind it, before the end hook.
  pub execute-follow :
      (p : ExecParams E) (w : World E) {cfg : VmConfig} {t : Tracer}
      → p.vm_config ≡ some cfg
      → cfg.tracer ≡ some t
      → t.on_block_start ≡ true
      → t.on_block_end ≡ true
      → follow w.calls ≡ some idle
      → follow (execute E p w).1.calls ≡ some idle
  unfolding execute
  execute-follow p w {cfg} {t} hc ht hs he h =
      subst (λ (o : Option Tracer). follow (with_hooks E p w o).1.calls ≡ some idle)
        (sym (ap (tracer_of E) hc ∙ ht)) (with_hooks-follow p w t hs he h)
