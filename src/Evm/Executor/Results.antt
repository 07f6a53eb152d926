-- ===== src/Evm/Executor/Results.antt =====
-- What `Execute` returns, and whom it tells.
use zk_pig.Base.{
  Option, none, some, if◌then◌else◌, Bool-cases, inl, inr, Outcome, ok, err, panic, ◌≡◌, ◌≢◌, refl,
  sym, ◌∙◌, subst, ◌↔◌,
}
use zk_pig.Evm.Interface.{EvmLib, VmConfig, Tracer}
use zk_pig.Evm.Executor.{
  ExecParams, on_block_start, prefetcher_started, processed, validated, World, Ending, returned,
  panicked, called, after_process, process_with, process_block, after_validate, validate_block,
  then_validate, process_and_validate, prefetching, byzantium, execute_block, with_hooks, tracer_of,
  execute,
}

-- The processor, the validator and the making of a witness return, with an error at the worst.
pub record NeverPanics (E : EvmLib) : Type 0 where
  pub new_witness_lem : (c : E.HeaderChain) (b : E.Block) → E.new_witness c b ≢ panic
  pub process_lem :
      (c : E.HeaderChain) (b : E.Block) (cfg : VmConfig) (s : E.StateDb)
      → (E.process c b cfg s).0 ≢ panic
  pub validate_state_lem :
      (c : E.HeaderChain) (b : E.Block) (res : Option E.ProcessResult) (s : E.StateDb)
      → (E.validate_state c b res s).0 ≢ panic

module _ (E : EvmLib) where
  with_hooks-ending :
      (p : ExecParams E) (w : World E) (o : Option Tracer)
      → (w' : World E) × ((with_hooks E p w o).0 ≡ (execute_block E p w').0)
  unfolding with_hooks
  with_hooks-ending p w none = (w, refl)
  with_hooks-ending p w (some t) =
      (if t.on_block_start then called E (on_block_start p.block) w else w, refl)

  -- Without a VM config.
  no_config :
      (p : ExecParams E) (w : World E) → p.vm_config ≡ none → (execute_block E p w).0 ≡ panicked
  unfolding execute_block byzantium process_and_validate process_block process_with then_validate
  no_config p w h = elim (Bool-cases (E.is_byzantium p.chain p.block)) [
    | inl t ↦ rw (t, h) refl
    | inr n ↦ rw (n, h) refl
  ]

  module _ (N : NeverPanics E) where
    after_validate-returns :
        (p : ExecParams E) (res : Option E.ProcessResult) (w : World E) (o : Outcome (Unit {0}))
        → o ≢ panic
        → (after_validate E p res w o).0 ≢ panicked
    unfolding after_validate
    after_validate-returns p res w (ok u) h = λ e. cc
    after_validate-returns p res w (err e) h = λ e'. cc
    after_validate-returns p res w panic h = absurd (h refl)

    then_validate-returns :
        (p : ExecParams E) (ending : Ending E) (w : World E)
        → ending ≢ panicked
        → (then_validate E p (ending, w)).0 ≢ panicked
    unfolding then_validate validate_block
    then_validate-returns p (returned res none) w h = elim (Bool-cases p.validate) [
      | inl t ↦ rw t (
          let q = E.validate_state p.chain p.block res w.state in
          after_validate-returns p res (called E validated (record w { state = q.1 })) q.0
            (N.validate_state_lem p.chain p.block res w.state))
      | inr n ↦ rw n (λ e. cc)
    ]
    then_validate-returns p (returned res (some e)) w h = λ e'. cc
    then_validate-returns p panicked w h = absurd (h refl)

    after_process-returns :
        (p : ExecParams E) (w : World E) (o : Outcome E.ProcessResult)
        → o ≢ panic
        → (after_process E p w o).0 ≢ panicked
    unfolding after_process
    after_process-returns p w (ok r) h = λ e. cc
    after_process-returns p w (err e) h = λ e'. cc
    after_process-returns p w panic h = absurd (h refl)

    process_with-returns :
        (p : ExecParams E) (w : World E) (cfg : VmConfig)
        → (then_validate E p (process_with E p w (some cfg))).0 ≢ panicked
    unfolding process_with
    process_with-returns p w cfg =
        let o = E.process p.chain p.block cfg w.state in
        let q = after_process E p (called E processed (record w { state = o.1 })) o.0 in
        then_validate-returns p q.0 q.1 (
          after_process-returns p (called E processed (record w { state = o.1 })) o.0
            (N.process_lem p.chain p.block cfg w.state))

    process_and_validate-returns :
        (p : ExecParams E) (w : World E) {cfg : VmConfig}
        → p.vm_config ≡ some cfg
        → (process_and_validate E p w).0 ≢ panicked
    unfolding process_and_validate process_block
    process_and_validate-returns p w {cfg} h =
        subst (λ (c : Option VmConfig). (then_validate E p (process_with E p w c)).0 ≢ panicked)
          (sym h) (process_with-returns p w cfg)

    prefetching-returns :
        (p : ExecParams E) (w : World E) (o : Outcome E.Witness) {cfg : VmConfig}
        → p.vm_config ≡ some cfg
        → o ≢ panic
        → (prefetching E p w o).0 ≢ panicked
    unfolding prefetching
    prefetching-returns p w (ok witness) h ho =
        process_and_validate-returns p
          (called E prefetcher_started (record w { state = E.start_prefetcher w.state witness })) h
    prefetching-returns p w (err e) h ho = λ e'. cc
    prefetching-returns p w panic h ho = absurd (ho refl)

    byzantium-returns :
        (p : ExecParams E) (w : World E) (cfg : VmConfig)
        → p.vm_config ≡ some cfg
        → (byzantium E p w (some cfg)).0 ≢ panicked
    unfolding byzantium
    byzantium-returns p w cfg h = elim (Bool-cases cfg.stateless_self_validation) [
      | inl t ↦ rw t (
          prefetching-returns p w (E.new_witness p.chain p.block) h
            (N.new_witness_lem p.chain p.block))
      | inr n ↦ rw n (process_and_validate-returns p w h)
    ]

    execute_block-returns :
        (p : ExecParams E) (w : World E) {cfg : VmConfig}
        → p.vm_config ≡ some cfg
        → (execute_block E p w).0 ≢ panicked
    unfolding execute_block
    execute_block-returns p w {cfg} h = elim (Bool-cases (E.is_byzantium p.chain p.block)) [
      | inl t ↦ rw t (
          subst (λ (c : Option VmConfig). (byzantium E p w c).0 ≢ panicked) (sym h)
            (byzantium-returns p w cfg h))
      | inr n ↦ rw n (process_and_validate-returns p w h)
    ]

    no_config_of :
        (p : ExecParams E) (w : World E) (cfg : Option VmConfig)
        → p.vm_config ≡ cfg
        → (execute_block E p w).0 ≡ panicked
        → p.vm_config ≡ none
    no_config_of p w none h e = h
    no_config_of p w (some cfg) h e = absurd (execute_block-returns p w h e)

    -- When the calls of go-ethereum do not panic, `Execute` panics exactly if the VM config is nil.
    pub execute-panicked_iff :
        (p : ExecParams E) (w : World E) → ((execute E p w).0 ≡ panicked) ↔ (p.vm_config ≡ none)
    unfolding execute
    execute-panicked_iff p w =
        let (w', e) = with_hooks-ending p w (tracer_of E p.vm_config) in
        (λ h. no_config_of p w' p.vm_config refl (sym e ∙ h), λ h. e ∙ no_config p w' h)
