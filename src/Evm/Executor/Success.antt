-- ===== src/Evm/Executor/Success.antt =====
-- What the success of `Execute` means.
use zk_pig.Base.{
  Option, none, some, List, [], ◌∷◌, true, if◌then◌else◌, Bool-cases, inl, inr, Error, Outcome, ok,
  err, panic, ◌≡◌, refl, sym, ap, ◌∙◌,
}
use zk_pig.Evm.Interface.{EvmLib, VmConfig, Tracer}
use zk_pig.Evm.Executor.{
  ExecParams, Call, on_block_start, on_block_end, prefetcher_started, prefetcher_stopped, processed,
  validated, reported, World, Ending, returned, panicked, called, report, after_process,
  process_with, process_block, after_validate, validate_block, then_validate, process_and_validate,
  prefetching, byzantium, execute_block, with_hooks, tracer_of, execute,
}

module _ (E : EvmLib) where
  abbrev pub Report : Type 0
  Report = Option E.ProcessResult × Option Error

  -- What was given to the reporter, the last one first.
  abbrev pub reports : List (Call E) → List Report
  reports [] = []
  reports (reported res e ∷ cs) = (res, e) ∷ reports cs
  reports (on_block_start b ∷ cs) = reports cs
  reports (on_block_end e ∷ cs) = reports cs
  reports (prefetcher_started ∷ cs) = reports cs
  reports (prefetcher_stopped ∷ cs) = reports cs
  reports (processed ∷ cs) = reports cs
  reports (validated ∷ cs) = reports cs

  -- One report without an error, if there was a validation and a reporter.
  abbrev pub expected : ExecParams E → Option E.ProcessResult → List Report → List Report
  expected p res before =
      if p.validate then (if p.reporter then (res, none) ∷ before else before) else before

  -- The block was processed on some state, and validated on the state that this left.
  abbrev pub Checked : ExecParams E → Option E.ProcessResult → Type 0
  Checked p res =
      (cfg : VmConfig) × (s : E.StateDb) × (r : E.ProcessResult) × (p.vm_config ≡ some cfg)
      × ((E.process p.chain p.block cfg s).0 ≡ ok r)
      × (res ≡ some r)
      × (p.validate ≡ true
          → (E.validate_state p.chain p.block res (E.process p.chain p.block cfg s).1).0 ≡ ok tt)

  after_validate-success :
      (p : ExecParams E) (res' : Option E.ProcessResult) (w : World E) (o : Outcome (Unit {0}))
      {res : Option E.ProcessResult}
      → (after_validate E p res' w o).0 ≡ returned res none
      → (res' ≡ res)
        × (o ≡ ok tt)
        × (reports (after_validate E p res' w o).1.calls
            ≡ (if p.reporter then (res, none) ∷ reports w.calls else reports w.calls))
  unfolding after_validate
  after_validate-success p res' w (ok u) {res} h = (cc, refl, told)
    where
      told :
          reports (report E p res' none w).calls
          ≡ (if p.reporter then (res, none) ∷ reports w.calls else reports w.calls)
      told = elim (Bool-cases p.reporter) [
        | inl t ↦ rw t (ap (λ (x : Option E.ProcessResult). (x, none) ∷ reports w.calls) cc)
        | inr n ↦ rw n refl
      ]
  after_validate-success p res' w (err e) h = cc
  after_validate-success p res' w panic h = cc

  then_validate-success :
      (p : ExecParams E) (ending : Ending E) (w : World E) {res : Option E.ProcessResult}
      → (then_validate E p (ending, w)).0 ≡ returned res none
      → (ending ≡ returned res none)
        × (p.validate ≡ true → (E.validate_state p.chain p.block res w.state).0 ≡ ok tt)
        × (reports (then_validate E p (ending, w)).1.calls ≡ expected p res (reports w.calls))
  unfolding then_validate validate_block
  then_validate-success p (returned res' none) w {res} h = elim (Bool-cases p.validate) [
    | inl t ↦
        let q = E.validate_state p.chain p.block res' w.state in
        let (same, valid, told) =
          after_validate-success p res' (called E validated (record w { state = q.1 })) q.0
            (rw t at h) in
        rw t (
          ap (λ (x : Option E.ProcessResult). returned x none) same,
          λ _.
              ap (λ (x : Option E.ProcessResult). (E.validate_state p.chain p.block x w.state).0)
                (sym same)
              ∙ valid,
          told,
        )
    | inr n ↦ rw n (rw n at h, λ t. cc, refl)
  ]
  then_validate-success p (returned res' (some e)) w h = cc
  then_validate-success p panicked w h = cc

  panicked-ending :
      {res : Option E.ProcessResult} {e : Option Error}
      → ◌≡◌ {A = Ending E} panicked (returned res e)
      → ⊥
  panicked-ending h = cc

  process_with-success :
      (p : ExecParams E) (w : World E) (c : Option VmConfig) {res : Option E.ProcessResult}
      → p.vm_config ≡ c
      → (then_validate E p (process_with E p w c)).0 ≡ returned res none
      → Checked p res
        × (reports (then_validate E p (process_with E p w c)).1.calls
            ≡ expected p res (reports w.calls))
  unfolding process_with then_validate
  process_with-success p w none hc h =
      absurd (panicked-ending (then_validate-success p panicked w h).0)
  process_with-success p w (some cfg) {res} hc h =
      of_process (E.process p.chain p.block cfg w.state).0 refl h
    where
      w' : World E
      w' = called E processed (record w { state = (E.process p.chain p.block cfg w.state).1 })

      of_process :
          (o : Outcome E.ProcessResult)
          → (E.process p.chain p.block cfg w.state).0 ≡ o
          → (then_validate E p (after_process E p w' o)).0 ≡ returned res none
          → Checked p res
            × (reports (then_validate E p (after_process E p w' o)).1.calls
                ≡ expected p res (reports w.calls))
      of_process (ok r) e h =
          let (same, valid, told) = then_validate-success p (returned (some r) none) w' h in
          ((cfg, w.state, r, hc, e, sym (cc), valid), told)
      of_process (err x) e h = cc
      of_process panic e h = cc

  process_and_validate-success :
      (p : ExecParams E) (w : World E) {res : Option E.ProcessResult}
      → (process_and_validate E p w).0 ≡ returned res none
      → Checked p res
        × (reports (process_and_validate E p w).1.calls ≡ expected p res (reports w.calls))
  unfolding process_and_validate process_block
  process_and_validate-success p w h = process_with-success p w p.vm_config refl h

  prefetching-success :
      (p : ExecParams E) (w : World E) (o : Outcome E.Witness) {res : Option E.ProcessResult}
      → (prefetching E p w o).0 ≡ returned res none
      → Checked p res × (reports (prefetching E p w o).1.calls ≡ expected p res (reports w.calls))
  unfolding prefetching
  prefetching-success p w (ok witness) h =
      process_and_validate-success p
        (called E prefetcher_started (record w { state = E.start_prefetcher w.state witness })) h
  prefetching-success p w (err e) h = cc
  prefetching-success p w panic h = cc

  byzantium-success :
      (p : ExecParams E) (w : World E) (c : Option VmConfig) {res : Option E.ProcessResult}
      → (byzantium E p w c).0 ≡ returned res none
      → Checked p res × (reports (byzantium E p w c).1.calls ≡ expected p res (reports w.calls))
  unfolding byzantium
  byzantium-success p w none h = cc
  byzantium-success p w (some cfg) h = elim (Bool-cases cfg.stateless_self_validation) [
    | inl t ↦ rw t (prefetching-success p w (E.new_witness p.chain p.block) (rw t at h))
    | inr n ↦ rw n (process_and_validate-success p w (rw n at h))
  ]

  execute_block-success :
      (p : ExecParams E) (w : World E) {res : Option E.ProcessResult}
      → (execute_block E p w).0 ≡ returned res none
      → Checked p res × (reports (execute_block E p w).1.calls ≡ expected p res (reports w.calls))
  unfolding execute_block
  execute_block-success p w h = elim (Bool-cases (E.is_byzantium p.chain p.block)) [
    | inl t ↦ rw t (byzantium-success p w p.vm_config (rw t at h))
    | inr n ↦ rw n (process_and_validate-success p w (rw n at h))
  ]

  with_hooks-success :
      (p : ExecParams E) (w : World E) (o : Option Tracer) {res : Option E.ProcessResult}
      → (with_hooks E p w o).0 ≡ returned res none
      → Checked p res × (reports (with_hooks E p w o).1.calls ≡ expected p res (reports w.calls))
  unfolding with_hooks
  with_hooks-success p w none h = execute_block-success p w h
  with_hooks-success p w (some t) {res} h =
      let started = if t.on_block_start then called E (on_block_start p.block) w else w in
      let (checked, told) = execute_block-success p started h in
      (
        checked,
        elim (Bool-cases t.on_block_end) [
          | inl e ↦ rw e (told ∙ ap (expected p res) same_reports)
          | inr n ↦ rw n (told ∙ ap (expected p res) same_reports)
        ],
      )
    where
      same_reports :
          reports (if t.on_block_start then called E (on_block_start p.block) w else w).calls
          ≡ reports w.calls
      same_reports = elim (Bool-cases t.on_block_start) [ inl e ↦ rw e refl | inr n ↦ rw n refl ]

  -- When `Execute` returns without an error, the VM config was there, the block was processed
  -- without an error on some state, the result that is returned is the processor's, and, if the
  -- params ask for it, the validator accepted that result and the state that the processor left.
  -- The reporter is then told nothing if there is no validation, and else exactly once, of the
  -- result and a nil error.
  pub execute-success :
      (p : ExecParams E) (w : World E) (res : Option E.ProcessResult)
      → (execute E p w).0 ≡ returned res none
      → Checked p res × (reports (execute E p w).1.calls ≡ expected p res (reports w.calls))
  unfolding execute
  execute-success p w res h = with_hooks-success p w (tracer_of E p.vm_config) h
