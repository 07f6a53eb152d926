-- ===== src/Evm/Tests.antt =====
-- Executions and traces of small blocks.
use zk_pig.Base.{
  ℕ, zero, suc, none, some, List, [], ◌∷◌, true, error, Outcome, ok, err, panic, ◌≡◌, ◌≢◌, ◌↔◌,
  refl,
}
use zk_pig.Evm.Interface.{EvmLib, VmConfig, Tracer}
use zk_pig.Evm.Executor.{
  ExecParams, on_block_start, on_block_end, prefetcher_started, prefetcher_stopped, processed,
  validated, reported, World, returned, panicked, execute, execute_block, process_block,
  process_and_validate, process_with, after_process, then_validate, validate_block, after_validate,
  byzantium, prefetching, with_hooks, exec_err,
}
use zk_pig.Evm.Executor.Calls.{idle, step_from, follow, execute-follow}
use zk_pig.Evm.Executor.Results.{NeverPanics, execute-panicked_iff}
use zk_pig.Evm.Executor.Success.{Checked, expected, reports, execute-success}
use zk_pig.Evm.LoggerTracer as Log
use zk_pig.Evm.LoggerTracer.{
  LoggerLib, Hook, EndsCleared, handle_all, new_logger_tracer, handle_all-Bracketed,
}

-- Processing fails on an empty state, and else uses it as gas.
abbrev used : ℕ → Outcome ℕ
used zero = err (error "empty state")
used (suc n) = ok (suc n)

abbrev sample : EvmLib
sample = record {
  Block = ℕ;
  HeaderChain = ℕ;
  StateDb = ℕ;
  ProcessResult = ℕ;
  Witness = ℕ;
  is_byzantium = λ chain block. true;
  new_witness = λ chain block. ok block;
  start_prefetcher = λ s witness. s;
  stop_prefetcher = λ s. s;
  process = λ chain block cfg s. (used s, suc s);
  validate_state = λ chain block res s. (ok tt, s);
}

used-returns : (n : ℕ) → used n ≢ panic
used-returns zero = λ e. cc
used-returns (suc n) = λ e. cc

sample-NeverPanics : NeverPanics sample
sample-NeverPanics = record {
  new_witness_lem = λ c b e. cc;
  process_lem = λ c b cfg s. used-returns s;
  validate_state_lem = λ c b res s e. cc;
}

abbrev both_hooks : Tracer
both_hooks = record { on_block_start = true; on_block_end = true }

abbrev config : VmConfig
config = record { tracer = some both_hooks; stateless_self_validation = true }

abbrev params : ExecParams sample
params = record { vm_config = some config; block = 3; validate = true; chain = 1; reporter = true }

abbrev world : World sample
world = record { state = 3; calls = [] }

-- A valid block is reported all the same.
valid_block_calls :
    (execute sample params world).1.calls
    ≡ on_block_end none
      ∷ prefetcher_stopped
      ∷ reported (some 3) none
      ∷ validated
      ∷ processed
      ∷ prefetcher_started
      ∷ on_block_start 3
      ∷ []
unfolding execute with_hooks execute_block byzantium prefetching process_and_validate process_block
    process_with after_process then_validate validate_block after_validate exec_err
valid_block_calls = refl

valid_block_result : (execute sample params world).0 ≡ returned (some 3) none
unfolding execute with_hooks execute_block byzantium prefetching process_and_validate process_block
    process_with after_process then_validate validate_block after_validate exec_err
valid_block_result = refl

follow_start : follow sample world.calls ≡ some idle
unfolding follow step_from
follow_start = refl

execute-follow_example : follow sample (execute sample params world).1.calls ≡ some idle
execute-follow_example =
    execute-follow sample params world {cfg = config} {t = both_hooks} refl refl refl refl
      follow_start

execute-panicked_iff_example :
    ((execute sample params world).0 ≡ panicked) ↔ (params.vm_config ≡ none)
execute-panicked_iff_example = execute-panicked_iff sample sample-NeverPanics params world

execute-success_example :
    Checked sample params (some 3)
    × (reports sample (execute sample params world).1.calls
        ≡ expected sample params (some 3) (reports sample world.calls))
execute-success_example = execute-success sample params world (some 3) valid_block_result

-- Loggers are the depth of the fields that they carry.
abbrev loggers : LoggerLib
loggers = record {
  Logger = ℕ;
  Block = ℕ;
  Transaction = ℕ;
  Receipt = ℕ;
  with_block = λ l b. suc l;
  with_transaction = λ l tx. suc l;
  with_system = λ l. suc l;
}

abbrev trace : List (Hook loggers)
trace =
    Log.on_block_start 1
    ∷ Log.on_system_call_start
    ∷ Log.on_enter
    ∷ Log.on_system_call_end
    ∷ Log.on_tx_start 5
    ∷ Log.on_opcode none
    ∷ Log.on_tx_end (some 5) none
    ∷ Log.on_block_end none
    ∷ []

handle_all-Bracketed_example :
    EndsCleared loggers (handle_all loggers trace (new_logger_tracer loggers 0))
handle_all-Bracketed_example = handle_all-Bracketed loggers 0 trace (
    Log.block_start 1 (
      Log.system_start (
        Log.inside Log.entering (
          Log.system_end (
            Log.tx_start 5 (
              Log.inside (Log.executing none) (Log.tx_end 5 (Log.block_end none Log.finished))))))))
