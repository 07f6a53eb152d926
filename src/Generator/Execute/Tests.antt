-- ===== src/Generator/Execute/Tests.antt =====
-- Prover inputs that the executor panics on.
use zk_pig.Base.{Option, none, some, [], ◌∷◌, false, ok, panic, deref, ◌≡◌, ◌≢◌, ◌↔◌, refl}
use zk_pig.Geth.Types.{Header}
use zk_pig.Geth.Sample as Codec
use zk_pig.Proto.Tests.{header, config}
use zk_pig.Input.{Block, ProverInput, Witness}
use zk_pig.Evm.Executor.Results.{NeverPanics}
use zk_pig.Chain.{new_chain}
use zk_pig.Generator.Execute.{execute_input}
use zk_pig.Generator.Execute.Panics.{NoPanic, is_complete, execute_input-panic_iff}
use zk_pig.Generator.Sample.{machine, disk, child, library}

abbrev first : Block Codec.Tx
first = record { header = some child; transactions = some []; uncles = some []; withdrawals = none }

abbrev witness : Witness
witness = record {
  state = some (some (8 ∷ []) ∷ []);
  ancestors = some (some header ∷ []);
  codes = some (some (7 ∷ []) ∷ []);
}

abbrev input_with : Option Witness → ProverInput Codec.Tx
input_with w = record {
  version = "";
  blocks = some (some first ∷ []);
  witness = w;
  chain_config = some config;
}

machine-NeverPanics : NeverPanics machine
machine-NeverPanics = record {
  new_witness_lem = λ c b h. cc;
  process_lem = λ c b cfg s h. cc;
  validate_state_lem = λ c b res s h. cc;
}

deref-given : (h : Option Header) → h ≢ none → deref h ≢ panic
deref-given none given = absurd (given refl)
deref-given (some h) given = λ e. cc

library-NoPanic : NoPanic library
library-NoPanic = record {
  new_state_lem = λ db root h. cc;
  to_geth_block_lem = λ b given uncles. deref-given b.header given;
  evm = machine-NeverPanics;
}

chained : new_chain disk (some config) disk.new_memory_database ≡ ok (tt, disk.new_memory_database)
unfolding new_chain
chained = refl

execute_input-panic_iff_example :
    (execute_input library (input_with none) ≡ panic) ↔ (is_complete (input_with none) ≡ false)
execute_input-panic_iff_example =
    execute_input-panic_iff library library-NoPanic (input_with none) chained refl
