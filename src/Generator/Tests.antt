-- ===== src/Generator/Tests.antt =====
-- A preflight, a preparation and an execution of a block.
use zk_pig.Base.{subst, pos, none, some, [], ◌∷◌, zeros, ok, ◌≡◌, refl, array_eq, lookup, insert}
use zk_pig.Geth.Sample as Codec
use zk_pig.Proto.Tests.{header, config}
use zk_pig.Input.{ProverInput}
use zk_pig.Trie.Proofs.{
  AccountProof, account_proof_from_rpc, append_slots, add_account_nodes, accounts_proof_db_and_keys,
  account_trie_key, add_account_orphan_nodes,
}
use zk_pig.Trie.Nodes.{add_nodes, add_orphan_nodes}
use zk_pig.Trie.Sample.{read_proofs, verify}
use zk_pig.State.Tracker as Tracker
use zk_pig.State.Tracker.Heap.{perform}
use zk_pig.State.Rpc.{
  reader, get_block_number, known, mark_block, reader_account, reader_storage, to_state_account,
}
use zk_pig.Evm.Executor as Executor
use zk_pig.Evm.Decorators as Decorators
use zk_pig.Ethdb.Tests.{remote}
use zk_pig.Chain as Chain
use zk_pig.Generator.Run.{run, ended}
use zk_pig.Generator.Preflight.{
  PreflightData, fetch_parent_header, found, proof_of, fetch_account, fetch_accounts, tracker_of,
  fetch_state_proofs, preflight,
}
use zk_pig.Generator.Prepare.{
  prepare, prepare_pre_state, prepare_exec_params, prepare_prover_input, prover_input_of,
}
use zk_pig.Generator.Execute.{prefill, exec_params_of, execute_first, execute_blocks, execute_input}
use zk_pig.Generator.Executed.{Replays, IsStateless, prepare-execute_input}
use zk_pig.Generator.Execute.Success.{IsExecuted, execute_input-IsExecuted}
use zk_pig.Trie.NodeSets as NodeSets
use zk_pig.Generator.Sample.{State, Disk, disk-IsLawful, state_witness, block_reads, child, library}

abbrev pub proof : AccountProof
proof = record {
  address = zeros 20;
  proof = "0xaa" ∷ [];
  balance = pos 5;
  code_hash = zeros 32;
  nonce = 0;
  storage_hash = zeros 32;
  storage = none;
}

abbrev pub collected : PreflightData library
collected = record {
  block = child;
  ancestors = state_witness.headers;
  chain_config = some config;
  codes = state_witness.codes;
  pre_state_proofs = proof ∷ [];
  post_state_proofs = proof ∷ [];
}

collecting : preflight library remote (some config) child ≡ ok collected
unfolding preflight fetch_parent_header found Chain.new_chain run ended Decorators.execute_with_log
    Decorators.execute_logged Decorators.log_ending Executor.execute Executor.with_hooks
    Executor.execute_block Executor.byzantium Executor.prefetching Executor.process_and_validate
    Executor.process_block Executor.process_with Executor.after_process Executor.then_validate
    Executor.validate_block Executor.after_validate Executor.exec_err fetch_state_proofs tracker_of
    fetch_accounts fetch_account proof_of account_proof_from_rpc append_slots mark_block reader
    get_block_number known Tracker.db_reader Tracker.set_tracker Tracker.get_access_tracker lookup
    insert perform Tracker.read_account Tracker.read_storage reader_account to_state_account
    reader_storage array_eq
collecting = refl

abbrev pub prepared : ProverInput Codec.Tx
prepared = prover_input_of library tt child state_witness

preparing : prepare library collected ≡ ok prepared
unfolding prepare prepare_pre_state prepare_exec_params prepare_prover_input Chain.new_chain
    Chain.write_headers NodeSets.node_set_from_state_transition_proofs add_account_nodes
    accounts_proof_db_and_keys read_proofs add_nodes verify account_trie_key
    add_account_orphan_nodes add_orphan_nodes array_eq run ended Decorators.execute_with_log
    Decorators.execute_logged Decorators.log_ending Executor.execute Executor.with_hooks
    Executor.execute_block Executor.byzantium Executor.prefetching Executor.process_and_validate
    Executor.process_block Executor.process_with Executor.after_process Executor.then_validate
    Executor.validate_block Executor.after_validate Executor.exec_err
preparing = refl

executing : execute_input library prepared ≡ ok (some tt, (zeros 32, block_reads))
unfolding execute_input execute_blocks execute_first prefill exec_params_of Chain.new_chain
    Chain.write_headers array_eq run ended Decorators.execute_with_log Decorators.execute_logged
    Decorators.log_ending Executor.execute Executor.with_hooks Executor.execute_block
    Executor.byzantium Executor.prefetching Executor.process_and_validate Executor.process_block
    Executor.process_with Executor.after_process Executor.then_validate Executor.validate_block
    Executor.after_validate Executor.exec_err
executing = refl

execute_input-IsExecuted_example : IsExecuted library prepared (some tt) (zeros 32, block_reads)
execute_input-IsExecuted_example = execute_input-IsExecuted library disk-IsLawful prepared executing

replays : (genesis : Disk) → Replays library tt genesis child state_witness
unfolding array_eq
replays genesis = record {
  parent = header;
  older = [];
  headers_are = refl;
  headers_numbered = (λ h. cc, tt);
  not_the_block = refl;
  with_number = λ h. cc;
  rebuilt = refl;
  replay = λ db holds. (
    (header.root, []),
    refl,
    record {
      byzantium = refl;
      witness = tt;
      witness_made = refl;
      res = tt;
      left = (header.root, block_reads);
      processed = refl;
      final = (header.root, block_reads);
      validated = refl;
    },
  );
}

collected-IsStateless : IsStateless library collected
collected-IsStateless = record {
  chain_config-new_chain = λ h. refl;
  witness-run = λ {genesis = genesis} db root state chained opened ran has.
      subst (Replays library tt genesis child) (cc has) (replays genesis);
}

prepare-execute_input_example :
    (res : Unit {0}) × (final : State) × (execute_input library prepared ≡ ok (some res, final))
prepare-execute_input_example =
    prepare-execute_input library disk-IsLawful collected collected-IsStateless (λ h. cc) preparing
