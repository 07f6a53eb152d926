-- ===== src/Service/Commands/Tests.antt =====
-- `Generate` of one block, on empty stores.
use zk_pig.Base.{
  pos, none, some, [], true, ok, ◌≡◌, refl, lookup, insert, array_eq, bytes_eq, decimal,
}
use zk_pig.Geth.Sample as Codec
use zk_pig.Trie.Nodes.{add_nodes, add_orphan_nodes}
use zk_pig.Trie.Sample.{read_proofs, verify}
use zk_pig.Trie.Proofs.{
  account_proof_from_rpc, append_slots, add_account_nodes, accounts_proof_db_and_keys,
  account_trie_key, add_account_orphan_nodes,
}
use zk_pig.Trie.NodeSets as NodeSets
use zk_pig.State.Tracker as Tracker
use zk_pig.State.Tracker.Heap.{perform}
use zk_pig.State.Rpc.{
  reader, get_block_number, known, mark_block, reader_account, reader_storage, to_state_account,
}
use zk_pig.Evm.Executor as Executor
use zk_pig.Evm.Decorators as Decorators
use zk_pig.Ethdb.Tests.{remote}
use zk_pig.Chain as Chain
use zk_pig.Generator.Run.{run, ended}
use zk_pig.Generator.Chains.{get_chain_config, find_chain, same_number}
use zk_pig.Generator.Preflight.{
  init, run_preflight, fetch_parent_header, found, proof_of, fetch_account, fetch_accounts,
  tracker_of, fetch_state_proofs, preflight,
}
use zk_pig.Generator.Prepare.{
  run_prepare, prepare, prepare_pre_state, prepare_exec_params, prepare_prover_input,
}
use zk_pig.Generator.Execute.{prefill, exec_params_of, execute_first, execute_blocks, execute_input}
use zk_pig.Generator.Sample.{library}
use zk_pig.Generator.Tests.{collected, prepared}
use zk_pig.Store.{content_type_json}
use zk_pig.Store.ProverInputs.{
  InputCodec, encode_input, first_number, chain_id_of, input_parts, store_prover_input,
  decode_input, load_prover_input,
}
use zk_pig.Store.PreflightData.{preflight_parts, store_preflight_data, load_preflight_data}
use zk_pig.Store.Tests.{files, no_files}
use zk_pig.Service.{Service}
use zk_pig.Service.Tests.{node}
use zk_pig.Service.Commands.{Parts, Disks, preflight_step, prepare_step, execute_step, generate}
use zk_pig.Service.Commands.Sequence.{perform_all, plan, generate-plan}

-- Whatever is stored, the block's preflight data and its prover input are loaded.
abbrev pub codec : InputCodec Codec.sample files
codec = record {
  marshal = λ m. ok [];
  unmarshal =
      λ bytes. ok (record { version = ""; blocks = none; witness = none; chain_config = none });
  encode = λ pi. ok [];
  decode = λ r. ok prepared;
}

abbrev pub parts : Parts library
parts = record {
  remote_db = remote;
  preflight_store = files;
  preflight_encode = λ pf. ok [];
  preflight_decode = λ r. ok collected;
  input_store = files;
  input_codec = codec;
  content_type = content_type_json;
}

abbrev pub service : Service node
service = record {
  cfg_chain_rpc = true;
  cfg_chain_id = none;
  init_once = true;
  chain_id = some (pos 1);
  err = none;
}

abbrev pub empty : Disks parts
empty = record { preflights = no_files; inputs = no_files }

pub generated : (generate parts service none empty).0 ≡ ok tt
unfolding generate preflight_step prepare_step execute_step run_preflight init get_chain_config
    find_chain same_number decimal store_preflight_data preflight_parts load_preflight_data
    run_prepare store_prover_input input_parts encode_input first_number chain_id_of
    load_prover_input decode_input array_eq bytes_eq preflight fetch_parent_header found
    Chain.new_chain run ended Decorators.execute_with_log Decorators.execute_logged
    Decorators.log_ending Executor.execute Executor.with_hooks Executor.execute_block
    Executor.byzantium Executor.prefetching Executor.process_and_validate Executor.process_block
    Executor.process_with Executor.after_process Executor.then_validate Executor.validate_block
    Executor.after_validate Executor.exec_err fetch_state_proofs tracker_of fetch_accounts
    fetch_account proof_of account_proof_from_rpc append_slots mark_block reader get_block_number
    known Tracker.db_reader Tracker.set_tracker Tracker.get_access_tracker lookup insert perform
    Tracker.read_account Tracker.read_storage reader_account to_state_account reader_storage prepare
    prepare_pre_state prepare_exec_params prepare_prover_input Chain.write_headers
    NodeSets.node_set_from_state_transition_proofs add_account_nodes accounts_proof_db_and_keys
    read_proofs add_nodes verify account_trie_key add_account_orphan_nodes add_orphan_nodes
    execute_input execute_blocks execute_first prefill exec_params_of
generated = refl

generate-plan_example :
    generate parts service none empty
    ≡ perform_all parts service
        (plan parts service none (preflight_step parts service none empty).0)
        empty
generate-plan_example = generate-plan parts service refl none empty
