-- ===== src/Generator/Prepare.antt =====
-- src/generator/prepare.go: the proofs of a preflight become trie nodes, the block is executed and
-- validated on them, and what the execution touched becomes the prover input. Log lines are left out;
-- of the tags it is kept what they dereference.
pub mod Success
pub mod Made
use zk_pig.Base.{
  ℕ, ℤ, Option, none, some, List, [], ◌∷◌, map, Slice, items, appended, get_elem?, true, Outcome,
  ok, ◌>>=◌, context, deref,
}
use zk_pig.Geth.Types.{Hash, Header, ChainConfig}
use zk_pig.Geth.Interface.{Geth}
use zk_pig.Input.{Witness, Block, ProverInput}
use zk_pig.Trie.Interface.{TrieLib}
use zk_pig.Trie.NodeSets.{node_set_from_state_transition_proofs}
use zk_pig.State.Rpc.{RpcLib}
use zk_pig.Evm.Interface.{EvmLib}
use zk_pig.Chain.{ChainLib, new_chain, write_headers, write_codes}
use zk_pig.Generator.Interface.{GenLib, StateWitness}
use zk_pig.Generator.Run.{run}
use zk_pig.Generator.Preflight.{PreflightData}

module _ {G : Geth} {T : TrieLib} {R : RpcLib} {E : EvmLib} {C : ChainLib E.HeaderChain}
    (L : GenLib G T R E C) where
  -- `inputs.Ancestors[0]`, which may be nil.
  abbrev pub first_ancestor : PreflightData L → Outcome (Option Header)
  first_ancestor pf = deref (get_elem? (items pf.ancestors) 0)

  unfoldable pub prepare_pre_state : E.HeaderChain → C.Db → PreflightData L → Outcome C.Db
  prepare_pre_state hc db pf = do
    db' ← write_headers C db (items pf.ancestors)
    ancestor ← first_ancestor pf
    parent ← deref ancestor
    node_set ← context "failed to create state nodes" (
        node_set_from_state_transition_proofs T parent.root (L.rpc_block_root pf.block)
          pf.pre_state_proofs pf.post_state_proofs)
    genesis ← deref (L.get_header_by_number hc db' 0)
    db'' ←
        context "failed to update trie db with state nodes"
          (L.update_trie db' parent.root genesis.root node_set)
    ok (write_codes C db'' (map some pf.codes))

  -- The block and the state that it is executed on.
  unfoldable pub prepare_exec_params : C.Db → PreflightData L → Outcome (E.Block × E.StateDb)
  prepare_exec_params db pf = do
    ancestor ← first_ancestor pf
    parent ← deref ancestor
    state ← context "failed to create pre-state from parent root" (L.new_state db parent.root)
    ok (L.to_block pf.block, state)

  abbrev pub witness_of : StateWitness → Witness
  witness_of w = record {
    state = appended (map some w.state);
    ancestors = w.headers;
    codes = appended (map some w.codes);
  }

  abbrev pub block_of : E.Block → Block G.Transaction
  block_of block = record {
    header = some (L.block_header block);
    transactions = L.block_transactions block;
    uncles = L.block_uncles block;
    withdrawals = L.block_withdrawals block;
  }

  -- The version is not set.
  abbrev pub prover_input_of : E.HeaderChain → E.Block → StateWitness → ProverInput G.Transaction
  prover_input_of hc block w = record {
    version = "";
    blocks = some (some (block_of block) ∷ []);
    witness = some (witness_of w);
    chain_config = L.chain_config hc;
  }

  unfoldable pub prepare_prover_input :
      E.HeaderChain → E.Block → E.StateDb → Outcome (ProverInput G.Transaction)
  prepare_prover_input hc block final = do
    witness ← deref (L.witness final)
    ok (prover_input_of hc block witness)

  unfoldable pub prepare : PreflightData L → Outcome (ProverInput G.Transaction)
  unfolding prepare_pre_state prepare_exec_params prepare_prover_input
  prepare pf = do
    (hc, db) ←
        context "failed to prepare validation context"
          (context "failed to create chain" (new_chain C pf.chain_config C.new_memory_database))
    db' ← context "failed to prefill validation database" (prepare_pre_state hc db pf)
    (block, state) ← context "failed to prepare validation exec params" (prepare_exec_params db' pf)
    (_, final) ←
        context "validation execution failed"
          (context "failed to execute block" (run E hc block true state))
    prepare_prover_input hc block final

  -- `Prepare`: the tags read the chain configuration and the number of the block.
  unfoldable pub run_prepare : PreflightData L → Outcome (ProverInput G.Transaction)
  unfolding prepare
  run_prepare pf = do _ ← deref pf.chain_config; _ ← deref (L.rpc_block_number pf.block); prepare pf
