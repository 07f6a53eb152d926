-- ===== src/Generator/Execute.antt =====
-- src/generator/execute.go: a prover input is checked by executing its block on its witness, and
-- `Block` of src/prover-input/input.go. Log lines are left out; of the tags it is kept what they
-- dereference. What is returned beside an error is left out.
pub mod Success
pub mod Succeeds
pub mod Panics
pub mod Tests
use zk_pig.Base.{
  ℕ, ℤ, Option, none, some, List, [], ◌∷◌, Slice, items, Bool, true, if◌then◌else◌, array_eq,
  Outcome, ok, err, error, ◌>>=◌, context, deref,
}
use zk_pig.Geth.Types.{Hash, Header}
use zk_pig.Geth.Interface.{Geth}
use zk_pig.Input.{Witness, Block, ProverInput}
use zk_pig.Trie.Interface.{TrieLib}
use zk_pig.State.Rpc.{RpcLib}
use zk_pig.Evm.Interface.{EvmLib}
use zk_pig.Chain.{ChainLib, new_chain, write_headers, write_codes, write_nodes_to_hash_db}
use zk_pig.Generator.Interface.{GenLib}
use zk_pig.Generator.Run.{run}

module _ {G : Geth} {T : TrieLib} {R : RpcLib} {E : EvmLib} {C : ChainLib E.HeaderChain}
    (L : GenLib G T R E C) where
  -- `Block` of a block of a prover input
  abbrev pub to_geth_block : Block G.Transaction → Outcome E.Block
  to_geth_block b = L.new_block b.header b.transactions b.uncles b.withdrawals

  -- The pointer to the witness is dereferenced.
  unfoldable pub prefill : C.Db → Witness → Outcome C.Db
  prefill db witness = do
    db' ← write_headers C db (items witness.ancestors)
    ok (write_nodes_to_hash_db C (write_codes C db' (items witness.codes)) (items witness.state))

  abbrev pub not_the_parent : Outcome (E.Block × E.StateDb)
  not_the_parent = err (error "first ancestor must be the parent of the first block")

  -- The state before the block, and the block.
  abbrev pub opened_at : C.Db → Block G.Transaction → Header → Outcome (E.Block × E.StateDb)
  opened_at db b parent = do
    state ← context "failed to create pre-state from parent root" (L.new_state db parent.root)
    block ← to_geth_block b
    ok (block, state)

  unfoldable pub exec_params_of :
      C.Db → Block G.Transaction → Header → List (Option Header) → Outcome (E.Block × E.StateDb)
  exec_params_of db b header [] = err (error "no ancestors provided")
  exec_params_of db b header (none ∷ ancestors) = not_the_parent
  exec_params_of db b header (some parent ∷ ancestors) =
      if array_eq (C.header_hash parent) (C.header_hash header)
      then not_the_parent
      else opened_at db b parent

  unfoldable pub execute_first :
      ProverInput G.Transaction
      → Block G.Transaction
      → Header
      → Outcome (Option E.ProcessResult × E.StateDb)
  unfolding prefill exec_params_of
  execute_first inputs b header = do
    (hc, db) ←
        context "failed to prepare execution context"
          (context "failed to create chain" (new_chain C inputs.chain_config C.new_memory_database))
    witness ← deref inputs.witness
    db' ← prefill db witness
    (block, state) ←
        context "failed to prepare execution exec params"
          (exec_params_of db' b header (items witness.ancestors))
    context "failed to execute block" (run E hc block true state)

  unfoldable pub execute_blocks :
      ProverInput G.Transaction
      → List (Option (Block G.Transaction))
      → Outcome (Option E.ProcessResult × E.StateDb)
  unfolding execute_first
  execute_blocks inputs [] = err (error "no blocks provided")
  execute_blocks inputs (first ∷ others) = do
    _ ← deref inputs.chain_config
    b ← deref first
    header ← deref b.header
    _ ← deref header.number
    execute_first inputs b header

  -- `Execute` of the generator
  unfoldable pub execute_input :
      ProverInput G.Transaction → Outcome (Option E.ProcessResult × E.StateDb)
  unfolding execute_blocks
  execute_input inputs = execute_blocks inputs (items inputs.blocks)
