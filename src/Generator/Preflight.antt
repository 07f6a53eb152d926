-- ===== src/Generator/Preflight.antt =====
-- src/generator/preflight.go: a block is executed on the state of a remote node, and the proofs of what
-- it accessed are fetched. Tags and log lines are left out.
pub mod Proofs
pub mod Tracked
pub mod Complete
pub mod Whole
use zk_pig.Base.{
  ℕ, ℤ, Option, none, some, List, [], ◌∷◌, ◌++◌, String, length, map, filter, Map, lookup,
  get_elem?, Bool, true, false, not, ◌&&◌, ◌||◌, ◌==◌, ◌+◌, ◌-◌, ◌%◌, ◌^◌, array_eq, zeros, nat_abs,
  if◌then◌else◌, Bytes, Slice, Outcome, ok, err, panic, error, ◌>>=◌, context, deref,
}
use zk_pig.Geth.Types.{Hash, Address, Header, ChainConfig}
use zk_pig.Geth.Interface.{Geth}
use zk_pig.Trie.Interface.{TrieLib}
use zk_pig.Trie.Proofs.{AccountProof, AccountResult, account_proof_from_rpc}
use zk_pig.State.Tracker.{AccessTracker, World, get_access_tracker}
use zk_pig.State.Rpc.{RpcLib, RpcDatabase, new_rpc_database, mark_block}
use zk_pig.Evm.Interface.{EvmLib}
use zk_pig.Ethdb.Rpcdb.{RpcdbLib, get}
use zk_pig.Chain.{ChainLib, new_chain}
use zk_pig.Generator.Interface.{GenLib, rpc_state, StateWitness}
use zk_pig.Generator.Chains.{get_chain_config}
use zk_pig.Generator.Run.{run}

module _ {G : Geth} {T : TrieLib} {R : RpcLib} {E : EvmLib} {C : ChainLib E.HeaderChain}
    (L : GenLib G T R E C) where
  pub record PreflightData : Type 0 where
    pub block : L.RpcBlock
    pub ancestors : Slice (Option Header)
    pub chain_config : Option ChainConfig
    pub codes : List Bytes
    pub pre_state_proofs : List AccountProof
    pub post_state_proofs : List AccountProof

  -- `init`: the chain configuration and the block.
  unfoldable pub init : Option ℤ → Outcome (ChainConfig × E.Block)
  init block_number = do
    chain_id ← context "failed to fetch chain ID" L.remote_chain_id
    cfg ←
        get_chain_config L.mainnet_chain_config L.sepolia_chain_config L.holesky_chain_config
          chain_id
    block ← context "failed to fetch block" (L.block_by_number block_number)
    ok (cfg, block)

  -- `block.Number().Uint64() - 1`, which wraps around at the genesis block.
  abbrev pub parent_number : E.Block → ℕ
  parent_number block = (nat_abs (L.block_number block) % 2 ^ 64 + 2 ^ 64 - 1) % 2 ^ 64

  unfoldable pub found : Option Header → Outcome Header
  found none = err (error "failed to fetch parent header with hash")
  found (some h) = ok h

  -- A slot is deleted if it was not zero and is zero in the final state.
  abbrev pub is_deleted : E.StateDb → Address → Hash × Hash → Bool
  is_deleted final addr (slot, pre_value) =
      not (array_eq pre_value (zeros 32)) && array_eq (L.get_state final addr slot) (zeros 32)

  abbrev pub slots_of_storage : Option (Map 32 Hash) → List (Hash × Hash)
  slots_of_storage none = []
  slots_of_storage (some storage) = L.map_order 32 Hash storage

  abbrev pub all_slots : Option (Map 32 Hash) → List String
  all_slots storage = map (λ s. L.hash_hex s.0) (slots_of_storage storage)

  abbrev pub deleted_slots : E.StateDb → Address → Option (Map 32 Hash) → List String
  deleted_slots final addr storage =
      map (λ s. L.hash_hex s.0) (filter (is_deleted final addr) (slots_of_storage storage))

  -- `GetProof` and `AccountProofFromRPC`, which dereferences the account.
  unfoldable pub proof_of : Address → List String → Option ℤ → Outcome AccountProof
  proof_of addr slots number = do
    acc ← context "failed to get proof for account" (L.get_proof addr slots number)
    res ← deref acc
    account_proof_from_rpc res

  abbrev pub Proofs : Type 0
  Proofs = List AccountProof × List AccountProof

  -- The account needs no proof in the final state.
  abbrev pub is_kept : E.StateDb → Address → Option (Map 32 Hash) → Bool
  is_kept final addr storage =
      length (deleted_slots final addr storage) == 0 && not (L.has_self_destructed final addr)

  unfoldable pub fetch_account :
      E.StateDb → Option ℤ → Option ℤ → Option (Map 32 Hash) → Proofs → Address → Outcome Proofs
  fetch_account final parent number storage (pre, post) addr = do
    p ← proof_of addr (all_slots storage) parent
    if is_kept final addr storage then ok (pre ++ (p ∷ []), post) else do
      q ← proof_of addr (deleted_slots final addr storage) number
      ok (pre ++ (p ∷ []), post ++ (q ∷ []))

  unfoldable pub fetch_accounts :
      E.StateDb
      → Option ℤ
      → Option ℤ
      → Map 20 (Map 32 Hash)
      → Proofs
      → List Address
      → Outcome Proofs
  unfolding fetch_account
  fetch_accounts final parent number storage proofs [] = ok proofs
  fetch_accounts final parent number storage proofs (addr ∷ addrs) = do
    proofs' ← fetch_account final parent number (lookup addr storage) proofs addr
    fetch_accounts final parent number storage proofs' addrs

  -- The tracker of the parent's state root, which is dereferenced.
  unfoldable pub tracker_of :
      (db : RpcDatabase R) → E.StateDb → Hash → Outcome (AccessTracker (rpc_state R db))
  tracker_of db final root = do
    p ← deref (get_access_tracker (rpc_state R db) (L.trackers db final) root)
    deref (get_elem? (L.trackers db final).heap p)

  unfoldable pub fetch_state_proofs : RpcDatabase R → Header → E.Block → E.StateDb → Outcome Proofs
  unfolding tracker_of fetch_accounts
  fetch_state_proofs db parent block final = do
    tracker ← tracker_of db final parent.root
    fetch_accounts final parent.number (some (L.block_number block)) tracker.storage ([], [])
        (map (λ e. e.0) (L.map_order 20 _ tracker.accounts))

module _ {G : Geth} {T : TrieLib} {R : RpcLib} {E : EvmLib} {C : ChainLib E.HeaderChain}
    (L : GenLib G T R E C) (D : RpcdbLib) where
  -- The header chain reads the database that asks the remote node for headers.
  unfoldable pub fetch_parent_header : E.HeaderChain → E.Block → Outcome Header
  unfolding found
  fetch_parent_header hc block =
      found L (L.get_header hc (get D) (L.block_parent_hash block) (parent_number L block))

  unfoldable pub preflight : Option ChainConfig → E.Block → Outcome (PreflightData L)
  unfolding fetch_parent_header fetch_state_proofs
  preflight cfg block = do
    (hc, _) ←
        context "failed to create chain"
          (new_chain C cfg (L.with_get C.new_memory_database (get D)))
    parent ← fetch_parent_header hc block
    let db = mark_block R (new_rpc_database R) parent
    state ← context "failed to create state from parent root" (L.new_remote_state db parent.root)
    (_, final) ← context "failed to execute block" (run E hc block false state)
    (pre, post) ← fetch_state_proofs L db parent block final
    witness ← deref (L.witness final)
    ok (record {
      block = L.from_block block cfg;
      ancestors = witness.headers;
      chain_config = cfg;
      codes = witness.codes;
      pre_state_proofs = pre;
      post_state_proofs = post;
    })

  -- `Preflight`
  unfoldable pub run_preflight : Option ℤ → Outcome (PreflightData L)
  unfolding init preflight
  run_preflight block_number = do
    (cfg, block) ← context "failed to initialize preflight" (init L block_number)
    context "preflight failed" (preflight (some cfg) block)
