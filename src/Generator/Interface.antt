-- ===== src/Generator/Interface.antt =====
-- What the generator calls beside the repository's own parts: blocks and headers of go-ethereum, its
-- state database and trie database, and the remote node.
use zk_pig.Base.{ℕ, ℤ, Option, List, String, Bytes, Slice, Bool, Map, Outcome}
use zk_pig.Geth.Types.{Hash, Address, Header, Withdrawal, ChainConfig}
use zk_pig.Geth.Interface.{Geth}
use zk_pig.Trie.Interface.{TrieLib}
use zk_pig.Trie.Proofs.{AccountResult}
use zk_pig.State.Interface.{StateLib}
use zk_pig.State.Tracker.{World}
use zk_pig.State.Rpc.{
  RpcLib, RpcDatabase, RpcReader, StateAccount, reader, reader_account, reader_storage,
  contract_code,
}
use zk_pig.Evm.Interface.{EvmLib}
use zk_pig.Chain.{ChainLib}

-- The RPC database as the database that the access tracker wraps.
abbrev pub rpc_state : (R : RpcLib) → RpcDatabase R → StateLib
rpc_state R db = record {
  StateAccount = StateAccount R;
  copy_account = λ a. a;
  Reader = RpcReader R;
  account = reader_account R;
  storage = reader_storage R;
  reader = reader R db;
  contract_code = contract_code R db;
}

-- `stateless.Witness`, its maps in the order in which a loop happens to visit them.
pub record StateWitness : Type 0 where
  pub headers : Slice (Option Header)
  pub codes : List Bytes
  pub state : List Bytes

pub record GenLib (G : Geth) (T : TrieLib) (R : RpcLib) (E : EvmLib) (C : ChainLib E.HeaderChain)
    : Type 1 where
  -- `gethtypes.Block`
  pub new_block :
      Option Header
      → Slice (Option G.Transaction)
      → Slice (Option Header)
      → Slice (Option Withdrawal)
      → Outcome E.Block
  pub block_number : E.Block → ℤ
  pub block_parent_hash : E.Block → Hash
  pub block_header : E.Block → Header
  pub block_transactions : E.Block → Slice (Option G.Transaction)
  pub block_uncles : E.Block → Slice (Option Header)
  pub block_withdrawals : E.Block → Slice (Option Withdrawal)
  -- `ethrpc.Block`, the block in the format of the JSON-RPC interface
  pub RpcBlock : Type 0
  pub from_block : E.Block → Option ChainConfig → RpcBlock
  pub to_block : RpcBlock → E.Block
  pub rpc_block_root : RpcBlock → Hash
  pub rpc_block_number : RpcBlock → Option ℤ
  -- `core.HeaderChain`, over a key-value database that is given by its `Get`
  pub get_header : E.HeaderChain → (Bytes → Outcome (Slice ℕ)) → Hash → ℕ → Option Header
  pub get_header_by_number : E.HeaderChain → C.Db → ℕ → Option Header
  pub chain_config : E.HeaderChain → Option ChainConfig
  -- a database whose `Get` is replaced
  pub with_get : C.Db → (Bytes → Outcome (Slice ℕ)) → C.Db
  -- `gethstate.New` over the tracked RPC database
  pub new_remote_state : RpcDatabase R → Hash → Outcome E.StateDb
  -- the trackers of the database stack under a state database
  pub trackers : (db : RpcDatabase R) → E.StateDb → World (rpc_state R db)
  -- `gethstate.New` over a memory database, and `TrieDB().Update`
  pub new_state : C.Db → Hash → Outcome E.StateDb
  pub update_trie : C.Db → Hash → Hash → T.MergedNodeSet → Outcome C.Db
  pub get_state : E.StateDb → Address → Hash → Hash
  pub has_self_destructed : E.StateDb → Address → Bool
  pub witness : E.StateDb → Option StateWitness
  -- `ethrpc.Client`
  pub remote_chain_id : Outcome (Option ℤ)
  pub block_by_number : Option ℤ → Outcome E.Block
  pub get_proof : Address → List String → Option ℤ → Outcome (Option AccountResult)
  pub hash_hex : Hash → String
  -- the order in which a loop happens to visit the entries of a map
  pub map_order : (n : ℕ) (V : Type 0) → Map n V → Map n V
  -- the chain configurations of `params`
  pub mainnet_chain_config : ChainConfig
  pub sepolia_chain_config : ChainConfig
  pub holesky_chain_config : ChainConfig
