-- ===== src/Generator/Preflight/Whole.antt =====
-- `Preflight` of src/generator/preflight.go as a whole: the block, the chain and the proofs.
use zk_pig.Base.{ℤ, Option, some, ok, ◌≡◌}
use zk_pig.Geth.Types.{ChainConfig}
use zk_pig.Geth.Interface.{Geth}
use zk_pig.Trie.Interface.{TrieLib}
use zk_pig.State.Rpc.{RpcLib}
use zk_pig.Evm.Interface.{EvmLib}
use zk_pig.Ethdb.Rpcdb.{RpcdbLib}
use zk_pig.Chain.{ChainLib}
use zk_pig.Generator.Interface.{GenLib}
use zk_pig.Generator.Preflight.{PreflightData}
use zk_pig.Generator.Preflight.Tracked.{Tracks}
use zk_pig.Generator.Preflight.Complete.{IsCollected}

module _ {G : Geth} {T : TrieLib} {R : RpcLib} {E : EvmLib} {C : ChainLib E.HeaderChain}
    (L : GenLib G T R E C) where
  -- The configuration of the node's chain, and the block that the node gave.
  abbrev pub IsRemote : Option ℤ → ChainConfig → E.Block → Type 0
  IsRemote n cfg block = (L.remote_chain_id ≡ ok cfg.chain_id) × (L.block_by_number n ≡ ok block)

module _ {G : Geth} {T : TrieLib} {R : RpcLib} {E : EvmLib} {C : ChainLib E.HeaderChain}
    (L : GenLib G T R E C) (D : RpcdbLib) where
  -- What a preflight of a number gives.
  abbrev pub IsPreflightOf : Tracks L → Option ℤ → PreflightData L → Type 0
  IsPreflightOf K n pf =
      (cfg : ChainConfig) × (block : E.Block) × IsRemote L n cfg block
      × IsCollected L D K (some cfg) block pf
