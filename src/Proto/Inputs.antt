-- ===== src/Proto/Inputs.antt =====
-- src/prover-input/proto/block.go and input.go: blocks, witnesses and prover inputs.
pub mod RoundTrip
use zk_pig.Base.{ℕ, Option, none, some, Slice, Outcome, ok, ◌>>=◌, map_each}
use zk_pig.Geth.Interface.{Geth}
use zk_pig.Input
use zk_pig.Proto.Message
use zk_pig.Proto.Helpers.{hex_bytes_to_bytes, bytes_to_hexutil}
use zk_pig.Proto.Headers.{
  header_to_proto, header_from_proto, headers_to_proto, headers_from_proto, withdrawals_to_proto,
  withdrawals_from_proto,
}
use zk_pig.Proto.Transactions.{transactions_to_proto, transactions_from_proto}
use zk_pig.Proto.ChainConfigs.{chain_config_to_proto, chain_config_from_proto}

module _ (G : Geth) where
  unfoldable pub block_to_proto :
      Option (Input.Block G.Transaction) → Outcome (Option Message.Block)
  block_to_proto none = ok none
  block_to_proto (some b) = do
    transactions ← transactions_to_proto G b.transactions
    ok (
        some (record {
          header = header_to_proto G b.header;
          transactions = transactions;
          uncles = headers_to_proto G b.uncles;
          withdrawals = withdrawals_to_proto G b.withdrawals;
        }))

  pub block_from_proto : Option Message.Block → Outcome (Option (Input.Block G.Transaction))
  block_from_proto none = ok none
  block_from_proto (some b) = do
    header ← header_from_proto G b.header
    transactions ← transactions_from_proto G b.transactions
    uncles ← headers_from_proto G b.uncles
    ok (
        some (record {
          header = header;
          transactions = transactions;
          uncles = uncles;
          withdrawals = withdrawals_from_proto G b.withdrawals;
        }))

  unfoldable pub blocks_to_proto :
      Slice (Option (Input.Block G.Transaction)) → Outcome (Slice (Option Message.Block))
  blocks_to_proto none = ok none
  blocks_to_proto (some bs) = do result ← map_each block_to_proto bs; ok (some result)

  pub blocks_from_proto :
      Slice (Option Message.Block) → Outcome (Slice (Option (Input.Block G.Transaction)))
  blocks_from_proto none = ok none
  blocks_from_proto (some bs) = do result ← map_each block_from_proto bs; ok (some result)

  unfoldable pub witness_to_proto : Option Input.Witness → Option Message.Witness
  witness_to_proto none = none
  witness_to_proto (some w) = some (record {
    state = hex_bytes_to_bytes w.state;
    ancestors = headers_to_proto G w.ancestors;
    codes = hex_bytes_to_bytes w.codes;
  })

  pub witness_from_proto : Option Message.Witness → Outcome (Option Input.Witness)
  witness_from_proto none = ok none
  witness_from_proto (some w) = do
    ancestors ← headers_from_proto G w.ancestors
    ok (
        some (record {
          state = bytes_to_hexutil w.state;
          ancestors = ancestors;
          codes = bytes_to_hexutil w.codes;
        }))

  unfoldable pub to_proto :
      Option (Input.ProverInput G.Transaction) → Outcome (Option Message.ProverInput)
  to_proto none = ok none
  to_proto (some pi) = do
    blocks ← blocks_to_proto pi.blocks
    ok (
        some (record {
          version = pi.version;
          blocks = blocks;
          witness = witness_to_proto pi.witness;
          chain_config = chain_config_to_proto pi.chain_config;
        }))

  unfoldable pub from_proto :
      Option Message.ProverInput → Outcome (Option (Input.ProverInput G.Transaction))
  from_proto none = ok none
  from_proto (some pi) = do
    blocks ← blocks_from_proto pi.blocks
    witness ← witness_from_proto pi.witness
    ok (
        some (record {
          version = pi.version;
          blocks = blocks;
          witness = witness;
          chain_config = chain_config_from_proto G pi.chain_config;
        }))
