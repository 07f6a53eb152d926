-- ===== src/Proto/Inputs/RoundTrip.antt =====
-- Blocks, witnesses and whole prover inputs survive the conversion to messages and back.
use mathlib.Core.Option
use mathlib.Core.List.{map-id}
use zk_pig.Base.{
  ℕ, Option, none, some, Slice, map, ok, ◌>>=◌, map_each, map_each-map_comp, map_each_round_trip,
  packed_round_trip, ◌≡◌, refl, ap,
}
use zk_pig.Geth.Types.{TxData}
use zk_pig.Geth.Interface.{Geth}
use zk_pig.Geth.Lawful.{IsLawful}
use zk_pig.Input
use zk_pig.Proto.Helpers.{hex_bytes_to_bytes, bytes_to_hexutil}
use zk_pig.Proto.Headers.RoundTrip.{
  unsigned, header_from_proto-header_to_proto, headers_from_proto-headers_to_proto,
  withdrawals_from_proto-withdrawals_to_proto,
}
use zk_pig.Proto.Transactions.{transactions_to_proto, transactions_from_proto}
use zk_pig.Proto.Transactions.RoundTrip.{made_each, canonical_each, transactions_round_trip}
use zk_pig.Proto.ChainConfigs.{unsigned_config, chain_config_round_trip}
use zk_pig.Proto.Inputs.{
  block_to_proto, block_from_proto, blocks_to_proto, blocks_from_proto, witness_to_proto,
  witness_from_proto, to_proto, from_proto,
}

hex_round_trip : (s : Slice (Slice ℕ)) → bytes_to_hexutil (hex_bytes_to_bytes s) ≡ s
unfolding bytes_to_hexutil hex_bytes_to_bytes
hex_round_trip none = refl
hex_round_trip (some bs) = ap some (simp map-id)

-- The witness with the absolute values of the big integers of its headers.
abbrev pub unsigned_witness : Input.Witness → Input.Witness
unsigned_witness w = record w { ancestors = Option.map (map (Option.map unsigned)) w.ancestors }

module _ (G : Geth) where
  -- Transactions are given by a payload and a time, from which they are made.
  abbrev pub Made : Type 0
  Made = TxData G.U256 × ℕ

  abbrev pub made_block : Input.Block Made → Input.Block G.Transaction
  made_block b = record {
    header = b.header;
    transactions = made_each G b.transactions;
    uncles = b.uncles;
    withdrawals = b.withdrawals;
  }

  abbrev pub canonical_block : Input.Block Made → Input.Block G.Transaction
  canonical_block b = record {
    header = Option.map unsigned b.header;
    transactions = canonical_each G b.transactions;
    uncles = Option.map (map (Option.map unsigned)) b.uncles;
    withdrawals = b.withdrawals;
  }

  abbrev pub made_input : Input.ProverInput Made → Input.ProverInput G.Transaction
  made_input pi = record {
    version = pi.version;
    blocks = Option.map (map (Option.map made_block)) pi.blocks;
    witness = pi.witness;
    chain_config = pi.chain_config;
  }

  abbrev pub canonical_input : Input.ProverInput Made → Input.ProverInput G.Transaction
  canonical_input pi = record {
    version = pi.version;
    blocks = Option.map (map (Option.map canonical_block)) pi.blocks;
    witness = Option.map unsigned_witness pi.witness;
    chain_config = Option.map unsigned_config pi.chain_config;
  }

module _ (G : Geth) (L : IsLawful G) where
  block_round_trip :
      (b : Option (Input.Block (Made G)))
      → (block_to_proto G (Option.map (made_block G) b) >>= block_from_proto G)
        ≡ ok (Option.map (canonical_block G) b)
  unfolding block_to_proto block_from_proto
  block_round_trip none = refl
  block_round_trip (some b) =
      packed_round_trip _ (transactions_from_proto G) (block_from_proto G)
        (λ txs. some (record (canonical_block G b) { transactions = txs }))
        (transactions_to_proto G (made_each G b.transactions))
        (λ m. rw (
          header_from_proto-header_to_proto G L,
          headers_from_proto-headers_to_proto G L,
          withdrawals_from_proto-withdrawals_to_proto G L,
        ))
        (transactions_round_trip G L b.transactions)

  blocks_round_trip :
      (bs : Slice (Option (Input.Block (Made G))))
      → (blocks_to_proto G (Option.map (map (Option.map (made_block G))) bs)
          >>= blocks_from_proto G)
        ≡ ok (Option.map (map (Option.map (canonical_block G))) bs)
  unfolding blocks_to_proto blocks_from_proto
  blocks_round_trip none = refl
  blocks_round_trip (some bs) =
      packed_round_trip some (map_each (block_from_proto G)) (blocks_from_proto G) some
        (map_each (block_to_proto G) (map (Option.map (made_block G)) bs)) (λ ms. refl)
        (rw map_each-map_comp (map_each_round_trip _ (block_from_proto G) _ block_round_trip bs))

  witness_round_trip :
      (w : Option Input.Witness)
      → witness_from_proto G (witness_to_proto G w) ≡ ok (Option.map unsigned_witness w)
  unfolding witness_from_proto witness_to_proto
  witness_round_trip none = refl
  witness_round_trip (some w) = simp (hex_round_trip, headers_from_proto-headers_to_proto G L)

  -- A prover input whose transactions are made from payloads is converted to a message without a
  -- panic, and comes back in canonical form: its version, header fields, withdrawals, state nodes,
  -- codes and fork settings as they were, big integers without their signs, transactions made at time
  -- 0 from canonical payloads. A nil input stays nil.
  pub prover_input_round_trip :
      (pi : Option (Input.ProverInput (Made G)))
      → (to_proto G (Option.map (made_input G) pi) >>= from_proto G)
        ≡ ok (Option.map (canonical_input G) pi)
  unfolding to_proto from_proto
  prover_input_round_trip none = refl
  prover_input_round_trip (some pi) =
      packed_round_trip _ (blocks_from_proto G) (from_proto G)
        (λ bs. some (record (canonical_input G pi) { blocks = bs }))
        (blocks_to_proto G (made_input G pi).blocks)
        (λ m. rw (witness_round_trip, chain_config_round_trip G L)) (blocks_round_trip pi.blocks)
