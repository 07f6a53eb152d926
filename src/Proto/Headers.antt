-- ===== src/Proto/Headers.antt =====
-- src/prover-input/proto/block.go: headers and withdrawals.
pub mod RoundTrip
use zk_pig.Base.{ℕ, Option, none, some, Slice, map, Outcome, ok, ◌>>=◌, map_each, to_array, items}
use zk_pig.Geth.Types
use zk_pig.Geth.Types.{Hash}
use zk_pig.Geth.Interface.{Geth}
use zk_pig.Proto.Message
use zk_pig.Proto.Helpers.{bytes_to_big_int, big_int_to_bytes, bytes_to_hash_ptr, hash_ptr_to_bytes}

module _ (G : Geth) where
  header_fields : Types.Header → Message.Header
  header_fields h = record {
    parent_hash = some h.parent_hash.bytes;
    sha3_uncles = some h.uncle_hash.bytes;
    miner = some h.coinbase.bytes;
    root = some h.root.bytes;
    transactions_root = some h.tx_hash.bytes;
    receipts_root = some h.receipt_hash.bytes;
    logs_bloom = some h.bloom.bytes;
    difficulty = big_int_to_bytes h.difficulty;
    number = big_int_to_bytes h.number;
    gas_limit = h.gas_limit;
    gas_used = h.gas_used;
    timestamp = h.time;
    extra_data = h.extra;
    mix_hash = some h.mix_digest.bytes;
    nonce = G.nonce_uint64 h.nonce;
    base_fee_per_gas = big_int_to_bytes h.base_fee;
    withdrawals_root = hash_ptr_to_bytes h.withdrawals_hash;
    blob_gas_used = h.blob_gas_used;
    excess_blob_gas = h.excess_blob_gas;
    parent_beacon_root = hash_ptr_to_bytes h.parent_beacon_root;
    requests_root = hash_ptr_to_bytes h.requests_hash;
  }

  pub header_to_proto : Option Types.Header → Option Message.Header
  unfolding header_fields
  header_to_proto none = none
  header_to_proto (some h) = some (header_fields h)

  -- The conversion of the bloom filter to an array panics if it is too short.
  unfoldable pub header_from_proto : Option Message.Header → Outcome (Option Types.Header)
  header_from_proto none = ok none
  header_from_proto (some h) = do
    bloom ← to_array 256 (items h.logs_bloom)
    ok (
        some (record {
          parent_hash = G.bytes_to_hash h.parent_hash;
          uncle_hash = G.bytes_to_hash h.sha3_uncles;
          coinbase = G.bytes_to_address h.miner;
          root = G.bytes_to_hash h.root;
          tx_hash = G.bytes_to_hash h.transactions_root;
          receipt_hash = G.bytes_to_hash h.receipts_root;
          bloom = bloom;
          difficulty = bytes_to_big_int h.difficulty;
          number = bytes_to_big_int h.number;
          gas_limit = h.gas_limit;
          gas_used = h.gas_used;
          time = h.timestamp;
          extra = h.extra_data;
          mix_digest = G.bytes_to_hash h.mix_hash;
          nonce = G.encode_nonce h.nonce;
          base_fee = bytes_to_big_int h.base_fee_per_gas;
          withdrawals_hash = bytes_to_hash_ptr G h.withdrawals_root;
          blob_gas_used = h.blob_gas_used;
          excess_blob_gas = h.excess_blob_gas;
          parent_beacon_root = bytes_to_hash_ptr G h.parent_beacon_root;
          requests_hash = bytes_to_hash_ptr G h.requests_root;
        }))

  pub headers_to_proto : Slice (Option Types.Header) → Slice (Option Message.Header)
  headers_to_proto none = none
  headers_to_proto (some hs) = some (map header_to_proto hs)

  pub headers_from_proto : Slice (Option Message.Header) → Outcome (Slice (Option Types.Header))
  headers_from_proto none = ok none
  headers_from_proto (some hs) = do result ← map_each header_from_proto hs; ok (some result)

  pub withdrawal_to_proto : Option Types.Withdrawal → Option Message.Withdrawal
  withdrawal_to_proto none = none
  withdrawal_to_proto (some w) = some (record {
    index = w.index;
    validator_index = w.validator;
    address = some w.address.bytes;
    amount = w.amount;
  })

  pub withdrawal_from_proto : Option Message.Withdrawal → Option Types.Withdrawal
  withdrawal_from_proto none = none
  withdrawal_from_proto (some w) = some (record {
    index = w.index;
    validator = w.validator_index;
    address = G.bytes_to_address w.address;
    amount = w.amount;
  })

  pub withdrawals_to_proto : Slice (Option Types.Withdrawal) → Slice (Option Message.Withdrawal)
  withdrawals_to_proto none = none
  withdrawals_to_proto (some ws) = some (map withdrawal_to_proto ws)

  pub withdrawals_from_proto : Slice (Option Message.Withdrawal) → Slice (Option Types.Withdrawal)
  withdrawals_from_proto none = none
  withdrawals_from_proto (some ws) = some (map withdrawal_from_proto ws)
