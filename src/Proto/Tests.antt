-- ===== src/Proto/Tests.antt =====
-- The round trips at a block with a transaction of each kind, and the conversions on short inputs.
use mathlib.Core.Option
use zk_pig.Base.{
  ◌≢◌, refl, ℕ, pos, negsuc, none, some, [], ◌∷◌, ok, panic, ◌>>=◌, length, items, zeros, be_bytes,
  be_nat, ◌≡◌, ◌↔◌, ◌<◌, refl, true,
}
use zk_pig.Geth.Types
use zk_pig.Geth.Types.{TxData, legacy, access_list, dynamic_fee, blob}
use zk_pig.Geth.Sample.{sample, sample-IsLawful}
use zk_pig.Input
use zk_pig.Proto.Message
use zk_pig.Proto.Headers.{header_from_proto}
use zk_pig.Proto.Inputs.{to_proto, from_proto}
use zk_pig.Proto.Inputs.RoundTrip.{Made, made_input, canonical_input, prover_input_round_trip}
use zk_pig.Proto.Message.{access_list_transaction}
use zk_pig.Proto.Transactions.{transaction_from_proto}
use zk_pig.Proto.Malformed.{ShortIn, header_from_proto-panic_iff, transaction_from_proto-panic_iff}

bytes_of_65536 : be_bytes 65536 ≡ 1 ∷ 0 ∷ 0 ∷ []
unfolding be_bytes
bytes_of_65536 = refl

number_of_bytes : be_nat (some (0 ∷ 1 ∷ 2 ∷ [])) ≡ 258
unfolding be_nat
number_of_bytes = refl

abbrev pub header : Types.Header
header = record {
  parent_hash = zeros 32;
  uncle_hash = zeros 32;
  coinbase = zeros 20;
  root = zeros 32;
  tx_hash = zeros 32;
  receipt_hash = zeros 32;
  bloom = zeros 256;
  difficulty = some (negsuc 6);
  number = some (pos 21372637);
  gas_limit = 30000000;
  gas_used = 21000;
  time = 1733000000;
  extra = some [];
  mix_digest = zeros 32;
  nonce = 42;
  base_fee = some (pos 7000000000);
  withdrawals_hash = some (zeros 32);
  blob_gas_used = some 131072;
  excess_blob_gas = none;
  parent_beacon_root = none;
  requests_hash = none;
}

abbrev legacy_call : Types.LegacyTx
legacy_call = record {
  nonce = 1;
  gas_price = pos 300;
  gas = 21000;
  to = some (zeros 20);
  value = pos 256;
  payload = none;
  v = pos 27;
  r = pos 5;
  s = pos 6;
}

abbrev creation : Types.AccessListTx
creation = record {
  chain_id = pos 1;
  nonce = 2;
  gas_price = pos 300;
  gas = 90000;
  to = none;
  value = pos 0;
  payload = some (96 ∷ 0 ∷ []);
  access_list = some (record { address = zeros 20; storage_keys = none } ∷ []);
  v = pos 0;
  r = pos 5;
  s = pos 6;
}

abbrev fee_call : Types.DynamicFeeTx
fee_call = record {
  chain_id = pos 1;
  nonce = 3;
  gas_tip_cap = pos 1;
  gas_fee_cap = pos 2;
  gas = 21000;
  to = some (zeros 20);
  value = pos 65536;
  payload = none;
  access_list = none;
  v = pos 1;
  r = pos 5;
  s = pos 6;
}

abbrev blob_call : Types.BlobTx ℕ
blob_call = record {
  chain_id = 1;
  nonce = 4;
  gas_tip_cap = 1;
  gas_fee_cap = 2;
  gas = 21000;
  to = zeros 20;
  value = 0;
  payload = none;
  access_list = none;
  blob_fee_cap = 3;
  blob_hashes = some (zeros 32 ∷ []);
  sidecar = some (record { blobs = none; commitments = some (zeros 48 ∷ []); proofs = some [] });
  v = 1;
  r = 5;
  s = 6;
}

abbrev block : Input.Block (Made sample)
block = record {
  header = some header;
  transactions = some (
      some (legacy legacy_call, 9)
      ∷ some (access_list creation, 9)
      ∷ some (dynamic_fee fee_call, 9)
      ∷ some (blob blob_call, 9)
      ∷ none
      ∷ []);
  uncles = some [];
  withdrawals =
      some (some (record { index = 1; validator = 2; address = zeros 20; amount = 3 }) ∷ []);
}

abbrev pub config : Types.ChainConfig
config = record {
  chain_id = some (pos 1);
  homestead_block = some (pos 1150000);
  dao_fork_block = some (pos 1920000);
  dao_fork_support = true;
  eip150_block = some (pos 2463000);
  eip155_block = some (pos 2675000);
  eip158_block = some (pos 2675000);
  byzantium_block = some (pos 4370000);
  constantinople_block = some (pos 7280000);
  petersburg_block = some (pos 7280000);
  istanbul_block = some (pos 9069000);
  muir_glacier_block = some (pos 9200000);
  berlin_block = some (pos 12244000);
  london_block = some (pos 12965000);
  arrow_glacier_block = some (pos 13773000);
  gray_glacier_block = some (pos 15050000);
  merge_netsplit_block = none;
  shanghai_time = some 1681338455;
  cancun_time = some 1710338135;
  prague_time = none;
  verkle_time = none;
  terminal_total_difficulty = some (pos 58750000000000000000000);
  deposit_contract_address = zeros 20;
  ethash = some tt;
  clique = none;
}

abbrev input : Input.ProverInput (Made sample)
input = record {
  version = "v0.0.0";
  blocks = some (some block ∷ []);
  witness = some (record {
    state = some (some (1 ∷ []) ∷ []);
    ancestors = some (some header ∷ []);
    codes = none;
  });
  chain_config = some config;
}

prover_input_round_trip_example :
    (to_proto sample (Option.map (made_input sample) (some input)) >>= from_proto sample)
    ≡ ok (Option.map (canonical_input sample) (some input))
prover_input_round_trip_example = prover_input_round_trip sample sample-IsLawful (some input)

abbrev short_header : Message.Header
short_header = record {
  parent_hash = none;
  sha3_uncles = none;
  miner = none;
  root = none;
  transactions_root = none;
  receipts_root = none;
  logs_bloom = some (1 ∷ 2 ∷ []);
  difficulty = none;
  number = none;
  gas_limit = 0;
  gas_used = 0;
  timestamp = 0;
  extra_data = none;
  mix_hash = none;
  nonce = 0;
  base_fee_per_gas = none;
  withdrawals_root = none;
  blob_gas_used = none;
  excess_blob_gas = none;
  parent_beacon_root = none;
  requests_root = none;
}

header_from_proto-panic_iff_example :
    (header_from_proto sample (some short_header) ≡ panic)
    ↔ (length (items short_header.logs_bloom) < 256)
header_from_proto-panic_iff_example = header_from_proto-panic_iff sample short_header

abbrev short_receiver : Message.AccessListTransaction
short_receiver = record {
  chain_id = none;
  nonce = 0;
  gas_price = none;
  gas = 0;
  to = some (1 ∷ []);
  value = none;
  payload = none;
  access_list = none;
  v = none;
  r = none;
  s = none;
}

transaction_from_proto-panic_iff_example :
    (transaction_from_proto sample none ≢ panic)
    × ((transaction_from_proto sample
            (some (record { transaction_type = access_list_transaction (some short_receiver) }))
          ≡ panic)
        ↔ ShortIn sample (access_list_transaction (some short_receiver)))
transaction_from_proto-panic_iff_example =
    transaction_from_proto-panic_iff sample (access_list_transaction (some short_receiver)) refl
