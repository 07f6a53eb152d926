-- ===== src/Proto/Message.antt =====
-- The protobuf messages (src/prover-input/proto/*.pb.go). A `[]byte` field is a `Slice ℕ`, an optional
-- `*uint64` an `Option ℕ`, a pointer to a message an `Option`. The runtime's own fields are left out.
use zk_pig.Base.{ℕ, Option, Bool, String, Slice}

pub record Header : Type 0 where
  pub parent_hash : Slice ℕ
  pub sha3_uncles : Slice ℕ
  pub miner : Slice ℕ
  pub root : Slice ℕ
  pub transactions_root : Slice ℕ
  pub receipts_root : Slice ℕ
  pub logs_bloom : Slice ℕ
  pub difficulty : Slice ℕ
  pub number : Slice ℕ
  pub gas_limit : ℕ
  pub gas_used : ℕ
  pub timestamp : ℕ
  pub extra_data : Slice ℕ
  pub mix_hash : Slice ℕ
  pub nonce : ℕ
  pub base_fee_per_gas : Slice ℕ
  pub withdrawals_root : Slice ℕ
  pub blob_gas_used : Option ℕ
  pub excess_blob_gas : Option ℕ
  pub parent_beacon_root : Slice ℕ
  pub requests_root : Slice ℕ

pub record Withdrawal : Type 0 where
  pub index : ℕ
  pub validator_index : ℕ
  pub address : Slice ℕ
  pub amount : ℕ

pub record AccessTuple : Type 0 where
  pub address : Slice ℕ
  pub storage_keys : Slice (Slice ℕ)

pub record BlobTxSidecar : Type 0 where
  pub blobs : Slice (Slice ℕ)
  pub commitments : Slice (Slice ℕ)
  pub proofs : Slice (Slice ℕ)

pub record LegacyTransaction : Type 0 where
  pub nonce : ℕ
  pub gas_price : Slice ℕ
  pub gas : ℕ
  pub to : Slice ℕ
  pub value : Slice ℕ
  pub payload : Slice ℕ
  pub v : Slice ℕ
  pub r : Slice ℕ
  pub s : Slice ℕ

pub record AccessListTransaction : Type 0 where
  pub chain_id : Slice ℕ
  pub nonce : ℕ
  pub gas_price : Slice ℕ
  pub gas : ℕ
  pub to : Slice ℕ
  pub value : Slice ℕ
  pub payload : Slice ℕ
  pub access_list : Slice (Option AccessTuple)
  pub v : Slice ℕ
  pub r : Slice ℕ
  pub s : Slice ℕ

pub record DynamicFeeTransaction : Type 0 where
  pub chain_id : Slice ℕ
  pub nonce : ℕ
  pub gas_tip_cap : Slice ℕ
  pub gas_fee_cap : Slice ℕ
  pub gas : ℕ
  pub to : Slice ℕ
  pub value : Slice ℕ
  pub payload : Slice ℕ
  pub access_list : Slice (Option AccessTuple)
  pub v : Slice ℕ
  pub r : Slice ℕ
  pub s : Slice ℕ

pub record BlobTransaction : Type 0 where
  pub chain_id : Slice ℕ
  pub nonce : ℕ
  pub gas_tip_cap : Slice ℕ
  pub gas_fee_cap : Slice ℕ
  pub gas : ℕ
  pub to : Slice ℕ
  pub value : Slice ℕ
  pub payload : Slice ℕ
  pub access_list : Slice (Option AccessTuple)
  pub blob_fee_cap : Slice ℕ
  pub blob_hashes : Slice (Slice ℕ)
  pub sidecar : Option BlobTxSidecar
  pub v : Slice ℕ
  pub r : Slice ℕ
  pub s : Slice ℕ

-- The `oneof`: no case set, or a case, whose message pointer may be nil.
pub data TransactionType : Type 0 where
  unset : TransactionType
  legacy_transaction : Option LegacyTransaction → TransactionType
  access_list_transaction : Option AccessListTransaction → TransactionType
  dynamic_fee_transaction : Option DynamicFeeTransaction → TransactionType
  blob_transaction : Option BlobTransaction → TransactionType

pub record Transaction : Type 0 where
  pub transaction_type : TransactionType

pub record Block : Type 0 where
  pub header : Option Header
  pub transactions : Slice (Option Transaction)
  pub uncles : Slice (Option Header)
  pub withdrawals : Slice (Option Withdrawal)

pub record CliqueConfig : Type 0 where
  pub period : ℕ
  pub epoch : ℕ

pub record ChainConfig : Type 0 where
  pub chain_id : Slice ℕ
  pub homestead_block : Slice ℕ
  pub dao_fork_block : Slice ℕ
  pub dao_fork_support : Option Bool
  pub eip150_block : Slice ℕ
  pub eip155_block : Slice ℕ
  pub eip158_block : Slice ℕ
  pub byzantium_block : Slice ℕ
  pub constantinople_block : Slice ℕ
  pub petersburg_block : Slice ℕ
  pub istanbul_block : Slice ℕ
  pub muir_glacier_block : Slice ℕ
  pub berlin_block : Slice ℕ
  pub london_block : Slice ℕ
  pub arrow_glacier_block : Slice ℕ
  pub gray_glacier_block : Slice ℕ
  pub merge_netsplit_block : Slice ℕ
  pub shanghai_time : Option ℕ
  pub cancun_time : Option ℕ
  pub prague_time : Option ℕ
  pub verkle_time : Option ℕ
  pub terminal_total_difficulty : Slice ℕ
  pub deposit_contract_address : Slice ℕ
  pub ethash : Slice ℕ
  pub clique : Option CliqueConfig

pub record Witness : Type 0 where
  pub state : Slice (Slice ℕ)
  pub ancestors : Slice (Option Header)
  pub codes : Slice (Slice ℕ)

pub record ProverInput : Type 0 where
  pub version : String
  pub blocks : Slice (Option Block)
  pub witness : Option Witness
  pub chain_config : Option ChainConfig
