-- ===== src/Geth/Types.antt =====
-- The structs of go-ethereum, with the fields that the repository reads or fills.
use zk_pig.Base.{ℕ, ℤ, Option, Bool, Slice, Array}

abbrev pub Hash : Type 0
Hash = Array 32

abbrev pub Address : Type 0
Address = Array 20

abbrev pub Bloom : Type 0
Bloom = Array 256

-- Eight bytes, kept as the number that they hold: the code only reads and sets that number.
abbrev pub BlockNonce : Type 0
BlockNonce = ℕ

-- The sizes of `kzg4844.Blob`, `kzg4844.Commitment` and `kzg4844.Proof`.
abbrev pub blob_size : ℕ
blob_size = 131072

abbrev pub point_size : ℕ
point_size = 48

-- A pointer field is an `Option`, a `[]byte` a `Slice ℕ`, and a `*big.Int` an `Option ℤ`.
pub record Header : Type 0 where
  pub parent_hash : Hash
  pub uncle_hash : Hash
  pub coinbase : Address
  pub root : Hash
  pub tx_hash : Hash
  pub receipt_hash : Hash
  pub bloom : Bloom
  pub difficulty : Option ℤ
  pub number : Option ℤ
  pub gas_limit : ℕ
  pub gas_used : ℕ
  pub time : ℕ
  pub extra : Slice ℕ
  pub mix_digest : Hash
  pub nonce : BlockNonce
  pub base_fee : Option ℤ
  pub withdrawals_hash : Option Hash
  pub blob_gas_used : Option ℕ
  pub excess_blob_gas : Option ℕ
  pub parent_beacon_root : Option Hash
  pub requests_hash : Option Hash

pub record Withdrawal : Type 0 where
  pub index : ℕ
  pub validator : ℕ
  pub address : Address
  pub amount : ℕ

pub record AccessTuple : Type 0 where
  pub address : Address
  pub storage_keys : Slice Hash

abbrev pub AccessList : Type 0
AccessList = Slice AccessTuple

pub record BlobTxSidecar : Type 0 where
  pub blobs : Slice (Array blob_size)
  pub commitments : Slice (Array point_size)
  pub proofs : Slice (Array point_size)

-- The transaction payloads that the repository builds: it never leaves a number nil in them.
pub record LegacyTx : Type 0 where
  pub nonce : ℕ
  pub gas_price : ℤ
  pub gas : ℕ
  pub to : Option Address
  pub value : ℤ
  pub payload : Slice ℕ
  pub v : ℤ
  pub r : ℤ
  pub s : ℤ

pub record AccessListTx : Type 0 where
  pub chain_id : ℤ
  pub nonce : ℕ
  pub gas_price : ℤ
  pub gas : ℕ
  pub to : Option Address
  pub value : ℤ
  pub payload : Slice ℕ
  pub access_list : AccessList
  pub v : ℤ
  pub r : ℤ
  pub s : ℤ

pub record DynamicFeeTx : Type 0 where
  pub chain_id : ℤ
  pub nonce : ℕ
  pub gas_tip_cap : ℤ
  pub gas_fee_cap : ℤ
  pub gas : ℕ
  pub to : Option Address
  pub value : ℤ
  pub payload : Slice ℕ
  pub access_list : AccessList
  pub v : ℤ
  pub r : ℤ
  pub s : ℤ

-- The numbers of a blob transaction are `*uint256.Int`s, and it always has a receiver.
pub record BlobTx (U256 : Type 0) : Type 0 where
  pub chain_id : U256
  pub nonce : ℕ
  pub gas_tip_cap : U256
  pub gas_fee_cap : U256
  pub gas : ℕ
  pub to : Address
  pub value : U256
  pub payload : Slice ℕ
  pub access_list : AccessList
  pub blob_fee_cap : U256
  pub blob_hashes : Slice Hash
  pub sidecar : Option BlobTxSidecar
  pub v : U256
  pub r : U256
  pub s : U256

-- `gethtypes.TxData`.
pub data TxData (U256 : Type 0) : Type 0 where
  legacy : LegacyTx → TxData U256
  access_list : AccessListTx → TxData U256
  dynamic_fee : DynamicFeeTx → TxData U256
  blob : BlobTx U256 → TxData U256

-- What `tx.Type()` returns: the four types that the repository names, or another one.
pub data TxType : Type 0 where
  legacy_tx access_list_tx dynamic_fee_tx blob_tx : TxType
  other_tx : ℕ → TxType

pub record CliqueConfig : Type 0 where
  pub period : ℕ
  pub epoch : ℕ

-- `params.ChainConfig`; its `Ethash` points to an empty struct.
pub record ChainConfig : Type 0 where
  pub chain_id : Option ℤ
  pub homestead_block : Option ℤ
  pub dao_fork_block : Option ℤ
  pub dao_fork_support : Bool
  pub eip150_block : Option ℤ
  pub eip155_block : Option ℤ
  pub eip158_block : Option ℤ
  pub byzantium_block : Option ℤ
  pub constantinople_block : Option ℤ
  pub petersburg_block : Option ℤ
  pub istanbul_block : Option ℤ
  pub muir_glacier_block : Option ℤ
  pub berlin_block : Option ℤ
  pub london_block : Option ℤ
  pub arrow_glacier_block : Option ℤ
  pub gray_glacier_block : Option ℤ
  pub merge_netsplit_block : Option ℤ
  pub shanghai_time : Option ℕ
  pub cancun_time : Option ℕ
  pub prague_time : Option ℕ
  pub verkle_time : Option ℕ
  pub terminal_total_difficulty : Option ℤ
  pub deposit_contract_address : Address
  pub ethash : Option (Unit {0})
  pub clique : Option CliqueConfig
