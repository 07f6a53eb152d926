-- ===== src/Geth/Interface.antt =====
-- The functions and methods of go-ethereum and uint256 that the conversions call.
use zk_pig.Base.{ℕ, ℤ, Option, Slice}
use zk_pig.Geth.Types.{Hash, Address, BlockNonce, AccessList, BlobTxSidecar, TxData, TxType}

pub record Geth : Type 1 where
  -- `gethcommon`
  pub bytes_to_hash : Slice ℕ → Hash
  pub bytes_to_address : Slice ℕ → Address
  -- `to.SetBytes(b)` on a new address
  pub address_set_bytes : Slice ℕ → Address
  -- `gethtypes.BlockNonce`
  pub nonce_uint64 : BlockNonce → ℕ
  pub encode_nonce : ℕ → BlockNonce
  -- `uint256.Int`
  pub U256 : Type 0
  pub u256_set_bytes : Slice ℕ → U256
  -- the number that it holds, which the accessors of a blob transaction return as a `*big.Int`
  pub u256_nat : U256 → ℕ
  -- `gethtypes.Transaction`; a returned `*big.Int` or `*Address` may be nil
  pub Transaction : Type 0
  pub new_tx : TxData U256 → Transaction
  pub set_time : Transaction → ℕ → Transaction
  pub tx_type : Transaction → TxType
  pub chain_id : Transaction → Option ℤ
  pub nonce : Transaction → ℕ
  pub gas_price : Transaction → Option ℤ
  pub gas_tip_cap : Transaction → Option ℤ
  pub gas_fee_cap : Transaction → Option ℤ
  pub gas : Transaction → ℕ
  pub to : Transaction → Option Address
  pub value : Transaction → Option ℤ
  pub payload : Transaction → Slice ℕ
  pub access_list : Transaction → AccessList
  pub blob_gas_fee_cap : Transaction → Option ℤ
  pub blob_hashes : Transaction → Slice Hash
  pub blob_tx_sidecar : Transaction → Option BlobTxSidecar
  pub raw_signature_values : Transaction → Option ℤ × Option ℤ × Option ℤ
