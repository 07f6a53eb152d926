-- ===== src/Geth/Lawful.antt =====
-- What the documentation of go-ethereum and uint256 says of the functions that the conversions call:
-- setting from the bytes of a value gives the value, and a transaction made from a payload shows it.
-- `NewTx` copies the payload: access lists and blob hashes are made anew, and are never nil, and the
-- slices of a sidecar are appended to nil, and are nil if they are empty.
use mathlib.Core.Option
use zk_pig.Base.{ℕ, ℤ, pos, Option, some, Slice, items, appended, ◌≡◌, be_bytes}
use zk_pig.Geth.Types.{
  Hash, Address, BlockNonce, BlobTxSidecar, LegacyTx, AccessListTx, DynamicFeeTx, BlobTx, TxData,
  legacy, access_list, dynamic_fee, blob, legacy_tx, access_list_tx, dynamic_fee_tx, blob_tx,
}
use zk_pig.Geth.Interface.{Geth}

-- A slice that is nil if it is empty.
abbrev pub trimmed {ℓ} : {A : Type ℓ} → Slice A → Slice A
trimmed s = appended (items s)

abbrev pub trimmed_sidecar : BlobTxSidecar → BlobTxSidecar
trimmed_sidecar s = record {
  blobs = trimmed s.blobs;
  commitments = trimmed s.commitments;
  proofs = trimmed s.proofs;
}

module _ (G : Geth) where
  -- `tx := gethtypes.NewTx(inner); tx.SetTime(t)`
  abbrev pub made : TxData G.U256 → ℕ → G.Transaction
  made inner t = G.set_time (G.new_tx inner) t

  -- A number of a blob transaction, as an accessor returns it.
  abbrev pub shown : G.U256 → Option ℤ
  shown u = some (pos (G.u256_nat u))

  pub record ShowsLegacy (tx : G.Transaction) (i : LegacyTx) : Type 0 where
    pub kind : G.tx_type tx ≡ legacy_tx
    pub nonce : G.nonce tx ≡ i.nonce
    pub gas_price : G.gas_price tx ≡ some i.gas_price
    pub gas : G.gas tx ≡ i.gas
    pub to : G.to tx ≡ i.to
    pub value : G.value tx ≡ some i.value
    pub payload : G.payload tx ≡ i.payload
    pub signature : G.raw_signature_values tx ≡ (some i.v, some i.r, some i.s)

  pub record ShowsAccessList (tx : G.Transaction) (i : AccessListTx) : Type 0 where
    pub kind : G.tx_type tx ≡ access_list_tx
    pub chain_id : G.chain_id tx ≡ some i.chain_id
    pub nonce : G.nonce tx ≡ i.nonce
    pub gas_price : G.gas_price tx ≡ some i.gas_price
    pub gas : G.gas tx ≡ i.gas
    pub to : G.to tx ≡ i.to
    pub value : G.value tx ≡ some i.value
    pub payload : G.payload tx ≡ i.payload
    pub accesses : G.access_list tx ≡ some (items i.access_list)
    pub signature : G.raw_signature_values tx ≡ (some i.v, some i.r, some i.s)

  pub record ShowsDynamicFee (tx : G.Transaction) (i : DynamicFeeTx) : Type 0 where
    pub kind : G.tx_type tx ≡ dynamic_fee_tx
    pub chain_id : G.chain_id tx ≡ some i.chain_id
    pub nonce : G.nonce tx ≡ i.nonce
    pub gas_tip_cap : G.gas_tip_cap tx ≡ some i.gas_tip_cap
    pub gas_fee_cap : G.gas_fee_cap tx ≡ some i.gas_fee_cap
    pub gas : G.gas tx ≡ i.gas
    pub to : G.to tx ≡ i.to
    pub value : G.value tx ≡ some i.value
    pub payload : G.payload tx ≡ i.payload
    pub accesses : G.access_list tx ≡ some (items i.access_list)
    pub signature : G.raw_signature_values tx ≡ (some i.v, some i.r, some i.s)

  pub record ShowsBlob (tx : G.Transaction) (i : BlobTx G.U256) : Type 0 where
    pub kind : G.tx_type tx ≡ blob_tx
    pub chain_id : G.chain_id tx ≡ shown i.chain_id
    pub nonce : G.nonce tx ≡ i.nonce
    pub gas_tip_cap : G.gas_tip_cap tx ≡ shown i.gas_tip_cap
    pub gas_fee_cap : G.gas_fee_cap tx ≡ shown i.gas_fee_cap
    pub gas : G.gas tx ≡ i.gas
    pub to : G.to tx ≡ some i.to
    pub value : G.value tx ≡ shown i.value
    pub payload : G.payload tx ≡ i.payload
    pub accesses : G.access_list tx ≡ some (items i.access_list)
    pub blob_fee_cap : G.blob_gas_fee_cap tx ≡ shown i.blob_fee_cap
    pub blob_hashes : G.blob_hashes tx ≡ some (items i.blob_hashes)
    pub sidecar : G.blob_tx_sidecar tx ≡ Option.map trimmed_sidecar i.sidecar
    pub signature : G.raw_signature_values tx ≡ (shown i.v, shown i.r, shown i.s)

  pub record IsLawful : Type 0 where
    pub to_hash : (h : Hash) → G.bytes_to_hash (some h.bytes) ≡ h
    pub to_address : (a : Address) → G.bytes_to_address (some a.bytes) ≡ a
    pub set_address : (a : Address) → G.address_set_bytes (some a.bytes) ≡ a
    pub to_nonce : (n : BlockNonce) → G.encode_nonce (G.nonce_uint64 n) ≡ n
    pub to_u256 : (u : G.U256) → G.u256_set_bytes (some (be_bytes (G.u256_nat u))) ≡ u
    pub shows_legacy : (i : LegacyTx) (t : ℕ) → ShowsLegacy (made (legacy i) t) i
    pub shows_access_list : (i : AccessListTx) (t : ℕ) → ShowsAccessList (made (access_list i) t) i
    pub shows_dynamic_fee : (i : DynamicFeeTx) (t : ℕ) → ShowsDynamicFee (made (dynamic_fee i) t) i
    pub shows_blob : (i : BlobTx G.U256) (t : ℕ) → ShowsBlob (made (blob i) t) i
