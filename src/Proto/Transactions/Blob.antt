-- ===== src/Proto/Transactions/Blob.antt =====
-- src/prover-input/proto/transaction.go: blob transactions.
use mathlib.Core.Option
use mathlib.Core.List.{map-map, map-id}
use zk_pig.Base.{
  ℕ, pos, Option, none, some, List, Slice, items, map, Outcome, ok, ◌>>=◌, deref, to_array,
  to_array-bytes, zeros, ◌≡◌,
}
use zk_pig.Geth.Types
use zk_pig.Geth.Types.{Hash, Address, blob}
use zk_pig.Geth.Interface.{Geth}
use zk_pig.Geth.Lawful.{trimmed_sidecar, IsLawful, made}
use zk_pig.Proto.Message
use zk_pig.Proto.Helpers.{get_slice, get_uint64, int_bytes, bytes_of_int}
use zk_pig.Proto.AccessLists.{
  access_list_to_proto, access_list_from_proto, with_keys,
  access_list_from_proto-access_list_to_proto,
}
use zk_pig.Proto.Sidecars.{
  blob_sidecar_to_proto, blob_sidecar_from_proto, trimmed_twice,
  blob_sidecar_from_proto-blob_sidecar_to_proto,
}

-- `t.GetSidecar()`
get_sidecar : Option Message.BlobTransaction → Option Message.BlobTxSidecar
get_sidecar none = none
get_sidecar (some t) = t.sidecar

-- The receiver of a blob transaction stays the zero address if the message has none.
blob_receiver : Slice ℕ → Outcome Address
blob_receiver none = ok (zeros 20)
blob_receiver (some b) = to_array 20 b

module _ (G : Geth) where
  -- `tx.To().Bytes()` panics if the transaction creates a contract.
  unfoldable pub blob_transaction_to_proto : G.Transaction → Outcome Message.BlobTransaction
  blob_transaction_to_proto tx = do
    let (v, r, s) = G.raw_signature_values tx
    chain_id ← int_bytes (G.chain_id tx)
    gas_tip_cap ← int_bytes (G.gas_tip_cap tx)
    gas_fee_cap ← int_bytes (G.gas_fee_cap tx)
    to ← deref (G.to tx)
    value ← int_bytes (G.value tx)
    blob_fee_cap ← int_bytes (G.blob_gas_fee_cap tx)
    v_bytes ← int_bytes v
    r_bytes ← int_bytes r
    s_bytes ← int_bytes s
    ok (record {
      chain_id = chain_id;
      nonce = G.nonce tx;
      gas_tip_cap = gas_tip_cap;
      gas_fee_cap = gas_fee_cap;
      gas = G.gas tx;
      to = some to.bytes;
      value = value;
      payload = G.payload tx;
      access_list = access_list_to_proto (G.access_list tx);
      blob_fee_cap = blob_fee_cap;
      blob_hashes = some (map (λ hash. some hash.bytes) (items (G.blob_hashes tx)));
      sidecar = blob_sidecar_to_proto (G.blob_tx_sidecar tx);
      v = v_bytes;
      r = r_bytes;
      s = s_bytes;
    })

  unfoldable pub blob_transaction_from_proto :
      Option Message.BlobTransaction → Outcome G.Transaction
  unfolding get_sidecar blob_receiver
  blob_transaction_from_proto t = do
    sidecar ← blob_sidecar_from_proto (get_sidecar t)
    to ← blob_receiver (get_slice t (λ m. m.to))
    ok (
        made G
          (blob (record {
            chain_id = G.u256_set_bytes (get_slice t (λ m. m.chain_id));
            nonce = get_uint64 t (λ m. m.nonce);
            gas_tip_cap = G.u256_set_bytes (get_slice t (λ m. m.gas_tip_cap));
            gas_fee_cap = G.u256_set_bytes (get_slice t (λ m. m.gas_fee_cap));
            gas = get_uint64 t (λ m. m.gas);
            to = to;
            value = G.u256_set_bytes (get_slice t (λ m. m.value));
            payload = get_slice t (λ m. m.payload);
            access_list = access_list_from_proto G (get_slice t (λ m. m.access_list));
            blob_fee_cap = G.u256_set_bytes (get_slice t (λ m. m.blob_fee_cap));
            blob_hashes = some (map G.bytes_to_hash (items (get_slice t (λ m. m.blob_hashes))));
            sidecar = sidecar;
            v = G.u256_set_bytes (get_slice t (λ m. m.v));
            r = G.u256_set_bytes (get_slice t (λ m. m.r));
            s = G.u256_set_bytes (get_slice t (λ m. m.s));
          }))
          0)

abbrev pub canonical_blob : {U : Type 0} → Types.BlobTx U → Types.BlobTx U
canonical_blob i = record i {
  access_list = some (map with_keys (items i.access_list));
  blob_hashes = some (items i.blob_hashes);
  sidecar = Option.map trimmed_sidecar i.sidecar;
}

module _ (G : Geth) (L : IsLawful G) where
  hashes_round_trip : (hs : List Hash) → map G.bytes_to_hash (map (λ h. some h.bytes) hs) ≡ hs
  hashes_round_trip hs = simp (map-map, L.to_hash, map-id)

  set_bytes-bytes_of_int : (u : G.U256) → G.u256_set_bytes (bytes_of_int (pos (G.u256_nat u))) ≡ u
  unfolding bytes_of_int
  set_bytes-bytes_of_int u = L.to_u256 u

  pub blob_transaction_round_trip :
      (i : Types.BlobTx G.U256) (t : ℕ)
      → (do
        m ← blob_transaction_to_proto G (made G (blob i) t)
        blob_transaction_from_proto G (some m))
        ≡ ok (made G (blob (canonical_blob i)) 0)
  unfolding blob_transaction_to_proto blob_transaction_from_proto
  blob_transaction_round_trip i t =
      let l = L.shows_blob i t in
      simp (
        l.chain_id,
        l.nonce,
        l.gas_tip_cap,
        l.gas_fee_cap,
        l.gas,
        l.to,
        l.value,
        l.payload,
        l.accesses,
        l.blob_fee_cap,
        l.blob_hashes,
        l.sidecar,
        l.signature,
        set_bytes-bytes_of_int,
        hashes_round_trip,
        blob_sidecar_from_proto-blob_sidecar_to_proto,
        trimmed_twice,
        to_array-bytes,
        access_list_from_proto-access_list_to_proto G L,
      )
