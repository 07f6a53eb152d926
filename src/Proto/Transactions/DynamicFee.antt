-- ===== src/Proto/Transactions/DynamicFee.antt =====
-- src/prover-input/proto/transaction.go: transactions with a dynamic fee.
use zk_pig.Base.{items, ℕ, magnitude, Option, some, map, Outcome, ok, ◌>>=◌, ◌≡◌}
use zk_pig.Geth.Types
use zk_pig.Geth.Types.{Address, dynamic_fee}
use zk_pig.Geth.Interface.{Geth}
use zk_pig.Geth.Lawful.{IsLawful, made}
use zk_pig.Proto.Message
use zk_pig.Proto.Helpers.{
  get_slice, get_uint64, int_bytes, int_of_bytes, addr_to_bytes, int_of_bytes-bytes_of_int,
  receiver, receiver-addr_to_bytes,
}
use zk_pig.Proto.AccessLists.{
  access_list_to_proto, access_list_from_proto, with_keys,
  access_list_from_proto-access_list_to_proto,
}

module _ (G : Geth) where
  unfoldable pub dynamic_fee_transaction_to_proto :
      G.Transaction → Outcome Message.DynamicFeeTransaction
  dynamic_fee_transaction_to_proto tx = do
    let (v, r, s) = G.raw_signature_values tx
    chain_id ← int_bytes (G.chain_id tx)
    gas_tip_cap ← int_bytes (G.gas_tip_cap tx)
    gas_fee_cap ← int_bytes (G.gas_fee_cap tx)
    value ← int_bytes (G.value tx)
    v_bytes ← int_bytes v
    r_bytes ← int_bytes r
    s_bytes ← int_bytes s
    ok (record {
      chain_id = chain_id;
      nonce = G.nonce tx;
      gas_tip_cap = gas_tip_cap;
      gas_fee_cap = gas_fee_cap;
      gas = G.gas tx;
      to = addr_to_bytes (G.to tx);
      value = value;
      payload = G.payload tx;
      access_list = access_list_to_proto (G.access_list tx);
      v = v_bytes;
      r = r_bytes;
      s = s_bytes;
    })

  unfoldable pub dynamic_fee_transaction_from_proto :
      Option Message.DynamicFeeTransaction → Outcome G.Transaction
  dynamic_fee_transaction_from_proto t = do
    to ← receiver (get_slice t (λ m. m.to))
    ok (
        made G
          (dynamic_fee (record {
            chain_id = int_of_bytes (get_slice t (λ m. m.chain_id));
            nonce = get_uint64 t (λ m. m.nonce);
            gas_tip_cap = int_of_bytes (get_slice t (λ m. m.gas_tip_cap));
            gas_fee_cap = int_of_bytes (get_slice t (λ m. m.gas_fee_cap));
            gas = get_uint64 t (λ m. m.gas);
            to = to;
            value = int_of_bytes (get_slice t (λ m. m.value));
            payload = get_slice t (λ m. m.payload);
            access_list = access_list_from_proto G (get_slice t (λ m. m.access_list));
            v = int_of_bytes (get_slice t (λ m. m.v));
            r = int_of_bytes (get_slice t (λ m. m.r));
            s = int_of_bytes (get_slice t (λ m. m.s));
          }))
          0)

abbrev pub canonical_dynamic_fee : Types.DynamicFeeTx → Types.DynamicFeeTx
canonical_dynamic_fee i = record i {
  chain_id = magnitude i.chain_id;
  gas_tip_cap = magnitude i.gas_tip_cap;
  gas_fee_cap = magnitude i.gas_fee_cap;
  value = magnitude i.value;
  access_list = some (map with_keys (items i.access_list));
  v = magnitude i.v;
  r = magnitude i.r;
  s = magnitude i.s;
}

module _ (G : Geth) (L : IsLawful G) where
  pub dynamic_fee_transaction_round_trip :
      (i : Types.DynamicFeeTx) (t : ℕ)
      → (do
        m ← dynamic_fee_transaction_to_proto G (made G (dynamic_fee i) t)
        dynamic_fee_transaction_from_proto G (some m))
        ≡ ok (made G (dynamic_fee (canonical_dynamic_fee i)) 0)
  unfolding dynamic_fee_transaction_to_proto dynamic_fee_transaction_from_proto
  dynamic_fee_transaction_round_trip i t =
      let l = L.shows_dynamic_fee i t in
      simp (
        l.chain_id,
        l.nonce,
        l.gas_tip_cap,
        l.gas_fee_cap,
        l.gas,
        l.to,
        l.value,
        l.payload,
        l.accesses,
        l.signature,
        receiver-addr_to_bytes,
        int_of_bytes-bytes_of_int,
        access_list_from_proto-access_list_to_proto G L,
      )
