-- ===== src/Proto/Transactions/Legacy.antt =====
-- src/prover-input/proto/transaction.go: legacy transactions.
use zk_pig.Base.{ℕ, magnitude, Option, none, some, Slice, ◌≡◌, refl, ap}
use zk_pig.Geth.Types
use zk_pig.Geth.Types.{Address, legacy}
use zk_pig.Geth.Interface.{Geth}
use zk_pig.Geth.Lawful.{IsLawful, made}
use zk_pig.Proto.Message
use zk_pig.Proto.Helpers.{
  get_slice, get_uint64, big_int_to_bytes, int_of_bytes, addr_to_bytes, int_of_bytes-bytes_of_int,
}

module _ (G : Geth) where
  unfoldable pub legacy_transaction_to_proto :
      Option G.Transaction → Option Message.LegacyTransaction
  legacy_transaction_to_proto none = none
  legacy_transaction_to_proto (some tx) =
      let (v, r, s) = G.raw_signature_values tx in
      some (record {
        nonce = G.nonce tx;
        gas_price = big_int_to_bytes (G.gas_price tx);
        gas = G.gas tx;
        to = addr_to_bytes (G.to tx);
        value = big_int_to_bytes (G.value tx);
        payload = G.payload tx;
        v = big_int_to_bytes v;
        r = big_int_to_bytes r;
        s = big_int_to_bytes s;
      })

  -- The receiver of a legacy transaction is cropped or padded to the size of an address.
  legacy_receiver : Slice ℕ → Option Address
  legacy_receiver none = none
  legacy_receiver (some b) = some (G.address_set_bytes (some b))

  unfoldable pub legacy_transaction_from_proto : Option Message.LegacyTransaction → G.Transaction
  unfolding legacy_receiver
  legacy_transaction_from_proto t =
      made G
        (legacy (record {
          nonce = get_uint64 t (λ m. m.nonce);
          gas_price = int_of_bytes (get_slice t (λ m. m.gas_price));
          gas = get_uint64 t (λ m. m.gas);
          to = legacy_receiver (get_slice t (λ m. m.to));
          value = int_of_bytes (get_slice t (λ m. m.value));
          payload = get_slice t (λ m. m.payload);
          v = int_of_bytes (get_slice t (λ m. m.v));
          r = int_of_bytes (get_slice t (λ m. m.r));
          s = int_of_bytes (get_slice t (λ m. m.s));
        }))
        0

abbrev pub unsigned_legacy : Types.LegacyTx → Types.LegacyTx
unsigned_legacy i = record i {
  gas_price = magnitude i.gas_price;
  value = magnitude i.value;
  v = magnitude i.v;
  r = magnitude i.r;
  s = magnitude i.s;
}

module _ (G : Geth) (L : IsLawful G) where
  legacy_receiver-addr_to_bytes : (to : Option Address) → legacy_receiver G (addr_to_bytes to) ≡ to
  unfolding legacy_receiver addr_to_bytes
  legacy_receiver-addr_to_bytes none = refl
  legacy_receiver-addr_to_bytes (some a) = ap some (L.set_address a)

  pub legacy_transaction_from_proto-legacy_transaction_to_proto :
      (i : Types.LegacyTx) (t : ℕ)
      → legacy_transaction_from_proto G (legacy_transaction_to_proto G (some (made G (legacy i) t)))
        ≡ made G (legacy (unsigned_legacy i)) 0
  unfolding legacy_transaction_from_proto legacy_transaction_to_proto big_int_to_bytes
  legacy_transaction_from_proto-legacy_transaction_to_proto i t =
      let l = L.shows_legacy i t in
      simp (
        l.nonce, l.gas_price, l.gas, l.to, l.value, l.payload, l.signature,
        legacy_receiver-addr_to_bytes, int_of_bytes-bytes_of_int,
      )
