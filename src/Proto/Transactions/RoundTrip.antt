-- ===== src/Proto/Transactions/RoundTrip.antt =====
-- Transactions of every kind survive the conversion to messages and back.
use mathlib.Core.Option
use zk_pig.Base.{
  ℕ, Option, none, some, Slice, map, ok, ◌>>=◌, map_each, map_each-map_comp, map_each_round_trip,
  packed_round_trip, ◌≡◌, refl, ap,
}
use zk_pig.Geth.Types.{TxData, legacy, access_list, dynamic_fee, blob}
use zk_pig.Geth.Interface.{Geth}
use zk_pig.Geth.Lawful.{IsLawful, made}
use zk_pig.Proto.Message.{access_list_transaction, dynamic_fee_transaction, blob_transaction}
use zk_pig.Proto.Transactions.{
  message, transaction_to_proto, transaction_from_proto, transactions_to_proto,
  transactions_from_proto,
}
use zk_pig.Proto.Transactions.Legacy.{
  unsigned_legacy, legacy_transaction_from_proto-legacy_transaction_to_proto,
}
use zk_pig.Proto.Transactions.WithAccessList.{
  canonical_access_list, access_list_transaction_round_trip, access_list_transaction_to_proto,
  access_list_transaction_from_proto,
}
use zk_pig.Proto.Transactions.DynamicFee.{
  canonical_dynamic_fee, dynamic_fee_transaction_round_trip, dynamic_fee_transaction_to_proto,
  dynamic_fee_transaction_from_proto,
}
use zk_pig.Proto.Transactions.Blob.{
  canonical_blob, blob_transaction_round_trip, blob_transaction_to_proto,
  blob_transaction_from_proto,
}

-- What the conversions keep of a payload: all but the signs of big integers, and the difference
-- between nil and empty slices in access lists, blob hashes and sidecars, which `NewTx` drops.
abbrev pub canonical : {U : Type 0} → TxData U → TxData U
canonical (legacy i) = legacy (unsigned_legacy i)
canonical (access_list i) = access_list (canonical_access_list i)
canonical (dynamic_fee i) = dynamic_fee (canonical_dynamic_fee i)
canonical (blob i) = blob (canonical_blob i)

module _ (G : Geth) where
  -- A slice of transactions, each made from a payload at a time, or nil.
  abbrev pub made_each : Slice (Option (TxData G.U256 × ℕ)) → Slice (Option G.Transaction)
  made_each = Option.map (map (Option.map (λ p. made G p.0 p.1)))

  abbrev pub canonical_each : Slice (Option (TxData G.U256 × ℕ)) → Slice (Option G.Transaction)
  canonical_each = Option.map (map (Option.map (λ p. made G (canonical p.0) 0)))

module _ (G : Geth) (L : IsLawful G) where
  -- A transaction made from any payload at any time is converted without a panic, and comes back as
  -- the transaction made at time 0 from the payload in canonical form.
  pub transaction_round_trip :
      (i : TxData G.U256) (t : ℕ)
      → (do m ← transaction_to_proto G (some (made G i t)); transaction_from_proto G m)
        ≡ ok (some (made G (canonical i) 0))
  unfolding transaction_to_proto transaction_from_proto
  transaction_round_trip (legacy i) t = rw ((L.shows_legacy i t).kind) (
      ap (λ (x : G.Transaction). ok (some x))
        (legacy_transaction_from_proto-legacy_transaction_to_proto G L i t))
  transaction_round_trip (access_list i) t = rw ((L.shows_access_list i t).kind) (
      packed_round_trip (λ m. message (access_list_transaction (some m)))
        (λ m. access_list_transaction_from_proto G (some m)) (transaction_from_proto G) some
        (access_list_transaction_to_proto G (made G (access_list i) t)) (λ m. refl)
        (access_list_transaction_round_trip G L i t))
  transaction_round_trip (dynamic_fee i) t = rw ((L.shows_dynamic_fee i t).kind) (
      packed_round_trip (λ m. message (dynamic_fee_transaction (some m)))
        (λ m. dynamic_fee_transaction_from_proto G (some m)) (transaction_from_proto G) some
        (dynamic_fee_transaction_to_proto G (made G (dynamic_fee i) t)) (λ m. refl)
        (dynamic_fee_transaction_round_trip G L i t))
  transaction_round_trip (blob i) t = rw ((L.shows_blob i t).kind) (
      packed_round_trip (λ m. message (blob_transaction (some m)))
        (λ m. blob_transaction_from_proto G (some m)) (transaction_from_proto G) some
        (blob_transaction_to_proto G (made G (blob i) t)) (λ m. refl)
        (blob_transaction_round_trip G L i t))

  one_round_trip :
      (p : Option (TxData G.U256 × ℕ))
      → (transaction_to_proto G (Option.map (λ p'. made G p'.0 p'.1) p)
          >>= transaction_from_proto G)
        ≡ ok (Option.map (λ p'. made G (canonical p'.0) 0) p)
  one_round_trip none = unfold transaction_to_proto transaction_from_proto in refl
  one_round_trip (some (i, t)) = transaction_round_trip i t

  pub transactions_round_trip :
      (ps : Slice (Option (TxData G.U256 × ℕ)))
      → (transactions_to_proto G (made_each G ps) >>= transactions_from_proto G)
        ≡ ok (canonical_each G ps)
  unfolding transactions_to_proto transactions_from_proto
  transactions_round_trip none = refl
  transactions_round_trip (some ps) =
      packed_round_trip some (map_each (transaction_from_proto G)) (transactions_from_proto G) some
        (map_each (transaction_to_proto G) (map (Option.map (λ p. made G p.0 p.1)) ps)) (λ ms. refl)
        (rw map_each-map_comp
          (map_each_round_trip _ (transaction_from_proto G) _ one_round_trip ps))
