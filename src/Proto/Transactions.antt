-- ===== src/Proto/Transactions.antt =====
-- src/prover-input/proto/transaction.go: the four kinds of transactions.
pub mod Legacy
pub mod WithAccessList
pub mod DynamicFee
pub mod Blob
pub mod RoundTrip
use zk_pig.Base.{Option, none, some, Slice, Outcome, ok, ◌>>=◌, map_each}
use zk_pig.Geth.Types.{TxType, legacy_tx, access_list_tx, dynamic_fee_tx, blob_tx, other_tx}
use zk_pig.Geth.Interface.{Geth}
use zk_pig.Proto.Message
use zk_pig.Proto.Message.{
  TransactionType, unset, legacy_transaction, access_list_transaction, dynamic_fee_transaction,
  blob_transaction,
}
use Legacy.{legacy_transaction_to_proto, legacy_transaction_from_proto}
use WithAccessList.{access_list_transaction_to_proto, access_list_transaction_from_proto}
use DynamicFee.{dynamic_fee_transaction_to_proto, dynamic_fee_transaction_from_proto}
use Blob.{blob_transaction_to_proto, blob_transaction_from_proto}

abbrev message : TransactionType → Option Message.Transaction
message t = some (record { transaction_type = t })

-- `t.GetTransactionType()`
get_transaction_type : Option Message.Transaction → TransactionType
get_transaction_type none = unset
get_transaction_type (some t) = t.transaction_type

module _ (G : Geth) where
  -- The switch over the type of the transaction; another type gives a nil message.
  to_proto_as : G.Transaction → TxType → Outcome (Option Message.Transaction)
  to_proto_as tx legacy_tx =
      ok (message (legacy_transaction (legacy_transaction_to_proto G (some tx))))
  to_proto_as tx access_list_tx = do
    t ← access_list_transaction_to_proto G tx
    ok (message (access_list_transaction (some t)))
  to_proto_as tx blob_tx = do
    t ← blob_transaction_to_proto G tx
    ok (message (blob_transaction (some t)))
  to_proto_as tx dynamic_fee_tx = do
    t ← dynamic_fee_transaction_to_proto G tx
    ok (message (dynamic_fee_transaction (some t)))
  to_proto_as tx (other_tx n) = ok none

  unfoldable pub transaction_to_proto : Option G.Transaction → Outcome (Option Message.Transaction)
  unfolding to_proto_as
  transaction_to_proto none = ok none
  transaction_to_proto (some tx) = to_proto_as tx (G.tx_type tx)

  from_proto_of : TransactionType → Outcome (Option G.Transaction)
  from_proto_of unset = ok none
  from_proto_of (legacy_transaction t) = ok (some (legacy_transaction_from_proto G t))
  from_proto_of (access_list_transaction t) = do
    tx ← access_list_transaction_from_proto G t
    ok (some tx)
  from_proto_of (blob_transaction t) = do tx ← blob_transaction_from_proto G t; ok (some tx)
  from_proto_of (dynamic_fee_transaction t) = do
    tx ← dynamic_fee_transaction_from_proto G t
    ok (some tx)

  unfoldable pub transaction_from_proto :
      Option Message.Transaction → Outcome (Option G.Transaction)
  unfolding from_proto_of get_transaction_type
  transaction_from_proto t = from_proto_of (get_transaction_type t)

  unfoldable pub transactions_to_proto :
      Slice (Option G.Transaction) → Outcome (Slice (Option Message.Transaction))
  transactions_to_proto none = ok none
  transactions_to_proto (some txs) = do result ← map_each transaction_to_proto txs; ok (some result)

  unfoldable pub transactions_from_proto :
      Slice (Option Message.Transaction) → Outcome (Slice (Option G.Transaction))
  transactions_from_proto none = ok none
  transactions_from_proto (some ts) = do
    result ← map_each transaction_from_proto ts
    ok (some result)
