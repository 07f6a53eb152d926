-- ===== src/Proto/Malformed.antt =====
-- What the conversions from messages do with byte strings of a wrong length.
use mathlib.Core.Logic.{dif_pos, dif_neg}
use native.Mathlib.Bridge.{le_prop}
use native.Mathlib.Decide.{dec_le}
use zk_pig.Base.{
  ℕ, ◌<◌, none, some, Slice, items, Bytes, length, take, length-take_le, Outcome, ok, err, panic,
  ◌>>=◌, to_array, ◌≡◌, ◌≢◌, ◌↔◌, Bool, true, false, refl, sym, ◌∙◌, arith,
}
use zk_pig.Geth.Interface.{Geth}
use zk_pig.Proto.Message
use zk_pig.Proto.Message.{
  TransactionType, unset, legacy_transaction, access_list_transaction, dynamic_fee_transaction,
  blob_transaction,
}
use zk_pig.Proto.Transactions.{transaction_from_proto}
use zk_pig.Proto.Helpers.{receiver}
use zk_pig.Proto.Headers.{header_from_proto}
use zk_pig.Proto.Transactions.WithAccessList.{access_list_transaction_from_proto}
use zk_pig.Proto.Transactions.DynamicFee.{dynamic_fee_transaction_from_proto}

to_array-panic_iff : (n : ℕ) (b : Bytes) → (to_array n b ≡ panic) ↔ (length b < n)
unfolding to_array
to_array-panic_iff n b = elim (dec_le n (length b)) [
  | yes h ↦ (
    λ e. absurd (
        cc (
          sym (
            dif_pos (dec_le n (length b)) le_prop h
              (λ h. ok (record { bytes = take n b; sized = length-take_le n b h })) (λ _. panic))
          ∙ e)),
    λ lt. absurd (omega arith),
  )
  | no h ↦ (λ e. omega arith, λ lt. dif_neg (dec_le n (length b)) h _ _)
]

bind-panic_iff {ℓ κ} :
    {A : Type ℓ} {B : Type κ} (o : Outcome A) (f : A → B)
    → ((do x ← o; ok (f x)) ≡ panic) ↔ (o ≡ panic)
bind-panic_iff (ok a) f = (λ e. cc, λ e. cc)
bind-panic_iff (err x) f = (λ e. cc, λ e. cc)
bind-panic_iff panic f = (λ e. refl, λ e. refl)

-- A receiver is given, and it is too short for an address.
abbrev pub ShortReceiver : Slice ℕ → Type 0
ShortReceiver none = ⊥
ShortReceiver (some b) = length b < 20

receiver-panic_iff : (s : Slice ℕ) → (receiver s ≡ panic) ↔ ShortReceiver s
unfolding receiver
receiver-panic_iff none = (λ e. cc, λ h. absurd h)
receiver-panic_iff (some b) =
    let step = bind-panic_iff (to_array 20 b) some in
    let short = to_array-panic_iff 20 b in (λ e. short.0 (step.0 e), λ h. step.1 (short.1 h))

module _ (G : Geth) where
  -- The conversion of a header message panics exactly if its bloom filter has fewer than 256 bytes.
  -- Other byte strings of a wrong length are cropped or padded.
  pub header_from_proto-panic_iff :
      (h : Message.Header)
      → (header_from_proto G (some h) ≡ panic) ↔ (length (items h.logs_bloom) < 256)
  unfolding header_from_proto
  header_from_proto-panic_iff h =
      let step = bind-panic_iff (to_array 256 (items h.logs_bloom)) _ in
      let short = to_array-panic_iff 256 (items h.logs_bloom) in
      (λ e. short.0 (step.0 e), λ lt. step.1 (short.1 lt))

  -- What a transaction message panics on: a receiver that is too short, in an access list or dynamic
  -- fee transaction.
  abbrev pub ShortIn : TransactionType → Type 0
  ShortIn unset = ⊥
  ShortIn (legacy_transaction t) = ⊥
  ShortIn (access_list_transaction none) = ⊥
  ShortIn (access_list_transaction (some a)) = ShortReceiver a.to
  ShortIn (dynamic_fee_transaction none) = ⊥
  ShortIn (dynamic_fee_transaction (some d)) = ShortReceiver d.to
  ShortIn (blob_transaction b) = ⊥

  abbrev pub is_blob : TransactionType → Bool
  is_blob (blob_transaction b) = true
  is_blob t = false

  access_list-panic_iff :
      (a : Message.AccessListTransaction)
      → (access_list_transaction_from_proto G (some a) ≡ panic) ↔ ShortReceiver a.to
  unfolding access_list_transaction_from_proto
  access_list-panic_iff a =
      let step = bind-panic_iff (receiver a.to) _ in
      let short = receiver-panic_iff a.to in (λ e. short.0 (step.0 e), λ h. step.1 (short.1 h))

  dynamic_fee-panic_iff :
      (d : Message.DynamicFeeTransaction)
      → (dynamic_fee_transaction_from_proto G (some d) ≡ panic) ↔ ShortReceiver d.to
  unfolding dynamic_fee_transaction_from_proto
  dynamic_fee-panic_iff d =
      let step = bind-panic_iff (receiver d.to) _ in
      let short = receiver-panic_iff d.to in (λ e. short.0 (step.0 e), λ h. step.1 (short.1 h))

  -- The conversion of a transaction message that is not of a blob transaction panics exactly if it is
  -- an access list or dynamic fee transaction with a receiver of fewer than 20 bytes. A nil message, one
  -- without a type, and a legacy transaction never panic.
  pub transaction_from_proto-panic_iff :
      (t : TransactionType)
      → is_blob t ≡ false
      → (transaction_from_proto G none ≢ panic)
        × ((transaction_from_proto G (some (record { transaction_type = t })) ≡ panic) ↔ ShortIn t)
  unfolding transaction_from_proto access_list_transaction_from_proto receiver
      dynamic_fee_transaction_from_proto
  transaction_from_proto-panic_iff unset h = (λ e. cc, (λ e. cc, λ s. absurd s))
  transaction_from_proto-panic_iff (legacy_transaction t) h = (λ e. cc, (λ e. cc, λ s. absurd s))
  transaction_from_proto-panic_iff (access_list_transaction none) h =
      (λ e. cc, (λ e. cc, λ s. absurd s))
  transaction_from_proto-panic_iff (access_list_transaction (some a)) h =
      let made = bind-panic_iff (access_list_transaction_from_proto G (some a)) some in
      let short = access_list-panic_iff a in
      (λ e. cc, (λ e. short.0 (made.0 e), λ s. made.1 (short.1 s)))
  transaction_from_proto-panic_iff (dynamic_fee_transaction none) h =
      (λ e. cc, (λ e. cc, λ s. absurd s))
  transaction_from_proto-panic_iff (dynamic_fee_transaction (some d)) h =
      let made = bind-panic_iff (dynamic_fee_transaction_from_proto G (some d)) some in
      let short = dynamic_fee-panic_iff d in
      (λ e. cc, (λ e. short.0 (made.0 e), λ s. made.1 (short.1 s)))
  transaction_from_proto-panic_iff (blob_transaction b) h = cc
