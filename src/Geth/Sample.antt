-- ===== src/Geth/Sample.antt =====
-- A value of the interface that keeps the laws: transactions are a payload with a time, `uint256`
-- numbers are plain numbers, and setting an array crops from the left or pads with zeros.
use mathlib.Core.Option
use zk_pig.Base.{
  ℕ, ℤ, pos, Option, none, some, Slice, items, ◌++◌, ◌-◌, ◌≡◌, refl, Array, Array-ext, Bytes,
  be_nat, be_nat-be_bytes, length, drop, replicate, length-drop, length-replicate, length-append,
  arith,
}
use zk_pig.Geth.Types.{
  TxData, TxType, legacy, access_list, dynamic_fee, blob, legacy_tx, access_list_tx, dynamic_fee_tx,
  blob_tx, Address, AccessList, BlobTxSidecar, Hash,
}
use zk_pig.Geth.Interface.{Geth}
use zk_pig.Geth.Lawful.{IsLawful, trimmed_sidecar}

abbrev pub crop : (n : ℕ) → Bytes → Bytes
crop n bs = replicate (n - length bs) 0 ++ drop (length bs - n) bs

pub length-crop : (n : ℕ) (bs : Bytes) → length (crop n bs) ≡ n
length-crop n bs = omega (
  arith,
  length-append {A = ℕ} (replicate (n - length bs) 0) (drop (length bs - n) bs),
  length-replicate {A = ℕ} (n - length bs) 0,
  length-drop (length bs - n) bs,
)

pub set_bytes : (n : ℕ) → Slice ℕ → Array n
set_bytes n s = record { bytes = crop n (items s); sized = length-crop n (items s) }

set_bytes-bytes : {n : ℕ} (a : Array n) → set_bytes n (some a.bytes) ≡ a
unfolding set_bytes
set_bytes-bytes {n} a =
    let fits : n - length a.bytes ≡ 0 = omega (arith, a.sized) in
    let long : length a.bytes - n ≡ 0 = omega (arith, a.sized) in Array-ext _ a (rw (fits, long))

abbrev pub Tx : Type 0
Tx = TxData ℕ × ℕ

abbrev pub by_payload {ℓ} : {A : Type ℓ} → (TxData ℕ → A) → Tx → A
by_payload f tx = f tx.0

abbrev pub big : ℕ → Option ℤ
big n = some (pos n)

pub kind_of : TxData ℕ → TxType
kind_of (legacy i) = legacy_tx
kind_of (access_list i) = access_list_tx
kind_of (dynamic_fee i) = dynamic_fee_tx
kind_of (blob i) = blob_tx

pub chain_id_of : TxData ℕ → Option ℤ
chain_id_of (legacy i) = none
chain_id_of (access_list i) = some i.chain_id
chain_id_of (dynamic_fee i) = some i.chain_id
chain_id_of (blob i) = big i.chain_id

pub nonce_of : TxData ℕ → ℕ
nonce_of (legacy i) = i.nonce
nonce_of (access_list i) = i.nonce
nonce_of (dynamic_fee i) = i.nonce
nonce_of (blob i) = i.nonce

pub gas_price_of : TxData ℕ → Option ℤ
gas_price_of (legacy i) = some i.gas_price
gas_price_of (access_list i) = some i.gas_price
gas_price_of (dynamic_fee i) = some i.gas_fee_cap
gas_price_of (blob i) = big i.gas_fee_cap

pub gas_tip_cap_of : TxData ℕ → Option ℤ
gas_tip_cap_of (legacy i) = some i.gas_price
gas_tip_cap_of (access_list i) = some i.gas_price
gas_tip_cap_of (dynamic_fee i) = some i.gas_tip_cap
gas_tip_cap_of (blob i) = big i.gas_tip_cap

pub gas_of : TxData ℕ → ℕ
gas_of (legacy i) = i.gas
gas_of (access_list i) = i.gas
gas_of (dynamic_fee i) = i.gas
gas_of (blob i) = i.gas

pub to_of : TxData ℕ → Option Address
to_of (legacy i) = i.to
to_of (access_list i) = i.to
to_of (dynamic_fee i) = i.to
to_of (blob i) = some i.to

pub value_of : TxData ℕ → Option ℤ
value_of (legacy i) = some i.value
value_of (access_list i) = some i.value
value_of (dynamic_fee i) = some i.value
value_of (blob i) = big i.value

pub payload_of : TxData ℕ → Slice ℕ
payload_of (legacy i) = i.payload
payload_of (access_list i) = i.payload
payload_of (dynamic_fee i) = i.payload
payload_of (blob i) = i.payload

pub access_list_of : TxData ℕ → AccessList
access_list_of (legacy i) = none
access_list_of (access_list i) = i.access_list
access_list_of (dynamic_fee i) = i.access_list
access_list_of (blob i) = i.access_list

pub blob_fee_cap_of : TxData ℕ → Option ℤ
blob_fee_cap_of (blob i) = big i.blob_fee_cap
blob_fee_cap_of i = none

pub blob_hashes_of : TxData ℕ → Slice Hash
blob_hashes_of (blob i) = i.blob_hashes
blob_hashes_of i = none

pub sidecar_of : TxData ℕ → Option BlobTxSidecar
sidecar_of (blob i) = i.sidecar
sidecar_of i = none

pub signature_of : TxData ℕ → Option ℤ × Option ℤ × Option ℤ
signature_of (legacy i) = (some i.v, some i.r, some i.s)
signature_of (access_list i) = (some i.v, some i.r, some i.s)
signature_of (dynamic_fee i) = (some i.v, some i.r, some i.s)
signature_of (blob i) = (big i.v, big i.r, big i.s)

-- The copy that `NewTx` makes of a payload.
abbrev pub copied : TxData ℕ → TxData ℕ
copied (legacy i) = legacy i
copied (access_list i) = access_list (record i { access_list = some (items i.access_list) })
copied (dynamic_fee i) = dynamic_fee (record i { access_list = some (items i.access_list) })
copied (blob i) = blob (record i {
  access_list = some (items i.access_list);
  blob_hashes = some (items i.blob_hashes);
  sidecar = Option.map trimmed_sidecar i.sidecar;
})

abbrev pub sample : Geth
sample = record {
  bytes_to_hash = set_bytes 32;
  bytes_to_address = set_bytes 20;
  address_set_bytes = set_bytes 20;
  nonce_uint64 = λ n. n;
  encode_nonce = λ n. n;
  U256 = ℕ;
  u256_set_bytes = be_nat;
  u256_nat = λ u. u;
  Transaction = Tx;
  new_tx = λ i. (copied i, 0);
  set_time = λ tx t. (tx.0, t);
  tx_type = by_payload kind_of;
  chain_id = by_payload chain_id_of;
  nonce = by_payload nonce_of;
  gas_price = by_payload gas_price_of;
  gas_tip_cap = by_payload gas_tip_cap_of;
  gas_fee_cap = by_payload gas_price_of;
  gas = by_payload gas_of;
  to = by_payload to_of;
  value = by_payload value_of;
  payload = by_payload payload_of;
  access_list = by_payload access_list_of;
  blob_gas_fee_cap = by_payload blob_fee_cap_of;
  blob_hashes = by_payload blob_hashes_of;
  blob_tx_sidecar = by_payload sidecar_of;
  raw_signature_values = by_payload signature_of;
}

pub sample-IsLawful : IsLawful sample
unfolding set_bytes kind_of chain_id_of nonce_of gas_price_of gas_tip_cap_of gas_of to_of value_of
    payload_of access_list_of blob_fee_cap_of blob_hashes_of sidecar_of signature_of
sample-IsLawful = record {
  to_hash = set_bytes-bytes;
  to_address = set_bytes-bytes;
  set_address = set_bytes-bytes;
  to_nonce = λ n. refl;
  to_u256 = be_nat-be_bytes;
  shows_legacy = λ i t. record {
    kind = refl;
    nonce = refl;
    gas_price = refl;
    gas = refl;
    to = refl;
    value = refl;
    payload = refl;
    signature = refl;
  };
  shows_access_list = λ i t. record {
    kind = refl;
    chain_id = refl;
    nonce = refl;
    gas_price = refl;
    gas = refl;
    to = refl;
    value = refl;
    payload = refl;
    accesses = refl;
    signature = refl;
  };
  shows_dynamic_fee = λ i t. record {
    kind = refl;
    chain_id = refl;
    nonce = refl;
    gas_tip_cap = refl;
    gas_fee_cap = refl;
    gas = refl;
    to = refl;
    value = refl;
    payload = refl;
    accesses = refl;
    signature = refl;
  };
  shows_blob = λ i t. record {
    kind = refl;
    chain_id = refl;
    nonce = refl;
    gas_tip_cap = refl;
    gas_fee_cap = refl;
    gas = refl;
    to = refl;
    value = refl;
    payload = refl;
    accesses = refl;
    blob_fee_cap = refl;
    blob_hashes = refl;
    sidecar = refl;
    signature = refl;
  };
}
