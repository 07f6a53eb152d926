-- ===== src/Store/ProverInputs.antt =====
-- src/store/input_store.go, over the encoders of JSON and of protobuf messages.
use zk_pig.Base.{
  ℕ, Option, some, items, Bytes, decimal, get_elem?, Outcome, ok, err, error, ◌>>=◌, context, deref,
}
use zk_pig.Geth.Interface.{Geth}
use zk_pig.Geth.Types.{ChainConfig}
use zk_pig.Input.{ProverInput}
use zk_pig.Proto.Message as Message
use zk_pig.Proto.Inputs.{to_proto, from_proto}
use zk_pig.Store.{
  ContentType, content_type_json, content_type_protobuf, content_type_other, StoreLib, uint64,
  chain_id_values, store_parts,
}

-- `proto.Marshal`, `proto.Unmarshal` and `encoding/json`
pub record InputCodec (G : Geth) (S : StoreLib) : Type 0 where
  pub marshal : Option Message.ProverInput → Outcome Bytes
  pub unmarshal : Bytes → Outcome Message.ProverInput
  pub encode : Option (ProverInput G.Transaction) → Outcome Bytes
  pub decode : S.Reader → Outcome (ProverInput G.Transaction)

abbrev pub prover_path : ℕ → Bytes
prover_path block_number = decimal block_number

module _ (G : Geth) (S : StoreLib) (C : InputCodec G S) where
  -- An error whether or not the content type has a name.
  unfoldable pub unsupported : {A : Type 0} → ContentType → Outcome A
  unsupported content_type = do
    _ ← context "failed to get content type" (S.content_type_string content_type)
    err (error "unsupported content type")

  unfoldable pub encode_input : ContentType → Option (ProverInput G.Transaction) → Outcome Bytes
  unfolding unsupported
  encode_input content_type_protobuf inputs = do
    msg ← to_proto G inputs
    context "failed to marshal protobuf" (C.marshal msg)
  encode_input content_type_json inputs = context "failed to encode JSON" (C.encode inputs)
  encode_input (content_type_other n) inputs = unsupported (content_type_other n)

  -- `data.Blocks[0].Header.Number.Uint64()`
  unfoldable pub first_number : ProverInput G.Transaction → Outcome ℕ
  first_number inputs = do
    first ← deref (get_elem? (items inputs.blocks) 0)
    block ← deref first
    header ← deref block.header
    number ← deref header.number
    ok (uint64 number)

  -- `ChainConfig.ChainID.Uint64()`
  unfoldable pub chain_id_of : Option ChainConfig → Outcome ℕ
  chain_id_of config = do cfg ← deref config; chain_id ← deref cfg.chain_id; ok (uint64 chain_id)

  abbrev pub input_headers : ContentType → ℕ → S.Headers
  input_headers content_type chain_id =
      S.headers content_type S.content_encoding_unset (chain_id_values chain_id)

  -- The bytes, the path and the headers that are stored.
  unfoldable pub input_parts :
      ContentType → Option (ProverInput G.Transaction) → Outcome (Bytes × Bytes × S.Headers)
  unfolding encode_input first_number chain_id_of
  input_parts content_type inputs = do
    bytes ← encode_input content_type inputs
    pi ← deref inputs
    number ← first_number pi
    chain_id ← chain_id_of pi.chain_config
    ok (bytes, prover_path number, input_headers content_type chain_id)

  unfoldable pub store_prover_input :
      ContentType → S.World → Option (ProverInput G.Transaction) → Outcome (Unit {0}) × S.World
  unfolding input_parts
  store_prover_input content_type w inputs = store_parts S w (input_parts content_type inputs)

  unfoldable pub decode_input :
      ContentType → S.Reader → Outcome (Option (ProverInput G.Transaction))
  unfolding unsupported
  decode_input content_type_json reader = do
    inputs ← context "failed to decode JSON" (C.decode reader)
    ok (some inputs)
  decode_input content_type_protobuf reader = do
    bytes ← context "failed to read protobuf data" (S.read_all reader)
    msg ← context "failed to unmarshal protobuf" (C.unmarshal bytes)
    from_proto G (some msg)
  decode_input (content_type_other n) reader = unsupported (content_type_other n)

  unfoldable pub load_prover_input :
      ContentType → S.World → ℕ → ℕ → Outcome (Option (ProverInput G.Transaction))
  unfolding decode_input
  load_prover_input content_type w chain_id block_number = do
    reader ←
        context "failed to load data from store"
          (S.load w (prover_path block_number) (input_headers content_type chain_id))
    decode_input content_type reader
