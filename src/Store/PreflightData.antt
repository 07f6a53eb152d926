-- ===== src/Store/PreflightData.antt =====
-- src/store/preflight_data_store.go, over the preflight data `P`, of which it reads the number of the
-- block and the chain configuration.
use zk_pig.Base.{ℕ, ℤ, Option, [], ◌∷◌, ◌++◌, Bytes, decimal, Outcome, ok, ◌>>=◌, context, deref}
use zk_pig.Geth.Types.{ChainConfig}
use zk_pig.Store.{content_type_json, StoreLib, uint64, chain_id_values, store_parts}

-- The fields that the store reads, and `encoding/json`.
pub record PreflightCodec (P : Type 0) (S : StoreLib) : Type 0 where
  pub number : P → Option ℤ
  pub chain_config : P → Option ChainConfig
  pub encode : P → Outcome Bytes
  pub decode : S.Reader → Outcome P

-- ".json"
abbrev pub json_ending : Bytes
json_ending = 46 ∷ 106 ∷ 115 ∷ 111 ∷ 110 ∷ []

abbrev pub preflight_path : ℕ → Bytes
preflight_path block_number = decimal block_number ++ json_ending

-- `NewPreflightDataStore` dereferences the file configuration.
unfoldable pub new_preflight_data_store :
    {Config Store : Type 0} → (Config → Store) → Option Config → Outcome Store
new_preflight_data_store new_file_store config = do cfg ← deref config; ok (new_file_store cfg)

module _ {P : Type 0} (S : StoreLib) (C : PreflightCodec P S) where
  abbrev pub preflight_headers : ℕ → S.Headers
  preflight_headers chain_id =
      S.headers content_type_json S.content_encoding_plain (chain_id_values chain_id)

  unfoldable pub preflight_parts : P → Outcome (Bytes × Bytes × S.Headers)
  preflight_parts inputs = do
    number ← deref (C.number inputs)
    bytes ← context "failed to encode JSON" (C.encode inputs)
    cfg ← deref (C.chain_config inputs)
    chain_id ← deref cfg.chain_id
    ok (bytes, preflight_path (uint64 number), preflight_headers (uint64 chain_id))

  unfoldable pub store_preflight_data : S.World → P → Outcome (Unit {0}) × S.World
  unfolding preflight_parts
  store_preflight_data w inputs = store_parts S w (preflight_parts inputs)

  unfoldable pub load_preflight_data : S.World → ℕ → ℕ → Outcome P
  load_preflight_data w chain_id block_number = do
    reader ← S.load w (preflight_path block_number) (preflight_headers chain_id)
    C.decode reader
