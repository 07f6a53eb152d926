-- ===== src/Store.antt =====
-- src/store: the stores of preflight data and of prover inputs, over the stores of go-utils. A path is
-- the bytes of its text.
pub mod ProverInputs
pub mod PreflightData
pub mod Paths
pub mod RoundTrip
pub mod Preflights
pub mod Tests
use zk_pig.Base.{
  ℕ, ℤ, nat_abs, ◌%◌, ◌^◌, Option, List, [], ◌∷◌, String, Bytes, decimal, Outcome, ok, err, panic,
}

pub data ContentType : Type 0 where
  content_type_json : ContentType
  content_type_protobuf : ContentType
  -- any other value
  content_type_other : ℕ → ContentType

-- `store.Store` of go-utils: its `Store` reads the bytes to its world, its `Load` gives a reader of
-- them.
pub record StoreLib : Type 1 where
  pub World : Type 0
  pub Reader : Type 0
  pub ContentEncoding : Type 0
  pub content_encoding_plain : ContentEncoding
  -- the zero value
  pub content_encoding_unset : ContentEncoding
  pub Headers : Type 0
  pub headers : ContentType → ContentEncoding → List (String × Bytes) → Headers
  pub store : World → Bytes → Bytes → Headers → Outcome (Unit {0}) × World
  pub load : World → Bytes → Headers → Outcome Reader
  pub content_type_string : ContentType → Outcome String
  -- `io.ReadAll`
  pub read_all : Reader → Outcome Bytes

-- `big.Int.Uint64`
abbrev pub uint64 : ℤ → ℕ
uint64 n = nat_abs n % 2 ^ 64

-- `map[string]string{"chainID": ...}`
abbrev pub chain_id_values : ℕ → List (String × Bytes)
chain_id_values chain_id = ("chainID", decimal chain_id) ∷ []

module _ (S : StoreLib) where
  -- The bytes, the path and the headers are stored, if there are any.
  abbrev pub store_parts :
      S.World → Outcome (Bytes × Bytes × S.Headers) → Outcome (Unit {0}) × S.World
  store_parts w (ok (bytes, path, headers)) = S.store w path bytes headers
  store_parts w (err e) = (err e, w)
  store_parts w panic = (panic, w)
