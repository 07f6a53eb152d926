-- ===== src/Store/Tests.antt =====
-- A store that keeps its files in a function, and what is loaded from it.
use zk_pig.Base.{
  replicate, items, ok_inj, ℕ, ℤ, pos, Option, none, some, [], ◌∷◌, Bytes, bytes_eq, bytes_eq_refl,
  bytes_eq_sound, Bool-cases, inl, inr, Outcome, ok, err, error, if◌then◌else◌, AllDigits, length,
  nat_abs, ◌≡◌, ◌≢◌, ◌↔◌, ◌≤◌, ◌%◌, ◌^◌, refl, sym, ap, ◌∙◌, arith,
}
use zk_pig.Geth.Sample as Codec
use zk_pig.Input.{ProverInput}
use zk_pig.Proto.Message as Message
use zk_pig.Proto.Tests.{header, config}
use zk_pig.Proto.Headers.{header_to_proto, headers_to_proto, withdrawals_to_proto}
use zk_pig.Proto.ChainConfigs.{chain_config_to_proto}
use zk_pig.Proto.Inputs.RoundTrip.{Made, made_input}
use zk_pig.Store.{StoreLib, content_type_json, uint64}
use zk_pig.Store.ProverInputs.{
  InputCodec, prover_path, encode_input, first_number, chain_id_of, input_parts, store_prover_input,
  load_prover_input,
}
use zk_pig.Store.PreflightData.{
  PreflightCodec, preflight_path, preflight_parts, store_preflight_data, load_preflight_data,
}
use zk_pig.Store.Paths.{paths_bounds}
use zk_pig.Store.RoundTrip.{
  IsLawful, Decodes, as_stored, load_prover_input-store_prover_input, load_prover_input-store_other,
}
use zk_pig.Store.Preflights.{DecodesData, HasNumbers, load_preflight_data-store_preflight_data}

abbrev pub Files : Type 0
Files = Bytes → Option Bytes

abbrev pub found : Option Bytes → Outcome Bytes
found none = err (error "not found")
found (some bytes) = ok bytes

abbrev pub files : StoreLib
files = record {
  World = Files;
  Reader = Bytes;
  ContentEncoding = Unit {0};
  content_encoding_plain = tt;
  content_encoding_unset = tt;
  Headers = Unit {0};
  headers = λ t e kv. tt;
  store = λ w path bytes h. (ok tt, λ p. if bytes_eq path p then some bytes else w p);
  load = λ w path h. found (w path);
  content_type_string = λ t. ok "other";
  read_all = λ r. ok r;
}

abbrev pub no_files : Files
no_files = λ path. none

files-IsLawful : IsLawful files
files-IsLawful = record {
  load-store = λ w path bytes h {w'} e.
      let same : (λ p. if bytes_eq path p then some bytes else w p) ≡ w' =
        ap (λ (x : Outcome (Unit {0}) × Files). x.1) e in
      (bytes, ap (λ (f : Files). found (f path)) (sym same) ∙ rw (bytes_eq_refl path) refl, refl);
  load-store_other = λ w path bytes h {w'} path' h' e other.
      let same : (λ p. if bytes_eq path p then some bytes else w p) ≡ w' =
        ap (λ (x : Outcome (Unit {0}) × Files). x.1) e in
      ap (λ (f : Files). found (f path')) (sym same) ∙ elim (Bool-cases (bytes_eq path path')) [
        | inl equal ↦ absurd (other (bytes_eq_sound path path' equal))
        | inr unequal ↦ rw unequal refl
      ];
}

abbrev input : ProverInput (Made Codec.sample)
input = record {
  version = "";
  blocks = some (
      some (record { header = some header; transactions = none; uncles = none; withdrawals = none })
      ∷ []);
  witness = none;
  chain_config = some config;
}

abbrev message : Message.ProverInput
message = record {
  version = "";
  blocks = some (
      some (record {
        header = header_to_proto Codec.sample (some header);
        transactions = none;
        uncles = headers_to_proto Codec.sample none;
        withdrawals = withdrawals_to_proto Codec.sample none;
      })
      ∷ []);
  witness = none;
  chain_config = chain_config_to_proto (some config);
}

-- The text of an input has the number of its blocks alone, and as many nil blocks are decoded.
abbrev input_of : Bytes → Outcome (ProverInput Codec.Tx)
input_of [] = err (error "unexpected end")
input_of (n ∷ rest) =
    ok (record (made_input Codec.sample input) { blocks = some (replicate n none) })

abbrev text_of : Option (ProverInput Codec.Tx) → Bytes
text_of none = []
text_of (some pi) = length (items pi.blocks) ∷ []

abbrev codec : InputCodec Codec.sample files
codec = record {
  marshal = λ m. ok [];
  unmarshal = λ bytes. ok message;
  encode = λ pi. ok (text_of pi);
  decode = input_of;
}

codec-Decodes : Decodes codec
codec-Decodes = record {
  wire = λ m. message;
  unmarshal-marshal = λ m h. refl;
  view = λ pi. input_of (text_of (some pi));
  decode-encode = λ pi r h h'. ap input_of (ok_inj (h' ∙ sym h));
}

paths_bounds_example :
    AllDigits (prover_path (uint64 (pos 21372637)))
    × (length (prover_path (uint64 (pos 21372637))) ≤ 20)
    × (length (preflight_path (uint64 (pos 21372637))) ≤ 25)
    × ((prover_path (uint64 (pos 21372637)) ≡ prover_path (uint64 (pos 9)))
        ↔ (nat_abs (pos 21372637) % 2 ^ 64 ≡ nat_abs (pos 9) % 2 ^ 64))
    × ((preflight_path (uint64 (pos 21372637)) ≡ preflight_path (uint64 (pos 9)))
        ↔ (nat_abs (pos 21372637) % 2 ^ 64 ≡ nat_abs (pos 9) % 2 ^ 64))
paths_bounds_example = paths_bounds (pos 21372637) (pos 9)

-- The one file of the block.
abbrev with_file : Bytes → Bytes → Files
with_file path bytes = λ p. if bytes_eq path p then some bytes else none

storing :
    store_prover_input Codec.sample files codec content_type_json no_files
      (some (made_input Codec.sample input))
    ≡ (ok tt, with_file (prover_path 21372637) (1 ∷ []))
unfolding store_prover_input input_parts encode_input first_number chain_id_of
storing = refl

load_prover_input-store_prover_input_example :
    (number chain_id : ℕ) × (first_number Codec.sample files codec (made_input Codec.sample input)
      ≡ ok number)
    × (chain_id_of Codec.sample files codec (some config) ≡ ok chain_id)
    × (load_prover_input Codec.sample files codec content_type_json
          (with_file (prover_path 21372637) (1 ∷ []))
          chain_id
          number
        ≡ as_stored Codec.sample files codec codec-Decodes content_type_json
            (made_input Codec.sample input))
load_prover_input-store_prover_input_example =
    load_prover_input-store_prover_input Codec.sample files codec codec-Decodes files-IsLawful
      content_type_json no_files (made_input Codec.sample input) storing

another_number : first_number Codec.sample files codec (made_input Codec.sample input) ≢ ok 9
unfolding first_number
another_number = λ e. ground arith

load_prover_input-store_other_example :
    load_prover_input Codec.sample files codec content_type_json
      (with_file (prover_path 21372637) (1 ∷ []))
      5
      9
    ≡ load_prover_input Codec.sample files codec content_type_json no_files 5 9
load_prover_input-store_other_example =
    load_prover_input-store_other Codec.sample files codec files-IsLawful content_type_json no_files
      (made_input Codec.sample input) 9 storing another_number content_type_json 5

-- Preflight data with a number and a chain alone, whose text has the number without its sign.
abbrev number_of : Bytes → Outcome ℤ
number_of [] = err (error "unexpected end")
number_of (n ∷ rest) = ok (pos n)

abbrev data_codec : PreflightCodec ℤ files
data_codec = record {
  number = λ n. some n;
  chain_config = λ n. some config;
  encode = λ n. ok (nat_abs n ∷ []);
  decode = number_of;
}

data_codec-DecodesData : DecodesData data_codec
data_codec-DecodesData = record {
  view = λ n. ok (pos (nat_abs n));
  decode-encode = λ n r h h'. ap number_of (ok_inj (h' ∙ sym h));
}

storing_data :
    store_preflight_data files data_codec no_files (pos 12)
    ≡ (ok tt, with_file (preflight_path 12) (12 ∷ []))
unfolding store_preflight_data preflight_parts
storing_data = refl

load_preflight_data-store_preflight_data_example :
    (number chain_id : ℤ) × HasNumbers files data_codec (pos 12) number chain_id
    × (load_preflight_data files data_codec
          (with_file (preflight_path 12) (12 ∷ []))
          (uint64 chain_id)
          (uint64 number)
        ≡ data_codec-DecodesData.view (pos 12))
load_preflight_data-store_preflight_data_example =
    load_preflight_data-store_preflight_data files data_codec files-IsLawful data_codec-DecodesData
      no_files (pos 12) storing_data
