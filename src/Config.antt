-- ===== src/Config.antt =====
-- src/config.go, with the struct of src/config/config.go, and `validateS3Config` of cmd/generate.go. A
-- text is the bytes of a Go string.
pub mod ChainIds
pub mod S3
pub mod Flags
pub mod Load
pub mod Loaded
pub mod Tests
use zk_pig.Base.{
  ℕ, zero, suc, ℤ, pos, negsuc, Option, none, some, List, [], ◌∷◌, ◌++◌, Bool, true, false, not,
  ◌&&◌, ◌||◌, ◌==◌, ltb, leb, ◌-◌, if◌then◌else◌, Bytes, String, dec_value, Outcome, ok, err, error,
  ◌>>=◌, context,
}
use zk_pig.Store.{ContentType}

abbrev pub Text : Type 0
Text = Bytes

-- `s == ""`
abbrev pub is_empty : Text → Bool
is_empty [] = true
is_empty (b ∷ bs) = false

pub record S3Config : Type 0 where
  pub bucket : Text
  pub key_prefix : Text
  pub region : Text
  pub access_key : Text
  pub secret_key : Text

-- `Config` of src/config
pub record GlobalConfig : Type 0 where
  pub chain_id : Text
  pub rpc_url : Text
  pub log_format : Text
  pub log_level : Text
  pub data_dir : Text
  pub config : List Text
  pub preflight_dir : Text
  pub content_type : Text
  pub content_encoding : Text
  pub inputs_dir : Text
  pub s3 : S3Config

-- go-utils and `filepath.Join`
pub record ConfigLib : Type 1 where
  pub ContentEncoding : Type 0
  pub parse_content_encoding : Text → Outcome ContentEncoding
  pub parse_content_type : Text → Outcome ContentType
  pub join : List Text → Text
  pub RpcConfig : Type 0
  pub with_addr : Text → RpcConfig
  pub rpc_set_default : RpcConfig → RpcConfig

abbrev pub all_digits : Bytes → Bool
all_digits [] = true
all_digits (b ∷ bs) = let rest = all_digits bs in leb 48 b && leb b 57 && rest

-- The digits of a number, which are not none.
abbrev pub read_digits : Bytes → Option ℕ
read_digits bs = if not (is_empty bs) && all_digits bs then some (dec_value 0 bs) else none

abbrev pub minus : ℕ → ℤ
minus zero = pos 0
minus (suc n) = negsuc n

abbrev pub signed : (ℕ → ℤ) → Option ℕ → Option ℤ
signed sign none = none
signed sign (some n) = some (sign n)

-- `SetString(s, 10)`: a sign or none, and digits.
unfoldable pub set_string : Text → Option ℤ
set_string [] = none
set_string (b ∷ bs) =
    if b == 45
    then signed minus (read_digits bs)
    else if b == 43
    then signed pos (read_digits bs)
    else signed pos (read_digits (b ∷ bs))

abbrev pub or_invalid : Option ℤ → Outcome ℤ
or_invalid none = err (error "invalid chain id")
or_invalid (some id) = ok id

unfoldable pub parse_chain_id : Text → Outcome ℤ
unfolding set_string
parse_chain_id chain_id = or_invalid (set_string chain_id)

-- `ChainID`: the directory of a chain, "default" if it has no ID.
unfoldable pub chain_id_dir : GlobalConfig → Text
chain_id_dir g =
    if is_empty g.chain_id then 100 ∷ 101 ∷ 102 ∷ 97 ∷ 117 ∷ 108 ∷ 116 ∷ [] else g.chain_id

module _ (L : ConfigLib) where
  -- `Config`, with the configurations of its two stores
  pub record Config : Type 0 where
    pub chain_id : Option ℤ
    pub rpc : Option L.RpcConfig
    pub data_dir : Text
    pub preflight_file : Option Text
    pub input_file : Option Text
    pub input_s3 : Option S3Config
    pub content_encoding : L.ContentEncoding
    pub content_type : ContentType

  -- "data"
  unfoldable pub set_default : Config → Config
  set_default cfg = record cfg {
    data_dir = if is_empty cfg.data_dir then 100 ∷ 97 ∷ 116 ∷ 97 ∷ [] else cfg.data_dir;
    rpc = set_rpc_default cfg.rpc;
  }
    where
      set_rpc_default : Option L.RpcConfig → Option L.RpcConfig
      set_rpc_default none = none
      set_rpc_default (some rpc) = some (L.rpc_set_default rpc)

  -- A directory of the chain, if its name is given.
  abbrev pub chain_dir : GlobalConfig → Text → Option Text
  chain_dir g dir =
      if is_empty dir then none else some (L.join (g.data_dir ∷ chain_id_dir g ∷ dir ∷ []))

  abbrev pub given_chain_id : Text → Outcome (Option ℤ)
  given_chain_id chain_id =
      if is_empty chain_id then ok none else do id ← parse_chain_id chain_id; ok (some id)

  unfoldable pub from_global_config : GlobalConfig → Outcome Config
  unfolding parse_chain_id chain_id_dir
  from_global_config g = do
    chain_id ← given_chain_id g.chain_id
    encoding ←
        context "failed to parse content encoding" (L.parse_content_encoding g.content_encoding)
    type ← context "failed to parse content type" (L.parse_content_type g.content_type)
    ok (record {
      chain_id = chain_id;
      rpc = if is_empty g.rpc_url then none else some (L.with_addr g.rpc_url);
      data_dir = g.data_dir;
      preflight_file = chain_dir g g.preflight_dir;
      input_file = chain_dir g g.inputs_dir;
      input_s3 = if is_empty g.s3.bucket then none else some g.s3;
      content_encoding = encoding;
      content_type = type;
    })

  -- `prepareConfig` of cmd/generate.go
  unfoldable pub prepare_config : GlobalConfig → Outcome Config
  unfolding from_global_config set_default
  prepare_config g = do cfg ← from_global_config g; ok (set_default cfg)

-- A required field that is not set.
abbrev pub missing_if : Bool → String → List String
missing_if true name = name ∷ []
missing_if false name = []

abbrev pub missing_fields : S3Config → List String
missing_fields c =
    missing_if (is_empty c.bucket) "s3-bucket"
    ++ missing_if (is_empty c.access_key) "access-key"
    ++ missing_if (is_empty c.secret_key) "secret-key"
    ++ missing_if (is_empty c.region) "region"

abbrev pub none_missing : List String → Outcome (Unit {0})
none_missing [] = ok tt
none_missing (name ∷ names) = err (error "must be specified when using s3 storage")

unfoldable pub validate_s3_config : S3Config → Outcome (Unit {0})
validate_s3_config c =
    if not (is_empty c.bucket)
      || not (is_empty c.key_prefix)
      || not (is_empty c.access_key)
      || not (is_empty c.secret_key)
      || not (is_empty c.region)
    then none_missing (missing_fields c)
    else ok tt
