-- ===== src/Config/Flags.antt =====
-- src/config/flags.go: the flags of the command line, over viper, pflag and the flags of go-utils.
use zk_pig.Base.{Option, none, some, List, [], ◌∷◌, String, Outcome, ok, ◌>>=◌}

-- `spf13.StringFlag` and `spf13.StringArrayFlag`, without their descriptions
pub record Flag : Type 0 where
  pub viper_key : String
  pub name : String
  pub shorthand : String
  pub env : String
  pub default_value : Option String

abbrev flag : String → String → String → Option String → Flag
flag key name env default = record {
  viper_key = key;
  name = name;
  shorthand = "";
  env = env;
  default_value = default;
}

abbrev pub config_file_flag : Flag
config_file_flag = record (flag "config" "config" "CONFIG" none) { shorthand = "c" }

abbrev pub chain_id_flag : Flag
chain_id_flag = flag "chain.id" "chain-id" "CHAIN_ID" none

abbrev pub chain_rpc_url_flag : Flag
chain_rpc_url_flag = flag "chain.rpc.url" "chain-rpc-url" "CHAIN_RPC_URL" none

abbrev pub data_dir_flag : Flag
data_dir_flag = flag "data-dir" "data-dir" "DATA_DIR" (some "data")

abbrev pub preflight_dir_flag : Flag
preflight_dir_flag =
    flag "preflight-data-store.file.dir" "preflight-dir" "PREFLIGHT_DIR" (some "preflight")

abbrev pub inputs_dir_flag : Flag
inputs_dir_flag = flag "prover-input-store.file.dir" "inputs-dir" "INPUTS_DIR" (some "inputs")

abbrev pub content_type_flag : Flag
content_type_flag =
    flag "prover-input-store.content-type" "inputs-content-type" "INPUTS_CONTENT_TYPE" (some "json")

abbrev pub content_encoding_flag : Flag
content_encoding_flag =
    flag "prover-input-store.content-encoding" "inputs-content-encoding" "INPUTS_CONTENT_ENCODING"
      (some "")

abbrev pub aws_s3_bucket_flag : Flag
aws_s3_bucket_flag =
    flag "prover-input-store.s3.bucket" "inputs-aws-s3-bucket" "INPUTS_AWS_S3_BUCKET" none

abbrev pub aws_s3_bucket_key_prefix_flag : Flag
aws_s3_bucket_key_prefix_flag =
    flag "prover-input-store.s3.bucket-key-prefix" "inputs-aws-s3-bucket-key-prefix"
      "INPUTS_AWS_S3_BUCKET_KEY_PREFIX" none

abbrev pub aws_s3_access_key_flag : Flag
aws_s3_access_key_flag =
    flag "prover-input-store.s3.aws-provider.credentials.access-key" "inputs-aws-s3-access-key"
      "INPUTS_AWS_S3_ACCESS_KEY" none

abbrev pub aws_s3_secret_key_flag : Flag
aws_s3_secret_key_flag =
    flag "prover-input-store.s3.aws-provider.credentials.secret-key" "inputs-aws-s3-secret-key"
      "INPUTS_AWS_S3_SECRET_KEY" none

abbrev pub aws_s3_region_flag : Flag
aws_s3_region_flag =
    flag "prover-input-store.s3.aws-provider.region" "inputs-aws-s3-region" "INPUTS_AWS_S3_REGION"
      none

-- The flags of each group, in the order in which they are added.
abbrev pub chain_flags : List Flag
chain_flags = chain_id_flag ∷ chain_rpc_url_flag ∷ []

abbrev pub aws_flags : List Flag
aws_flags =
    aws_s3_bucket_flag ∷ aws_s3_region_flag ∷ aws_s3_access_key_flag ∷ aws_s3_secret_key_flag
    ∷ aws_s3_bucket_key_prefix_flag ∷ []

abbrev pub store_flags : List Flag
store_flags =
    data_dir_flag ∷ preflight_dir_flag ∷ inputs_dir_flag ∷ content_type_flag ∷ content_encoding_flag
    ∷ []

-- `Add` of a flag, which binds it in viper and declares it in the flag set; a flag set panics where a
-- name is taken.
pub record FlagLib : Type 1 where
  pub Viper : Type 0
  pub FlagSet : Type 0
  pub add_string : Flag → Viper × FlagSet → Outcome (Viper × FlagSet)
  pub add_string_array : Flag → Viper × FlagSet → Outcome (Viper × FlagSet)

module _ (F : FlagLib) where
  -- Flags that are added one after the other.
  unfoldable pub add_each : List Flag → F.Viper × F.FlagSet → Outcome (F.Viper × F.FlagSet)
  add_each [] vf = ok vf
  add_each (f ∷ fs) vf = do vf' ← F.add_string f vf; add_each fs vf'

  unfoldable pub add_config_file_flag : F.Viper × F.FlagSet → Outcome (F.Viper × F.FlagSet)
  add_config_file_flag vf = F.add_string_array config_file_flag vf

  unfoldable pub add_chain_flags : F.Viper × F.FlagSet → Outcome (F.Viper × F.FlagSet)
  unfolding add_each
  add_chain_flags vf = add_each chain_flags vf

  unfoldable pub add_aws_flags : F.Viper × F.FlagSet → Outcome (F.Viper × F.FlagSet)
  unfolding add_each
  add_aws_flags vf = add_each aws_flags vf

  unfoldable pub add_store_flags : F.Viper × F.FlagSet → Outcome (F.Viper × F.FlagSet)
  unfolding add_each
  add_store_flags vf = add_each store_flags vf
