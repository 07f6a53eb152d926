-- ===== src/Config/Load.antt =====
-- `Load` of src/config/config.go, which reads configuration files and flags through viper, and the keys
-- of the configuration's fields.
use zk_pig.Base.{List, [], ◌∷◌, String, Outcome, ok, err, panic, context}
use zk_pig.Config.{Text, GlobalConfig}
use zk_pig.Config.Flags.{FlagLib}

-- viper, where a call that merges a file may change it also if it fails.
pub record ViperLib (F : FlagLib) : Type 0 where
  pub get_string_slice : F.Viper → String → List Text
  pub set_config_file : F.Viper → Text → F.Viper
  pub set_config_type : F.Viper → String → F.Viper
  pub merge_in_config : F.Viper → Outcome (Unit {0}) × F.Viper
  pub unmarshal : F.Viper → GlobalConfig → Outcome GlobalConfig

-- `new(config.Config)`
abbrev pub new_config : GlobalConfig
new_config = record {
  chain_id = [];
  rpc_url = [];
  log_format = [];
  log_level = [];
  data_dir = [];
  config = [];
  preflight_dir = [];
  content_type = [];
  content_encoding = [];
  inputs_dir = [];
  s3 = record { bucket = []; key_prefix = []; region = []; access_key = []; secret_key = [] };
}

-- The text fields of `Config`, with the keys that their `mapstructure` tags spell.
abbrev pub config_keys : List (String × (GlobalConfig → Text))
config_keys =
    ("chain.id", λ c. c.chain_id)
    ∷ ("chain.rpc.url", λ c. c.rpc_url)
    ∷ ("log.format", λ c. c.log_format)
    ∷ ("log.level", λ c. c.log_level)
    ∷ ("data-dir", λ c. c.data_dir)
    ∷ ("preflight-data-store.file.dir", λ c. c.preflight_dir)
    ∷ ("prover-input-store.content-type", λ c. c.content_type)
    ∷ ("prover-input-store.content-encoding", λ c. c.content_encoding)
    ∷ ("prover-input-store.file.dir", λ c. c.inputs_dir)
    ∷ ("prover-input-store.s3.aws-provider.region", λ c. c.s3.region)
    ∷ ("prover-input-store.s3.aws-provider.credentials.access-key", λ c. c.s3.access_key)
    ∷ ("prover-input-store.s3.aws-provider.credentials.secret-key", λ c. c.s3.secret_key)
    ∷ ("prover-input-store.s3.bucket", λ c. c.s3.bucket)
    ∷ ("prover-input-store.s3.bucket-key-prefix", λ c. c.s3.key_prefix)
    ∷ []

module _ {F : FlagLib} (Y : ViperLib F) where
  -- What follows a merge that was done.
  abbrev pub after_merge :
      Outcome (Unit {0}) × F.Viper
      → (F.Viper → Outcome (Unit {0}) × F.Viper)
      → Outcome (Unit {0}) × F.Viper
  after_merge (ok u, v) rest = rest v
  after_merge (err e, v) rest = (err e, v)
  after_merge (panic, v) rest = (panic, v)

  abbrev pub merge_file : Text → F.Viper → Outcome (Unit {0}) × F.Viper
  merge_file path v = Y.merge_in_config (Y.set_config_type (Y.set_config_file v path) "yaml")

  -- The files are merged one after the other, up to the first that fails.
  unfoldable pub merge_files : List Text → F.Viper → Outcome (Unit {0}) × F.Viper
  merge_files [] v = (ok tt, v)
  merge_files (path ∷ paths) v = after_merge (merge_file path v) (merge_files paths)

  abbrev pub unmarshalled :
      GlobalConfig → Outcome (Unit {0}) × F.Viper → Outcome GlobalConfig × F.Viper
  unmarshalled config (ok u, v) = (context "unable to load config" (Y.unmarshal v config), v)
  unmarshalled config (err e, v) = (err e, v)
  unmarshalled config (panic, v) = (panic, v)

  -- `Load`: the configuration, and viper after it.
  unfoldable pub load : GlobalConfig → F.Viper → Outcome GlobalConfig × F.Viper
  unfolding merge_files
  load config v = unmarshalled config (merge_files (Y.get_string_slice v "config") v)
