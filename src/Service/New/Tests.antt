-- ===== src/Service/New/Tests.antt =====
-- A service that a command makes and starts.
use zk_pig.Base.{pos, none, some, true, [], ◌∷◌, ok, panic, ◌≡◌, refl}
use zk_pig.Store.{content_type_json}
use zk_pig.Store.PreflightData.{new_preflight_data_store}
use zk_pig.Config.{
  Text, S3Config, GlobalConfig, ConfigLib, Config, set_default, from_global_config, prepare_config,
  validate_s3_config, chain_id_dir,
}
use zk_pig.Service.{
  Service, start, initialize, start_remote_of, after_start, get_chain_id, with_chain_id,
}
use zk_pig.Service.Tests.{node}
use zk_pig.Service.New.{NewLib, Made, new, pre_run}
use zk_pig.Service.New.Accepted.{IsAccepted, pre_run-IsAccepted, pre_run-panic}

abbrev pub texts : ConfigLib
texts = record {
  ContentEncoding = Unit {0};
  parse_content_encoding = λ t. ok tt;
  parse_content_type = λ t. ok content_type_json;
  join = λ ts. 100 ∷ [];
  RpcConfig = Text;
  with_addr = λ t. t;
  rpc_set_default = λ c. c;
}

abbrev pub makers : NewLib texts
makers = record {
  Remote = Unit {0};
  new_remote = λ c. ok tt;
  FileStore = Text;
  new_file_store = λ dir. dir;
  CompressStore = Unit {0};
  new_compress_store = λ file s3 encoding. ok tt;
  from_block_num_arg = λ t. ok (some (pos 7));
}

abbrev pub no_s3 : S3Config
no_s3 = record { bucket = []; key_prefix = []; region = []; access_key = []; secret_key = [] }

abbrev pub global : GlobalConfig
global = record {
  chain_id = [];
  rpc_url = 104 ∷ [];
  log_format = [];
  log_level = [];
  data_dir = 100 ∷ [];
  config = [];
  preflight_dir = 112 ∷ [];
  content_type = [];
  content_encoding = [];
  inputs_dir = 105 ∷ [];
  s3 = no_s3;
}

abbrev pub made_config : Config texts
made_config = record {
  chain_id = none;
  rpc = some (104 ∷ []);
  data_dir = 100 ∷ [];
  preflight_file = some (100 ∷ []);
  input_file = some (100 ∷ []);
  input_s3 = none;
  content_encoding = tt;
  content_type = content_type_json;
}

abbrev pub made : Made texts makers
made = record {
  cfg = made_config;
  remote = some tt;
  preflight_data_store = 100 ∷ [];
  input_store = tt;
  content_type = content_type_json;
}

abbrev pub running : Service node
running = record {
  cfg_chain_rpc = true;
  cfg_chain_id = none;
  init_once = true;
  chain_id = some (pos 1);
  err = none;
}

ready_to_run : pre_run texts makers node global [] 0 ≡ ok (made, running, 2, some (pos 7))
unfolding pre_run prepare_config from_global_config set_default chain_id_dir new
    new_preflight_data_store validate_s3_config start initialize start_remote_of after_start
    get_chain_id with_chain_id
ready_to_run = refl

pre_run-IsAccepted_example : IsAccepted texts makers node global 0 made running
pre_run-IsAccepted_example = pre_run-IsAccepted texts makers node global [] 0 ready_to_run

-- The option "" of --preflight-dir.
abbrev without_preflights : GlobalConfig
without_preflights = record global { preflight_dir = [] }

config_read :
    prepare_config texts without_preflights ≡ ok (record made_config { preflight_file = none })
unfolding prepare_config from_global_config set_default chain_id_dir
config_read = refl

pre_run-panic_example : pre_run texts makers node without_preflights [] 0 ≡ panic
pre_run-panic_example =
    pre_run-panic texts makers node without_preflights [] 0 refl config_read (λ c. (tt, refl))
