-- ===== src/Cmd/Tests.antt =====
-- A command line with one flag and one file, and a run of `zkpig generate`.
use text.Mathlib.Text.{◌==◌ as ◌=s=◌}
use text.Mathlib.TextEquality.{eq_iff}
use zk_pig.Base.{
  bytes_eq, ◌&&◌, ap, sym, suc, Option, none, some, List, [], ◌∷◌, false, if◌then◌else◌, String,
  codes, Outcome, ok, ok_inj, subst, ◌≡◌, refl,
}
use zk_pig.Generator.Sample.{disk-IsLawful}
use zk_pig.Service.{start, initialize, start_remote_of, after_start, get_chain_id, with_chain_id}
use zk_pig.Store.PreflightData.{new_preflight_data_store}
use zk_pig.Config.{
  Text, GlobalConfig, set_default, from_global_config, prepare_config, validate_s3_config,
  chain_id_dir,
}
use zk_pig.Config.Flags.{
  Flag, FlagLib, add_each, add_config_file_flag, add_chain_flags, add_aws_flags, add_store_flags,
  config_file_flag, chain_id_flag, chain_rpc_url_flag, data_dir_flag, preflight_dir_flag,
  inputs_dir_flag, content_type_flag, content_encoding_flag, aws_s3_bucket_flag,
  aws_s3_bucket_key_prefix_flag, aws_s3_access_key_flag, aws_s3_secret_key_flag, aws_s3_region_flag,
}
use zk_pig.Config.Load.{ViperLib, config_keys, merge_files, load, new_config}
use zk_pig.Config.Loaded.{IsViper, Fields, Reads, in_files, latest as latest_value, resolved}
use zk_pig.Service.Tests.{node}
use zk_pig.Service.Commands.{generate, preflight_command, prepare_command, execute_command}
use zk_pig.Service.Commands.Tests.{parts, empty, generated}
use zk_pig.Service.New.{NewLib, Made, new, stop, pre_run}
use zk_pig.Service.New.Tests.{texts, makers, global, made_config, running}
use zk_pig.Cmd.{in_order}
use zk_pig.Cmd.Root.{
  LogLib, add_persistent_flags, logger_of, persistent_pre_run, persistent_pre_run-Reads,
}
use zk_pig.Cmd.Commands.{
  Process, StopRemote, pre_run_action, run_action, stop_action, new_generate_command,
  new_preflight_command, new_prepare_command, new_execute_command,
}
use zk_pig.Cmd.Ends.{Ends, Generated, commands-Ends, new_generate_command-Generated}

-- The flag that has a key, the last one if several were added.
find_flag : String → List Flag → Option Flag
find_flag key [] = none
find_flag key (f ∷ fs) = if key =s= f.viper_key then some f else find_flag key fs

abbrev given : String → Option Text
given name = if name =s= "data-dir" then some (7 ∷ []) else none

-- The file at one path has a chain ID.
abbrev in_file : Text → String → Option Text
in_file path key = if bytes_eq path (9 ∷ []) && (key =s= "chain.id") then some (49 ∷ []) else none

-- The flags that were added, the file that is merged next, and what the files gave.
record Bindings : Type 0 where
  added_flags : List Flag
  path : Text
  merged : String → Option Text

abbrev flags : FlagLib
flags = record {
  Viper = Bindings;
  FlagSet = Unit {0};
  add_string = λ f (b, u). ok (record b { added_flags = f ∷ b.added_flags }, u);
  add_string_array = λ f (b, u). ok (record b { added_flags = f ∷ b.added_flags }, u);
}

abbrev value_of : (String → Option Text) → Option Flag → Text
value_of file none = []
value_of file (some f) = resolved given (λ name. none) file f

abbrev value : Bindings → String → Text
unfolding find_flag
value b key = value_of b.merged (find_flag key b.added_flags)

abbrev read : Bindings → GlobalConfig
read fs = record {
  chain_id = value fs "chain.id";
  rpc_url = value fs "chain.rpc.url";
  log_format = value fs "log.format";
  log_level = value fs "log.level";
  data_dir = value fs "data-dir";
  config = [];
  preflight_dir = value fs "preflight-data-store.file.dir";
  content_type = value fs "prover-input-store.content-type";
  content_encoding = value fs "prover-input-store.content-encoding";
  inputs_dir = value fs "prover-input-store.file.dir";
  s3 = record {
    bucket = value fs "prover-input-store.s3.bucket";
    key_prefix = value fs "prover-input-store.s3.bucket-key-prefix";
    region = value fs "prover-input-store.s3.aws-provider.region";
    access_key = value fs "prover-input-store.s3.aws-provider.credentials.access-key";
    secret_key = value fs "prover-input-store.s3.aws-provider.credentials.secret-key";
  };
}

abbrev viper : ViperLib flags
viper = record {
  get_string_slice = λ fs key. (9 ∷ []) ∷ [];
  set_config_file = λ b path. record b { path = path };
  set_config_type = λ b type. b;
  merge_in_config =
      λ b. (ok tt, record b { merged = λ key. latest_value (in_file b.path key) (b.merged key) });
  unmarshal = λ fs config. ok (read fs);
}

find_flag-cons : (f : Flag) (fs : List Flag) → find_flag f.viper_key (f ∷ fs) ≡ some f
unfolding find_flag
find_flag-cons f fs = rw ((eq_iff f.viper_key f.viper_key).1 refl) refl

find_flag-cons_ne :
    (f g : Flag) (fs : List Flag)
    → (g.viper_key =s= f.viper_key) ≡ false
    → find_flag g.viper_key fs ≡ some g
    → find_flag g.viper_key (f ∷ fs) ≡ some g
unfolding find_flag
find_flag-cons_ne f g fs e h = rw e h

read-Fields : (fs : Bindings) → Fields (value fs) (read fs) config_keys
read-Fields fs = (
  refl,
  (
    refl,
    (
      refl,
      (refl, (refl, (refl, (refl, (refl, (refl, (refl, (refl, (refl, (refl, (refl, tt))))))))))),
    ),
  ),
)

viper-IsViper : IsViper viper given (λ name. none)
unfolding value
viper-IsViper = record {
  Bound = λ b f. find_flag f.viper_key b.added_flags ≡ some f;
  file_value = λ b. b.merged;
  in_yaml = in_file;
  file_value-merge_file = λ path b h key. ap (λ p. p.1.merged key) (sym h);
  get_string = value;
  add_string-Bound = λ f vf h.
      subst (λ (o : Bindings × Unit {0}). find_flag f.viper_key o.0.added_flags ≡ some f) (ok_inj h)
        (find_flag-cons f vf.0.added_flags);
  add_string_keeps = λ f g vf h e bound.
      subst (λ (o : Bindings × Unit {0}). find_flag g.viper_key o.0.added_flags ≡ some g) (ok_inj h)
        (find_flag-cons_ne f g vf.0.added_flags e bound);
  merge_file_keeps = λ path fs f h. h;
  get_string-Bound = λ fs f h. rw h refl;
  unmarshal-Fields =
      λ fs h. subst (λ cfg. Fields (value fs) cfg config_keys) (ok_inj h) (read-Fields fs);
}

abbrev logs : LogLib flags
logs = record {
  add_flags = λ vf. ok vf;
  Level = Unit {0};
  Format = Unit {0};
  Logger = Unit {0};
  parse_level = λ t. ok tt;
  parse_format = λ t. ok tt;
  new_logger = λ level format. ok tt;
}

abbrev unmerged : String → Option Text
unmerged key = none

abbrev nothing : Bindings
nothing = record { added_flags = []; path = []; merged = unmerged }

abbrev all_added : List Flag
all_added =
    content_encoding_flag ∷ content_type_flag ∷ inputs_dir_flag ∷ preflight_dir_flag ∷ data_dir_flag
    ∷ aws_s3_bucket_key_prefix_flag ∷ aws_s3_secret_key_flag ∷ aws_s3_access_key_flag
    ∷ aws_s3_region_flag ∷ aws_s3_bucket_flag ∷ chain_rpc_url_flag ∷ chain_id_flag
    ∷ config_file_flag ∷ []

abbrev added : Bindings
added = record nothing { added_flags = all_added }

-- After the one file was merged.
abbrev loaded : Bindings
loaded = record {
  added_flags = all_added;
  path = 9 ∷ [];
  merged = λ key. latest_value (in_file (9 ∷ []) key) none;
}

flags_added : add_persistent_flags viper logs (nothing, tt) ≡ ok (added, tt)
unfolding add_persistent_flags add_config_file_flag add_chain_flags add_aws_flags add_store_flags
    add_each
flags_added = refl

-- The directory comes from the command line, the chain ID from the file, and the rest from defaults.
loaded_config :
    (read loaded).data_dir ≡ 7 ∷ []
    × ((read loaded).chain_id ≡ 49 ∷ [])
    × ((read loaded).preflight_dir ≡ codes "preflight")
unfolding value find_flag bytes_eq
loaded_config = (refl, refl, refl)

hook_ran : persistent_pre_run viper logs new_config added ≡ (ok (read loaded, tt), loaded)
unfolding persistent_pre_run logger_of load merge_files
hook_ran = refl

persistent_pre_run-Reads_example :
    Reads
      (resolved given (λ name. none) (λ key. in_files in_file ((9 ∷ []) ∷ []) key none))
      (read loaded)
    × ((read loaded).log_level ≡ value loaded "log.level")
    × ((read loaded).log_format ≡ value loaded "log.format")
    × (level : Unit {0}) × (format : Unit {0}) × (ok tt ≡ ok level)
    × (ok tt ≡ ok format)
    × (◌≡◌ {A = Outcome (Unit {0})} (ok tt) (ok tt))
unfolding bytes_eq viper-IsViper value
persistent_pre_run-Reads_example =
    persistent_pre_run-Reads viper logs viper-IsViper (nothing, tt) flags_added hook_ran

abbrev latest : NewLib texts
latest = record makers { from_block_num_arg = λ t. ok none }

abbrev process : Process texts latest node parts
process = record { config = global; svc = none; block_number = none; remote = 0; disks = empty }

abbrev stop_node : StopRemote texts latest node parts
stop_node w = (ok tt, suc w)

abbrev latest_made : Made texts latest
latest_made = record {
  cfg = made_config;
  remote = some tt;
  preflight_data_store = 100 ∷ [];
  input_store = tt;
  content_type = made_config.content_type;
}

ready_to_run : pre_run texts latest node global [] 0 ≡ ok (latest_made, running, 2, none)
unfolding pre_run prepare_config from_global_config set_default chain_id_dir new
    new_preflight_data_store validate_s3_config start initialize start_remote_of after_start
    get_chain_id with_chain_id
ready_to_run = refl

commands-Ends_example :
    Ends texts latest node parts stop_node
      (generate parts)
      process
      (pre_run texts latest node global [] 0)
      (in_order (new_generate_command texts latest node parts stop_node []) process)
    × Ends texts latest node parts stop_node
        (preflight_command parts)
        process
        (pre_run texts latest node global [] 0)
        (in_order (new_preflight_command texts latest node parts stop_node []) process)
    × Ends texts latest node parts stop_node
        (prepare_command parts)
        process
        (pre_run texts latest node global [] 0)
        (in_order (new_prepare_command texts latest node parts stop_node []) process)
    × Ends texts latest node parts stop_node
        (execute_command parts)
        process
        (pre_run texts latest node global [] 0)
        (in_order (new_execute_command texts latest node parts stop_node []) process)
commands-Ends_example =
    commands-Ends texts latest node parts stop_node in_order (λ c p. refl) [] process

abbrev left_behind : Process texts latest node parts
left_behind = record {
  config = global;
  svc = some (latest_made, running);
  block_number = none;
  remote = 3;
  disks = (generate parts running none empty).1;
}

command_ran :
    in_order (new_generate_command texts latest node parts stop_node []) process
    ≡ (ok tt, left_behind)
unfolding new_generate_command pre_run_action run_action stop_action stop
command_ran = rw (ready_to_run, generated) refl

new_generate_command-Generated_example :
    Generated texts latest node parts stop_node [] process left_behind
new_generate_command-Generated_example =
    new_generate_command-Generated texts latest node parts stop_node disk-IsLawful in_order
      (λ c p. refl) [] process command_ran
