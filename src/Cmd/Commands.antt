-- ===== src/Cmd/Commands.antt =====
-- The commands of src/cmd/generate.go, on the service and on what lies behind the RPC client and in the
-- stores.
use zk_pig.Base.{ℤ, Option, none, some, Outcome, ok, err, panic, ◌>>=◌}
use zk_pig.Geth.Interface.{Geth}
use zk_pig.Trie.Interface.{TrieLib}
use zk_pig.State.Rpc.{RpcLib}
use zk_pig.Evm.Interface.{EvmLib}
use zk_pig.Chain.{ChainLib}
use zk_pig.Generator.Interface.{GenLib}
use zk_pig.Config.{Text, GlobalConfig, ConfigLib, Config, prepare_config}
use zk_pig.Service.{ServiceLib, Service, start}
use zk_pig.Service.Commands.{
  Parts, Disks, preflight_command, prepare_command, execute_command, generate,
}
use zk_pig.Service.New.{NewLib, Made, new, service_of, started, stop, pre_run}
use zk_pig.Cmd.{Command}

module _ (A : ConfigLib) (N : NewLib A) (V : ServiceLib) {G : Geth} {T : TrieLib} {R : RpcLib}
    {E : EvmLib} {C : ChainLib E.HeaderChain} {L : GenLib G T R E C} (P : Parts L) where
  -- `ProverInputContext`, with the worlds that the service acts on.
  pub record Process : Type 0 where
    pub config : GlobalConfig
    pub svc : Option (Made A N × Service V)
    pub block_number : Option ℤ
    pub remote : V.World
    pub disks : Disks P

  abbrev pub Action : Type 0
  Action = Process → Outcome (Unit {0}) × Process

  -- The service that is left when `preRun` fails, and what lies behind its RPC client: `New` may have
  -- failed, or `Start`, or what comes after it.
  unfoldable pub left_by : Outcome (Made A N) → V.World → Option (Made A N × Service V) × V.World
  left_by (ok made) w =
      let (done, s, w') = started A N V (start V (service_of A N V made) w) in (some (made, s), w')
  left_by (err e) w = (none, w)
  left_by panic w = (none, w)

  unfoldable pub new_of : GlobalConfig → Outcome (Made A N)
  new_of g = do cfg ← prepare_config A g; new A N cfg

  abbrev pub failed : Process → Process
  failed p = let (svc, w) = left_by (new_of p.config) p.remote in record p { svc = svc; remote = w }

  abbrev pub after_pre_run :
      Process → Outcome (Made A N × Service V × V.World × Option ℤ) → Outcome (Unit {0}) × Process
  after_pre_run p (ok (made, s, w, number)) =
      (ok tt, record p { svc = some (made, s); block_number = number; remote = w })
  after_pre_run p (err e) = (err e, failed p)
  after_pre_run p panic = (panic, failed p)

  -- `preRun` with the value of the flag --block-number
  unfoldable pub pre_run_action : Text → Action
  unfolding pre_run left_by new_of
  pre_run_action block_number p = after_pre_run p (pre_run A N V p.config block_number p.remote)

  -- A method of the service on the stores, which a nil service panics at.
  abbrev pub on_disks :
      (Service V → Option ℤ → Disks P → Outcome (Unit {0}) × Disks P)
      → Option (Made A N × Service V)
      → Action
  on_disks body none p = (panic, p)
  on_disks body (some (made, s)) p =
      let (done, ds) = body s p.block_number p.disks in (done, record p { disks = ds })

  unfoldable pub run_action :
      (Service V → Option ℤ → Disks P → Outcome (Unit {0}) × Disks P) → Action
  run_action body p = on_disks body p.svc p

  abbrev pub StopRemote : Type 0
  StopRemote = V.World → Outcome (Unit {0}) × V.World

  abbrev pub stopped : StopRemote → Option (Made A N × Service V) → Action
  stopped stop_remote none p = (panic, p)
  stopped stop_remote (some (made, s)) p =
      let (done, w) = stop V stop_remote s p.remote in (done, record p { remote = w })

  unfoldable pub stop_action : StopRemote → Action
  unfolding stop
  stop_action stop_remote p = stopped stop_remote p.svc p

  -- `NewGenerateCommand` and so on, with the value that its flag has when the command runs.
  unfoldable pub new_generate_command : StopRemote → Text → Command Process
  unfolding generate pre_run_action run_action stop_action
  new_generate_command stop_remote block_number = record {
    name = "generate";
    pre_run_e = some (pre_run_action block_number);
    run_e = some (run_action (generate P));
    post_run_e = some (stop_action stop_remote);
  }

  unfoldable pub new_preflight_command : StopRemote → Text → Command Process
  unfolding preflight_command pre_run_action run_action stop_action
  new_preflight_command stop_remote block_number = record {
    name = "preflight";
    pre_run_e = some (pre_run_action block_number);
    run_e = some (run_action (preflight_command P));
    post_run_e = some (stop_action stop_remote);
  }

  unfoldable pub new_prepare_command : StopRemote → Text → Command Process
  unfolding prepare_command pre_run_action run_action stop_action
  new_prepare_command stop_remote block_number = record {
    name = "prepare";
    pre_run_e = some (pre_run_action block_number);
    run_e = some (run_action (prepare_command P));
    post_run_e = some (stop_action stop_remote);
  }

  unfoldable pub new_execute_command : StopRemote → Text → Command Process
  unfolding execute_command pre_run_action run_action stop_action
  new_execute_command stop_remote block_number = record {
    name = "execute";
    pre_run_e = some (pre_run_action block_number);
    run_e = some (run_action (execute_command P));
    post_run_e = some (stop_action stop_remote);
  }

  -- `NewConfigCommand`, over the encoder of the configuration
  unfoldable pub new_config_command : (Config A → Outcome (Unit {0})) → Command Process
  unfolding prepare_config
  new_config_command encode = record {
    name = "config";
    pre_run_e = none;
    run_e = some (λ p. ((do cfg ← prepare_config A p.config; encode cfg), p));
    post_run_e = none;
  }
