-- ===== src/Service/New.antt =====
-- `New`, `Stop` and `Errors` of src/service.go, and `preRun` of cmd/generate.go, which makes and starts
-- the service for a command.
pub mod Accepted
pub mod Tests
use zk_pig.Base.{
  ℤ, Option, none, some, Bool, true, false, ◌&&◌, if◌then◌else◌, Error, Outcome, ok, err, panic,
  ◌>>=◌, ◌>>◌, context,
}
use zk_pig.Store.{ContentType}
use zk_pig.Store.PreflightData.{new_preflight_data_store}
use zk_pig.Config.{
  Text, S3Config, GlobalConfig, ConfigLib, Config, set_default, prepare_config, validate_s3_config,
}
use zk_pig.Service.{ServiceLib, Service, Ending, returned, panicked, start}

-- The constructors of go-utils: the RPC client, the file store and the compressed store over the
-- configurations of a file and an S3 store.
pub record NewLib (L : ConfigLib) : Type 1 where
  pub Remote : Type 0
  pub new_remote : L.RpcConfig → Outcome Remote
  pub FileStore : Type 0
  pub new_file_store : Text → FileStore
  pub CompressStore : Type 0
  pub new_compress_store : Option Text → Option S3Config → L.ContentEncoding → Outcome CompressStore
  -- `jsonrpc.FromBlockNumArg`
  pub from_block_num_arg : Text → Outcome (Option ℤ)

-- `Stop`: the RPC client is stopped, if there is one that runs.
unfoldable pub stop :
    (V : ServiceLib)
    → (V.World → Outcome (Unit {0}) × V.World)
    → Service V
    → V.World
    → Outcome (Unit {0}) × V.World
stop V stop_remote s w = if s.cfg_chain_rpc && V.is_runnable then stop_remote w else (ok tt, w)

-- `Errors`: the channel of the RPC client, if there is one that reports errors, and else nil.
unfoldable pub errors :
    {Client Channel : Type 0} → (Client → Option Channel) → Option Client → Option Channel
errors errors_of none = none
errors errors_of (some client) = errors_of client

module _ (L : ConfigLib) (N : NewLib L) where
  -- What `New` makes, beside the parts that it is made from.
  pub record Made : Type 0 where
    pub cfg : Config L
    pub remote : Option N.Remote
    pub preflight_data_store : N.FileStore
    pub input_store : N.CompressStore
    pub content_type : ContentType

  abbrev pub new_remote_of : Option L.RpcConfig → Outcome (Option N.Remote)
  new_remote_of none = ok none
  new_remote_of (some rpc) = do remote ← N.new_remote rpc; ok (some remote)

  -- `New`
  unfoldable pub new : Config L → Outcome Made
  unfolding set_default new_preflight_data_store
  new cfg = do
    let c = set_default L cfg
    remote ← new_remote_of c.rpc
    preflights ←
        context "failed to create preflight data store"
          (new_preflight_data_store N.new_file_store c.preflight_file)
    inputs ←
        context "failed to create prover inputs store"
          (N.new_compress_store c.input_file c.input_s3 c.content_encoding)
    ok (record {
      cfg = c;
      remote = remote;
      preflight_data_store = preflights;
      input_store = inputs;
      content_type = c.content_type;
    })

  module _ (V : ServiceLib) where
    abbrev pub is_some : {A : Type 0} → Option A → Bool
    is_some none = false
    is_some (some a) = true

    -- The service before its start.
    abbrev pub service_of : Made → Service V
    service_of m = record {
      cfg_chain_rpc = is_some m.remote;
      cfg_chain_id = m.cfg.chain_id;
      init_once = false;
      chain_id = none;
      err = none;
    }

    -- `Start`, as an outcome.
    abbrev pub started : Ending V × Service V × V.World → Outcome (Unit {0}) × Service V × V.World
    started (returned none, s, w) = (ok tt, s, w)
    started (returned (some e), s, w) = (err e, s, w)
    started (panicked, s, w) = (panic, s, w)

    -- `preRun`: the service that was started, and the number of the block.
    unfoldable pub pre_run :
        GlobalConfig → Text → V.World → Outcome (Made × Service V × V.World × Option ℤ)
    unfolding prepare_config new start
    pre_run g block_number w = do
      cfg ← prepare_config L g
      made ← context "failed to create prover inputs service" (new cfg)
      let (done, s, w') = started (start V (service_of made) w)
      context "failed to start prover inputs service" done
      number ← context "invalid block number" (N.from_block_num_arg block_number)
      validate_s3_config g.s3
      ok (made, s, w', number)
