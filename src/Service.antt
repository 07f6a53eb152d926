-- ===== src/Service.antt =====
-- src/service.go: the start of the service. The RPC client is there exactly if it is configured, which
-- `New` sees to.
pub mod Once
pub mod Ready
pub mod Commands
pub mod New
pub mod Tests
use zk_pig.Base.{
  ℕ, ℤ, Option, none, some, Bool, true, false, if◌then◌else◌, Bool-cases, inl, inr, ◌&&◌, Error,
  error, wrap, Outcome, ok, err, panic, ◌≡◌, refl, ap, ◌∙◌, ◌⊎◌, ◌≢◌,
}

-- The RPC client: whether it is a `svc.Runnable`, its start, and the chain ID that it asks for. The
-- world is what lies behind it.
pub record ServiceLib : Type 1 where
  pub World : Type 0
  pub is_runnable : Bool
  pub start_remote : World → Outcome (Unit {0}) × World
  pub remote_chain_id : World → Outcome (Option ℤ) × World

module _ (R : ServiceLib) where
  pub record Service : Type 0 where
    pub cfg_chain_rpc : Bool
    pub cfg_chain_id : Option ℤ
    -- whether the function of `initOnce` was run
    pub init_once : Bool
    pub chain_id : Option ℤ
    pub err : Option Error

  -- What `Start` does: it returns an error or nil, or it panics.
  pub data Ending : Type 0 where
    returned : Option Error → Ending
    panicked : Ending

  abbrev pub Started : Type 0
  Started = Ending × Service × R.World

  unfoldable pub with_chain_id : Service → Outcome (Option ℤ) × R.World → Started
  with_chain_id s (ok id, w) = (returned none, record s { chain_id = id; err = none }, w)
  with_chain_id s (err e, w) =
      let failed = some (wrap "failed to initialize RPC client" e) in
      (returned failed, record s { chain_id = none; err = failed }, w)
  with_chain_id s (panic, w) = (panicked, s, w)

  unfoldable pub get_chain_id : Service → R.World → Started
  unfolding with_chain_id
  get_chain_id s w =
      if s.cfg_chain_rpc
      then with_chain_id s (R.remote_chain_id w)
      else (returned s.err, record s { chain_id = s.cfg_chain_id }, w)

  unfoldable pub after_start : Service → Outcome (Unit {0}) × R.World → Started
  unfolding get_chain_id
  after_start s (ok u, w) = get_chain_id (record s { err = none }) w
  after_start s (err e, w) =
      let failed = some (wrap "failed to start RPC client" e) in
      (returned failed, record s { err = failed }, w)
  after_start s (panic, w) = (panicked, s, w)

  unfoldable pub start_remote_of : Service → R.World → Started
  unfolding after_start get_chain_id
  start_remote_of s w =
      if s.cfg_chain_rpc && R.is_runnable
      then after_start s (R.start_remote w)
      else get_chain_id s w

  abbrev pub no_chain : Option Error
  no_chain = some (error "no chain configuration provided")

  unfoldable pub initialize : Bool → Option ℤ → Service → R.World → Started
  unfolding start_remote_of
  initialize false none s w = (returned no_chain, record s { err = no_chain }, w)
  initialize false (some id) s w = start_remote_of s w
  initialize true id s w = start_remote_of s w

  -- `Start`; the function is done for `initOnce` however it ends.
  unfoldable pub start : Service → R.World → Started
  unfolding initialize
  start s w =
      if s.init_once
      then (returned s.err, s, w)
      else initialize s.cfg_chain_rpc s.cfg_chain_id (record s { init_once = true }) w
