-- ===== src/Service/Ready.antt =====
-- The chain ID that a started service of src/service.go has.
use zk_pig.Base.{
  ℤ, Option, none, some, Bool, true, false, if◌then◌else◌, ◌&&◌, Outcome, ok, err, panic, ◌≡◌, ◌≢◌,
  refl, ◌⊎◌, inl, inr,
}
use zk_pig.Service.{
  ServiceLib, Service, returned, Started, with_chain_id, get_chain_id, after_start, start_remote_of,
  initialize, start,
}

module _ (R : ServiceLib) where
  -- What lies behind the RPC client after its start, if it is one that is started.
  abbrev pub IsBehind : R.World → R.World → Type 0
  IsBehind before after =
      ((R.is_runnable ≡ true) × (R.start_remote before ≡ (ok tt, after)))
      ⊎ ((R.is_runnable ≡ false) × (before ≡ after))

  -- Where the chain ID comes from.
  abbrev pub Ready : Service R → R.World → Option ℤ → Type 0
  Ready s before id =
      ((s.cfg_chain_rpc ≡ true)
        × (w : R.World) × IsBehind before w
        × ((R.remote_chain_id w).0 ≡ ok id))
      ⊎ ((s.cfg_chain_rpc ≡ false) × (id ≡ s.cfg_chain_id) × (s.cfg_chain_id ≢ none))

  abbrev ReadyIfReturned : Service R → R.World → Started R → Type 0
  ReadyIfReturned s before r = r.0 ≡ returned none → Ready s before r.1.chain_id

  with_chain_id-Ready :
      (s : Service R) (before w : R.World) (o : Outcome (Option ℤ)) (w' : R.World)
      → s.cfg_chain_rpc ≡ true
      → IsBehind before w
      → (R.remote_chain_id w).0 ≡ o
      → ReadyIfReturned s before (with_chain_id R s (o, w'))
  unfolding with_chain_id
  with_chain_id-Ready s before w (ok id) w' t b e h = inl (t, w, b, e)
  with_chain_id-Ready s before w (err x) w' t b e h = cc
  with_chain_id-Ready s before w panic w' t b e h = cc

  if-Ready :
      (s : Service R) (before : R.World) (test : Bool) (a b : Started R)
      → (test ≡ true → ReadyIfReturned s before a)
      → (test ≡ false → ReadyIfReturned s before b)
      → ReadyIfReturned s before (if test then a else b)
  if-Ready s before true a b h k = h refl
  if-Ready s before false a b h k = k refl

  -- A service with a chain: the RPC client or the chain ID is configured.
  HasChain : Service R → Type 0
  HasChain s = s.cfg_chain_rpc ≡ false → s.cfg_chain_id ≢ none

  get_chain_id-Ready :
      (s : Service R) (before w : R.World)
      → HasChain s
      → (s.cfg_chain_rpc ≡ true → IsBehind before w)
      → ReadyIfReturned s before (get_chain_id R s w)
  unfolding get_chain_id HasChain
  get_chain_id-Ready s before w c b =
      if-Ready s before s.cfg_chain_rpc (with_chain_id R s (R.remote_chain_id w))
        (returned s.err, record s { chain_id = s.cfg_chain_id }, w)
        (λ t.
          with_chain_id-Ready s before w (R.remote_chain_id w).0 (R.remote_chain_id w).1 t (b t)
            refl)
        (λ n h. inr (n, refl, c n))

  after_start-Ready :
      (s : Service R) (before : R.World) (o : Outcome (Unit {0}) × R.World)
      → HasChain s
      → R.is_runnable ≡ true
      → R.start_remote before ≡ o
      → ReadyIfReturned s before (after_start R s o)
  unfolding after_start HasChain
  after_start-Ready s before (ok u, w) c run e =
      get_chain_id-Ready (record s { err = none }) before w c (λ t. inl (run, e))
  after_start-Ready s before (err x, w) c run e = λ h. cc
  after_start-Ready s before (panic, w) c run e = λ h. cc

  both : (a b : Bool) → (a && b) ≡ true → b ≡ true
  both true b h = h
  both false b h = cc

  second_false : (a b : Bool) → a ≡ true → (a && b) ≡ false → b ≡ false
  second_false true b t h = h
  second_false false b t h = cc

  start_remote_of-Ready :
      (s : Service R) (w : R.World) → HasChain s → ReadyIfReturned s w (start_remote_of R s w)
  unfolding start_remote_of
  start_remote_of-Ready s w c =
      if-Ready s w (s.cfg_chain_rpc && R.is_runnable) (after_start R s (R.start_remote w))
        (get_chain_id R s w)
        (λ t.
          after_start-Ready s w (R.start_remote w) c (both s.cfg_chain_rpc R.is_runnable t) refl)
        (λ n.
          get_chain_id-Ready s w w c
            (λ t. inr (second_false s.cfg_chain_rpc R.is_runnable t n, refl)))

  initialize-Ready :
      (rpc : Bool) (id : Option ℤ) (s : Service R) (w : R.World)
      → s.cfg_chain_rpc ≡ rpc
      → s.cfg_chain_id ≡ id
      → ReadyIfReturned s w (initialize R rpc id s w)
  unfolding initialize HasChain
  initialize-Ready false none s w p q = λ h. cc
  initialize-Ready false (some id) s w p q = start_remote_of-Ready s w (λ n e. cc)
  initialize-Ready true id s w p q = start_remote_of-Ready s w (λ n. absurd (cc))

  -- When the first call of `Start` returns without an error, the service has the chain ID that the
  -- node gave, after its client was started if it is one that is, if an RPC client is configured, and
  -- else the chain ID of the configuration, which is then not nil.
  pub start-Ready :
      (s : Service R) (w : R.World)
      → s.init_once ≡ false
      → (start R s w).0 ≡ returned none
      → Ready s w (start R s w).1.chain_id
  unfolding start
  start-Ready s w first =
      let fresh = record s { init_once = true } in
      if-Ready s w s.init_once (returned s.err, s, w)
        (initialize R s.cfg_chain_rpc s.cfg_chain_id fresh w) (λ t. absurd (cc))
        (λ n. initialize-Ready s.cfg_chain_rpc s.cfg_chain_id fresh w refl refl)
