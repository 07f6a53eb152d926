-- ===== src/Service/New/Accepted.antt =====
-- Which configurations `New` of src/service.go and `preRun` of cmd/generate.go accept.
use zk_pig.Base.{
  ℤ, Option, none, some, true, false, Bool-cases, inl, inr, ◌⊎◌, if◌then◌else◌, Outcome, ok, err,
  panic, ◌>>=◌, context, >>=-eq-ok, context-eq-ok, ok_inj, ◌≡◌, ◌≢◌, refl, sym, ap, subst, ◌∙◌,
}
use zk_pig.Store.PreflightData.{new_preflight_data_store}
use zk_pig.Config.{
  Text, is_empty, GlobalConfig, ConfigLib, Config, set_default, from_global_config, prepare_config,
  validate_s3_config, given_chain_id, chain_dir, parse_chain_id,
}
use zk_pig.Config.S3.{is_complete, validate_s3_config-ok_iff}
use zk_pig.Service.{ServiceLib, Service, Ending, returned, panicked, start}
use zk_pig.Service.Ready.{Ready, start-Ready}
use zk_pig.Service.New.{NewLib, Made, errors, new_remote_of, new, service_of, started, pre_run}

module _ (L : ConfigLib) (N : NewLib L) where
  from_global_config-preflight_file :
      (g : GlobalConfig) {cfg : Config L}
      → from_global_config L g ≡ ok cfg
      → cfg.preflight_file ≡ chain_dir L g g.preflight_dir
  unfolding from_global_config
  from_global_config-preflight_file g h =
      let (id, _, h1) = >>=-eq-ok _ (given_chain_id L g.chain_id) h in
      let (enc, _, h2) =
        >>=-eq-ok _
          (context "failed to parse content encoding" (L.parse_content_encoding g.content_encoding))
          h1 in
      let (t, _, h3) =
        >>=-eq-ok _ (context "failed to parse content type" (L.parse_content_type g.content_type))
          h2 in
      ap (λ (c : Config L). c.preflight_file) (sym (ok_inj h3))

  prepare_config-preflight_file :
      (g : GlobalConfig) {cfg : Config L}
      → prepare_config L g ≡ ok cfg
      → cfg.preflight_file ≡ chain_dir L g g.preflight_dir
  unfolding prepare_config set_default
  prepare_config-preflight_file g h =
      let (c, e, h1) = >>=-eq-ok _ (from_global_config L g) h in
      ap (λ (c : Config L). c.preflight_file) (sym (ok_inj h1))
      ∙ from_global_config-preflight_file g e

  new-preflight_file :
      (cfg : Config L) {made : Made L N} → new L N cfg ≡ ok made → cfg.preflight_file ≢ none
  unfolding new set_default new_preflight_data_store
  new-preflight_file cfg h missing =
      let (r, _, h1) = >>=-eq-ok _ (new_remote_of L N (set_default L cfg).rpc) h in
      let (p, e, _) =
        >>=-eq-ok _
          (context "failed to create preflight data store"
            (new_preflight_data_store N.new_file_store cfg.preflight_file))
          h1 in
      refused (rw missing at e)
    where
      refused : {A : Type 0} {a : A} → ◌≡◌ {A = Outcome A} panic (ok a) → ⊥
      refused h = cc

  -- The service has the configuration with its defaults, and the RPC client that was made for it.
  new-parts :
      (cfg : Config L) {made : Made L N}
      → new L N cfg ≡ ok made
      → (made.cfg ≡ set_default L cfg)
        × (new_remote_of L N (set_default L cfg).rpc ≡ ok made.remote)
  unfolding new
  new-parts cfg {made} h =
      let (remote, e, h1) = >>=-eq-ok _ (new_remote_of L N c.rpc) h in
      let (same, kept) =
        of remote (context "failed to create preflight data store" preflights)
          (context "failed to create prover inputs store" inputs) h1 in
      (same, e ∙ ap ok (sym kept))
    where
      c : Config L
      c = set_default L cfg

      preflights : Outcome N.FileStore
      preflights = new_preflight_data_store N.new_file_store c.preflight_file

      inputs : Outcome N.CompressStore
      inputs = N.new_compress_store c.input_file c.input_s3 c.content_encoding

      of :
          (r : Option N.Remote) (a : Outcome N.FileStore) (b : Outcome N.CompressStore)
          → (do
            f ← a
            s ← b
            ok (record {
              cfg = c;
              remote = r;
              preflight_data_store = f;
              input_store = s;
              content_type = c.content_type;
            }))
            ≡ ok made
          → (made.cfg ≡ c) × (made.remote ≡ r)
      of r (ok f) (ok s) e = (
        ap (λ (m : Made L N). m.cfg) (sym (ok_inj e)),
        ap (λ (m : Made L N). m.remote) (sym (ok_inj e)),
      )
      of r (ok f) (err x) e = cc
      of r (ok f) panic e = cc
      of r (err x) b e = cc
      of r panic b e = cc

  -- A service that was made without an RPC configuration has no channel of errors.
  errors-new :
      {Channel : Type 0} (errors_of : N.Remote → Option Channel) (cfg : Config L) {made : Made L N}
      → (set_default L cfg).rpc ≡ none
      → new L N cfg ≡ ok made
      → errors errors_of made.remote ≡ none
  unfolding errors
  errors-new errors_of cfg {made} without h =
      let unset : made.remote ≡ none = sym (ok_inj (rw without at (new-parts cfg h).1)) in
      rw unset refl

  -- The chain ID that a text gives, if it is not empty.
  abbrev pub ChainGiven : Text → Option ℤ → Type 0
  ChainGiven t id =
      ((is_empty t ≡ true) × (id ≡ none))
      ⊎ ((is_empty t ≡ false) × (n : ℤ) × (parse_chain_id t ≡ ok n) × (id ≡ some n))

  -- The RPC client that was made for an address, if it is not empty. Defaults are set twice.
  abbrev pub RemoteGiven : Text → Option N.Remote → Type 0
  RemoteGiven url remote =
      ((is_empty url ≡ true) × (remote ≡ none))
      ⊎ ((is_empty url ≡ false)
          × (r : N.Remote) × (N.new_remote (L.rpc_set_default (L.rpc_set_default (L.with_addr url)))
              ≡ ok r)
          × (remote ≡ some r))

  given_chain_id-ChainGiven :
      (t : Text) {id : Option ℤ} → given_chain_id L t ≡ ok id → ChainGiven t id
  given_chain_id-ChainGiven t {id} h = elim (Bool-cases (is_empty t)) [
    | inl empty ↦ inl (empty, sym (ok_inj (rw empty at h)))
    | inr named ↦
        let (n, e, e') = >>=-eq-ok _ (parse_chain_id t) (rw named at h) in
        inr (named, n, e, sym (ok_inj e'))
  ]

  from_global_config-chain :
      (g : GlobalConfig) {cfg : Config L}
      → from_global_config L g ≡ ok cfg
      → (given_chain_id L g.chain_id ≡ ok cfg.chain_id)
        × (cfg.rpc ≡ (if is_empty g.rpc_url then none else some (L.with_addr g.rpc_url)))
  unfolding from_global_config
  from_global_config-chain g h =
      let (id, e, h1) = >>=-eq-ok _ (given_chain_id L g.chain_id) h in
      let (enc, _, h2) =
        >>=-eq-ok _
          (context "failed to parse content encoding" (L.parse_content_encoding g.content_encoding))
          h1 in
      let (t, _, h3) =
        >>=-eq-ok _ (context "failed to parse content type" (L.parse_content_type g.content_type))
          h2 in
      (
        e ∙ ap (λ (c : Config L). ok c.chain_id) (ok_inj h3),
        ap (λ (c : Config L). c.rpc) (sym (ok_inj h3)),
      )

  twice : Option L.RpcConfig → Option L.RpcConfig
  twice none = none
  twice (some c) = some (L.rpc_set_default (L.rpc_set_default c))

  rpc-twice : (c : Config L) → (set_default L (set_default L c)).rpc ≡ twice c.rpc
  unfolding set_default twice
  rpc-twice c = of c.rpc
    where
      of :
          (o : Option L.RpcConfig)
          → (set_default L (set_default L (record c { rpc = o }))).rpc ≡ twice o
      of none = refl
      of (some x) = refl

  with_rpc :
      (c : Config L) {rpc : Option L.RpcConfig} {remote : Option N.Remote}
      → c.rpc ≡ rpc
      → new_remote_of L N (set_default L (set_default L c)).rpc ≡ ok remote
      → new_remote_of L N (twice rpc) ≡ ok remote
  with_rpc c {rpc} {remote} is h =
      subst (λ o. new_remote_of L N o ≡ ok remote) (rpc-twice c ∙ ap twice is) h

  -- What the configuration says of the chain is what the service was made with.
  made-chain :
      (g : GlobalConfig) (cfg : Config L) {made : Made L N}
      → prepare_config L g ≡ ok cfg
      → new L N cfg ≡ ok made
      → ChainGiven g.chain_id made.cfg.chain_id × RemoteGiven g.rpc_url made.remote
  unfolding prepare_config twice
  made-chain g cfg {made} e h =
      let (c, read, e') = >>=-eq-ok _ (from_global_config L g) e in
      let (id, rpc) = from_global_config-chain g read in
      let (same, client) = new-parts cfg h in
      let same_id : made.cfg.chain_id ≡ c.chain_id =
        ap (λ (x : Config L). x.chain_id) same
        ∙ ap (λ (x : Config L). x.chain_id) (sym (ok_inj e')) in
      let made_for : new_remote_of L N (set_default L (set_default L c)).rpc ≡ ok made.remote =
        subst (λ (x : Config L). new_remote_of L N (set_default L x).rpc ≡ ok made.remote)
          (sym (ok_inj e')) client in
      (
        subst (ChainGiven g.chain_id) (sym same_id) (given_chain_id-ChainGiven g.chain_id id),
        of c rpc made_for,
      )
    where
      of :
          (c : Config L)
          → c.rpc ≡ (if is_empty g.rpc_url then none else some (L.with_addr g.rpc_url))
          → new_remote_of L N (set_default L (set_default L c)).rpc ≡ ok made.remote
          → RemoteGiven g.rpc_url made.remote
      of c rpc client = elim (Bool-cases (is_empty g.rpc_url)) [
        | inl empty ↦
            let unset : c.rpc ≡ none = rw empty at rpc in
            inl (empty, sym (ok_inj (with_rpc c unset client)))
        | inr named ↦
            let set : c.rpc ≡ some (L.with_addr g.rpc_url) = rw named at rpc in
            let (r, e, e') = >>=-eq-ok _ _ (with_rpc c set client) in
            inr (named, r, e, sym (ok_inj e'))
      ]

  new-panic :
      (cfg : Config L) {remote : Option N.Remote}
      → cfg.preflight_file ≡ none
      → new_remote_of L N (set_default L cfg).rpc ≡ ok remote
      → new L N cfg ≡ panic
  unfolding new set_default new_preflight_data_store
  new-panic cfg missing made = rw (made, missing) refl

  chain_dir-none : (g : GlobalConfig) (dir : Text) → is_empty dir ≡ true → chain_dir L g dir ≡ none
  chain_dir-none g dir h = rw h refl

module _ (L : ConfigLib) (N : NewLib L) (V : ServiceLib) where
  started-ok :
      (x : Ending V × Service V × V.World) → (started L N V x).0 ≡ ok tt → x.0 ≡ returned none
  started-ok (returned none, s, w) h = refl
  started-ok (returned (some e), s, w) h = cc
  started-ok (panicked, s, w) h = cc

  started_service : (x : Ending V × Service V × V.World) → (started L N V x).1 ≡ x.1
  started_service (returned none, s, w) = refl
  started_service (returned (some e), s, w) = refl
  started_service (panicked, s, w) = refl

  -- What a command runs with when `preRun` accepts the configuration.
  abbrev pub IsAccepted : GlobalConfig → V.World → Made L N → Service V → Type 0
  IsAccepted g w made s =
      (is_complete g.s3 ≡ true)
      × (is_empty g.preflight_dir ≡ false)
      × ChainGiven L N g.chain_id made.cfg.chain_id
      × RemoteGiven L N g.rpc_url made.remote
      × Ready V (service_of L N V made) w s.chain_id

  has_dir :
      (g : GlobalConfig) (cfg : Config L)
      → prepare_config L g ≡ ok cfg
      → cfg.preflight_file ≢ none
      → is_empty g.preflight_dir ≡ false
  has_dir g cfg e some_file = elim (Bool-cases (is_empty g.preflight_dir)) [
    | inl empty ↦ absurd (
        some_file
          (prepare_config-preflight_file L N g e ∙ chain_dir-none L N g g.preflight_dir empty))
    | inr named ↦ named
  ]

  -- When the preparation of a command succeeds, no S3 field is set or all but the key prefix are,
  -- the directory of preflight data is given, the chain ID that the service was made with is the
  -- number that the configuration's text spells, or none if it is empty, an RPC client was made
  -- for the configured URL exactly if it is not empty, and the service has the chain ID that the
  -- node gave after the client was started, if it is one that is started, or without a client the
  -- configured one, which is not nil.
  pub pre_run-IsAccepted :
      (g : GlobalConfig) (block_number : Text) (w : V.World) {made : Made L N} {s : Service V}
      {w' : V.World} {number : Option ℤ}
      → pre_run L N V g block_number w ≡ ok (made, s, w', number)
      → IsAccepted g w made s
  unfolding pre_run
  pre_run-IsAccepted g block_number w {made} {s} {w'} {number} h =
      let (cfg, e, h1) = >>=-eq-ok _ (prepare_config L g) h in
      let (m, e', h2) =
        >>=-eq-ok _ (context "failed to create prover inputs service" (new L N cfg)) h1 in
      let x = start V (service_of L N V m) w in
      let (_, e'', h3) =
        >>=-eq-ok _ (context "failed to start prover inputs service" (started L N V x).0) h2 in
      let (k, _, h4) =
        >>=-eq-ok _ (context "invalid block number" (N.from_block_num_arg block_number)) h3 in
      let (_, valid, h5) = >>=-eq-ok _ (validate_s3_config g.s3) h4 in
      let ready : Ready V (service_of L N V m) w (started L N V x).1.chain_id =
        rw (started_service x) (
          start-Ready V (service_of L N V m) w refl
            (started-ok x (context-eq-ok "failed to start prover inputs service" _ e''))) in
      let chain =
        made-chain L N g cfg e
          (context-eq-ok "failed to create prover inputs service" (new L N cfg) e') in
      subst (λ (q : Made L N × Service V × V.World × Option ℤ). IsAccepted g w q.0 q.1) (ok_inj h5)
        (
          (validate_s3_config-ok_iff g.s3).0 valid,
          has_dir g cfg e (
              new-preflight_file L N cfg
                (context-eq-ok "failed to create prover inputs service" (new L N cfg) e')),
          chain.0,
          chain.1,
          ready,
        )

  -- The number is that of the block that was given.
  pub pre_run_number :
      (g : GlobalConfig) (block_number : Text) (w : V.World) {made : Made L N} {s : Service V}
      {w' : V.World} {number : Option ℤ}
      → pre_run L N V g block_number w ≡ ok (made, s, w', number)
      → N.from_block_num_arg block_number ≡ ok number
  unfolding pre_run
  pre_run_number g block_number w {made} {s} {w'} {number} h =
      let (cfg, e, h1) = >>=-eq-ok _ (prepare_config L g) h in
      let (m, e', h2) =
        >>=-eq-ok _ (context "failed to create prover inputs service" (new L N cfg)) h1 in
      let x = start V (service_of L N V m) w in
      let (_, _, h3) =
        >>=-eq-ok _ (context "failed to start prover inputs service" (started L N V x).0) h2 in
      let (k, read, h4) =
        >>=-eq-ok _ (context "invalid block number" (N.from_block_num_arg block_number)) h3 in
      let (_, _, h5) = >>=-eq-ok _ (validate_s3_config g.s3) h4 in
      context-eq-ok "invalid block number" (N.from_block_num_arg block_number) read
      ∙ ap (λ (q : Made L N × Service V × V.World × Option ℤ). ok q.3) (ok_inj h5)

  made_remote :
      ((c : L.RpcConfig) → (r : N.Remote) × (N.new_remote c ≡ ok r))
      → (rpc : Option L.RpcConfig)
      → (remote : Option N.Remote) × (new_remote_of L N rpc ≡ ok remote)
  made_remote make none = (none, refl)
  made_remote make (some c) = let (r, e) = make c in (some r, rw e refl)

  -- Without a directory for preflight data, every command panics before its service is started, when the
  -- configuration is read and RPC clients can be made.
  pub pre_run-panic :
      (g : GlobalConfig) (block_number : Text) (w : V.World) {cfg : Config L}
      → is_empty g.preflight_dir ≡ true
      → prepare_config L g ≡ ok cfg
      → ((c : L.RpcConfig) → (r : N.Remote) × (N.new_remote c ≡ ok r))
      → pre_run L N V g block_number w ≡ panic
  unfolding pre_run
  pre_run-panic g block_number w {cfg} empty read make =
      let missing =
        prepare_config-preflight_file L N g read ∙ chain_dir-none L N g g.preflight_dir empty in
      let (remote, made) = made_remote make (set_default L cfg).rpc in
      let stops : new L N cfg ≡ panic = new-panic L N cfg missing made in rw (read, stops) refl
