-- ===== src/Cmd/Root.antt =====
-- src/cmd/root.go: the flags of the root command, and its persistent hook, which loads the configuration
-- and makes the logger.
use zk_pig.Base.{
  Option, String, Outcome, ok, ◌>>=◌, >>=-eq-ok, context, context-eq-ok, ok_inj, ◌≡◌, ap, subst,
}
use zk_pig.Config.{Text, GlobalConfig}
use zk_pig.Config.Flags.{
  FlagLib, add_config_file_flag, add_chain_flags, add_aws_flags, add_store_flags,
}
use zk_pig.Config.Load.{ViperLib, new_config, load}
use zk_pig.Config.Loaded.{IsViper, Reads, in_files, resolved, load-Reads}

-- Logging of go-utils.
pub record LogLib (F : FlagLib) : Type 1 where
  pub add_flags : F.Viper × F.FlagSet → Outcome (F.Viper × F.FlagSet)
  pub Level : Type 0
  pub Format : Type 0
  pub Logger : Type 0
  pub parse_level : Text → Outcome Level
  pub parse_format : Text → Outcome Format
  pub new_logger : Level → Format → Outcome Logger

module _ {F : FlagLib} (Y : ViperLib F) (K : LogLib F) where
  -- The persistent flags of `NewZkPigCommand`.
  unfoldable pub add_persistent_flags : F.Viper × F.FlagSet → Outcome (F.Viper × F.FlagSet)
  add_persistent_flags vf = do
    vf1 ← K.add_flags vf
    vf2 ← add_config_file_flag F vf1
    vf3 ← add_chain_flags F vf2
    vf4 ← add_aws_flags F vf3
    add_store_flags F vf4

  unfoldable pub logger_of : Outcome GlobalConfig → Outcome (GlobalConfig × K.Logger)
  logger_of loaded = do
    config ← context "failed to load configuration" loaded
    level ← K.parse_level config.log_level
    format ← K.parse_format config.log_format
    logger ← context "failed to create logger" (K.new_logger level format)
    ok (config, logger)

  -- `PersistentPreRunE`: the configuration and the logger that the commands run with.
  unfoldable pub persistent_pre_run :
      GlobalConfig → F.Viper → Outcome (GlobalConfig × K.Logger) × F.Viper
  unfolding load logger_of
  persistent_pre_run config v = let (loaded, v') = load Y config v in (logger_of loaded, v')

  logger_of-eq-ok :
      (loaded : Outcome GlobalConfig) {config : GlobalConfig} {logger : K.Logger}
      → logger_of loaded ≡ ok (config, logger)
      → (loaded ≡ ok config)
        × (level : K.Level) × (format : K.Format) × (K.parse_level config.log_level ≡ ok level)
        × (K.parse_format config.log_format ≡ ok format)
        × (K.new_logger level format ≡ ok logger)
  unfolding logger_of
  logger_of-eq-ok loaded {config} {logger} h =
      let (c, e, h1) = >>=-eq-ok _ (context "failed to load configuration" loaded) h in
      let (level, l, h2) = >>=-eq-ok _ (K.parse_level c.log_level) h1 in
      let (format, f, h3) = >>=-eq-ok _ (K.parse_format c.log_format) h2 in
      let (made, m, h4) =
        >>=-eq-ok _ (context "failed to create logger" (K.new_logger level format)) h3 in
      let same : c ≡ config = ap (λ p. p.0) (ok_inj h4) in
      (
        subst (λ x. loaded ≡ ok x) same (context-eq-ok _ loaded e),
        level,
        format,
        subst (λ (x : GlobalConfig). K.parse_level x.log_level ≡ ok level) same l,
        subst (λ (x : GlobalConfig). K.parse_format x.log_format ≡ ok format) same f,
        subst (λ x. K.new_logger level format ≡ ok x) (ap (λ p. p.1) (ok_inj h4))
            (context-eq-ok _ _ m),
      )

  -- When the persistent hook of a command line whose flags were added succeeds, each field of the
  -- configuration that one of the chain, store and AWS flags sets has the value of its own flag: what the
  -- command line gives, or else the environment, or else the last of the configuration files that has its
  -- key, or what was read before them, or else the flag's default; the level and the format of logging
  -- are what viper has for their keys; and the logger is made from them.
  pub persistent_pre_run-Reads :
      {arg env : String → Option Text} (I : IsViper Y arg env) (vf : F.Viper × F.FlagSet)
      {vf' : F.Viper × F.FlagSet} {config : GlobalConfig} {logger : K.Logger} {v' : F.Viper}
      → add_persistent_flags vf ≡ ok vf'
      → persistent_pre_run new_config vf'.0 ≡ (ok (config, logger), v')
      → Reads
          (resolved arg env (λ key.
            in_files I.in_yaml (Y.get_string_slice vf'.0 "config") key (I.file_value vf'.0 key)))
          config
        × (config.log_level ≡ I.get_string v' "log.level")
        × (config.log_format ≡ I.get_string v' "log.format")
        × (level : K.Level) × (format : K.Format) × (K.parse_level config.log_level ≡ ok level)
        × (K.parse_format config.log_format ≡ ok format)
        × (K.new_logger level format ≡ ok logger)
  unfolding persistent_pre_run add_persistent_flags
  persistent_pre_run-Reads I vf {vf'} {config} {v'} added h =
      let (vf1, _, h1) = >>=-eq-ok _ (K.add_flags vf) added in
      let (vf2, _, h2) = >>=-eq-ok _ (add_config_file_flag F vf1) h1 in
      let (loaded, level, format, l, f, made) =
        logger_of-eq-ok (load Y new_config vf'.0).0 (ap (λ p. p.0) h) in
      let whole : load Y new_config vf'.0 ≡ (ok config, v') = λ i. (loaded i, ap (λ p. p.1) h i) in
      let (fields, is_level, is_format) = load-Reads Y I vf2 h2 whole in
      (fields, is_level, is_format, level, format, l, f, made)
