-- ===== src/Config/Loaded.antt =====
-- What a configuration that was loaded has in its fields, as viper documents it.
use mathlib.Core.Path.{fun_ext}
use text.Mathlib.Text.{◌==◌ as ◌=s=◌}
use zk_pig.Base.{
  Option, none, some, List, [], ◌∷◌, ◌++◌, Bool, true, false, if◌then◌else◌, Bool-cases, inl, inr,
  String, codes, Outcome, ok, err, panic, ◌>>=◌, >>=-eq-ok, context-eq-ok, ◌≡◌, refl, subst, ok_inj,
  ap, sym, ◌∙◌,
}
use zk_pig.Config.{Text, GlobalConfig}
use zk_pig.Config.Flags.{
  Flag, FlagLib, add_each, chain_flags, aws_flags, store_flags, add_chain_flags, add_aws_flags,
  add_store_flags, chain_id_flag, chain_rpc_url_flag, data_dir_flag, preflight_dir_flag,
  inputs_dir_flag, content_type_flag, content_encoding_flag, aws_s3_bucket_flag,
  aws_s3_bucket_key_prefix_flag, aws_s3_access_key_flag, aws_s3_secret_key_flag, aws_s3_region_flag,
}
use zk_pig.Config.Load.{
  ViperLib, new_config, config_keys, after_merge, merge_file, merge_files, unmarshalled, load,
}

-- The first value that is given, or else the default.
abbrev pub given_or : Option Text → Text → Text
given_or none default = default
given_or (some t) default = t

abbrev pub default_text : Option String → Text
default_text none = []
default_text (some t) = codes t

-- The value of a flag: that of the command line, or else of the environment, or else of the files.
abbrev pub resolved :
    (String → Option Text) → (String → Option Text) → (String → Option Text) → Flag → Text
resolved arg env file f =
    given_or (arg f.name)
      (given_or (env f.env) (given_or (file f.viper_key) (default_text f.default_value)))

-- The value that comes last, of two.
abbrev pub latest : Option Text → Option Text → Option Text
latest (some t) old = some t
latest none old = old

-- The value of a key in the last of the files that has one, or else the value from before.
abbrev pub in_files : (Text → String → Option Text) → List Text → String → Option Text → Option Text
in_files in_file [] key old = old
in_files in_file (path ∷ paths) key old = in_files in_file paths key (latest (in_file path key) old)

-- Every field has the value of its key.
abbrev pub Fields : (String → Text) → GlobalConfig → List (String × (GlobalConfig → Text)) → Type 0
Fields value cfg [] = Unit {0}
Fields value cfg ((key, field) ∷ fields) = (field cfg ≡ value key) × Fields value cfg fields

-- viper on a command line and an environment: a flag that was added is bound to its key, until another
-- flag takes the key.
pub record IsViper {F : FlagLib} (Y : ViperLib F) (arg env : String → Option Text) : Type 1 where
  pub Bound : F.Viper → Flag → Type 0
  pub file_value : F.Viper → String → Option Text
  pub get_string : F.Viper → String → Text
  pub add_string-Bound :
      (f : Flag) (vf : F.Viper × F.FlagSet) {vf' : F.Viper × F.FlagSet}
      → F.add_string f vf ≡ ok vf'
      → Bound vf'.0 f
  pub add_string_keeps :
      (f g : Flag) (vf : F.Viper × F.FlagSet) {vf' : F.Viper × F.FlagSet}
      → F.add_string f vf ≡ ok vf'
      → (g.viper_key =s= f.viper_key) ≡ false
      → Bound vf.0 g
      → Bound vf'.0 g
  pub merge_file_keeps :
      (path : Text) (v : F.Viper) (f : Flag) → Bound v f → Bound (merge_file Y path v).1 f
  -- The value that the YAML file at a path has for a key. The values of a file that is merged replace
  -- those of the files before it.
  pub in_yaml : Text → String → Option Text
  pub file_value-merge_file :
      (path : Text) (v : F.Viper) {v' : F.Viper}
      → merge_file Y path v ≡ (ok tt, v')
      → (key : String) → file_value v' key ≡ latest (in_yaml path key) (file_value v key)
  pub get_string-Bound :
      (v : F.Viper) (f : Flag)
      → Bound v f
      → get_string v f.viper_key ≡ resolved arg env (file_value v) f
  pub unmarshal-Fields :
      (v : F.Viper) {cfg : GlobalConfig}
      → Y.unmarshal v new_config ≡ ok cfg
      → Fields (get_string v) cfg config_keys

-- The fields of the configuration that the flags with one text set, by the values of the flags.
abbrev pub Reads : (Flag → Text) → GlobalConfig → Type 0
Reads value cfg =
    (cfg.chain_id ≡ value chain_id_flag)
    × (cfg.rpc_url ≡ value chain_rpc_url_flag)
    × (cfg.data_dir ≡ value data_dir_flag)
    × (cfg.preflight_dir ≡ value preflight_dir_flag)
    × (cfg.inputs_dir ≡ value inputs_dir_flag)
    × (cfg.content_type ≡ value content_type_flag)
    × (cfg.content_encoding ≡ value content_encoding_flag)
    × (cfg.s3.bucket ≡ value aws_s3_bucket_flag)
    × (cfg.s3.key_prefix ≡ value aws_s3_bucket_key_prefix_flag)
    × (cfg.s3.access_key ≡ value aws_s3_access_key_flag)
    × (cfg.s3.secret_key ≡ value aws_s3_secret_key_flag)
    × (cfg.s3.region ≡ value aws_s3_region_flag)

-- No flag of a list has the key of the flag, or that of a flag behind it.
fresh : Flag → List Flag → Bool
fresh g [] = true
fresh g (f ∷ fs) = if g.viper_key =s= f.viper_key then false else fresh g fs

distinct : List Flag → Bool
unfolding fresh
distinct [] = true
distinct (f ∷ fs) = if fresh f fs then distinct fs else false

abbrev all_flags : List Flag
all_flags = chain_flags ++ (aws_flags ++ store_flags)

all_flags-distinct : distinct all_flags ≡ true
unfolding distinct
all_flags-distinct = refl

module _ {F : FlagLib} (Y : ViperLib F) {arg env : String → Option Text}
    (I : IsViper Y arg env) where
  abbrev AllBound : F.Viper → List Flag → Type 0
  AllBound v [] = Unit {0}
  AllBound v (f ∷ fs) = I.Bound v f × AllBound v fs

  add_each_keeps :
      (fs : List Flag) (g : Flag) (vf : F.Viper × F.FlagSet) {vf' : F.Viper × F.FlagSet}
      → add_each F fs vf ≡ ok vf'
      → fresh g fs ≡ true
      → I.Bound vf.0 g
      → I.Bound vf'.0 g
  unfolding add_each fresh
  add_each_keeps [] g vf h new b = subst (λ o. I.Bound o.0 g) (ok_inj h) b
  add_each_keeps (f ∷ fs) g vf h new b =
      let (vf1, added, h') = >>=-eq-ok _ (F.add_string f vf) h in
      elim (Bool-cases (g.viper_key =s= f.viper_key)) [
        | inl e ↦ cc (rw e at new)
        | inr e ↦ add_each_keeps fs g vf1 h' (rw e at new) (I.add_string_keeps f g vf added e b)
      ]

  add_each-AllBound :
      (fs : List Flag) (vf : F.Viper × F.FlagSet) {vf' : F.Viper × F.FlagSet}
      → add_each F fs vf ≡ ok vf'
      → distinct fs ≡ true
      → AllBound vf'.0 fs
  unfolding add_each distinct
  add_each-AllBound [] vf h d = tt
  add_each-AllBound (f ∷ fs) vf h d =
      let (vf1, added, h') = >>=-eq-ok _ (F.add_string f vf) h in
      elim (Bool-cases (fresh f fs)) [
        | inl e ↦ (
          add_each_keeps fs f vf1 h' e (I.add_string-Bound f vf added),
          add_each-AllBound fs vf1 h' (rw e at d),
        )
        | inr e ↦ cc (rw e at d)
      ]

  add_each-append :
      (fs gs : List Flag) (vf : F.Viper × F.FlagSet)
      → add_each F (fs ++ gs) vf ≡ (add_each F fs vf >>= add_each F gs)
  unfolding add_each
  add_each-append [] gs vf = refl
  add_each-append (f ∷ fs) gs vf = of (F.add_string f vf) (add_each-append fs gs)
    where
      of :
          (o : Outcome (F.Viper × F.FlagSet))
          → ((vf : F.Viper × F.FlagSet)
              → add_each F (fs ++ gs) vf ≡ (add_each F fs vf >>= add_each F gs))
          → (o >>= add_each F (fs ++ gs)) ≡ ((o >>= add_each F fs) >>= add_each F gs)
      of (ok vf1) ih = ih vf1
      of (err e) ih = refl
      of panic ih = refl

  merge_files_keeps :
      (paths : List Text) (v : F.Viper) (f : Flag)
      → I.Bound v f
      → I.Bound (merge_files Y paths v).1 f
  unfolding merge_files
  merge_files_keeps [] v f b = b
  merge_files_keeps (path ∷ paths) v f b =
      of (merge_file Y path v) (I.merge_file_keeps path v f b) (merge_files_keeps paths)
    where
      of :
          (m : Outcome (Unit {0}) × F.Viper)
          → I.Bound m.1 f
          → ((v : F.Viper) (f : Flag) → I.Bound v f → I.Bound (merge_files Y paths v).1 f)
          → I.Bound (after_merge Y m (merge_files Y paths)).1 f
      of (ok u, v') b rest = rest v' f b
      of (err e, v') b rest = b
      of (panic, v') b rest = b

  AllBound-merge_files :
      (paths : List Text) (v : F.Viper) (fs : List Flag)
      → AllBound v fs
      → AllBound (merge_files Y paths v).1 fs
  AllBound-merge_files paths v [] b = tt
  AllBound-merge_files paths v (f ∷ fs) b =
      (merge_files_keeps paths v f b.0, AllBound-merge_files paths v fs b.1)

  -- The flags of the three groups that take a text, in a row.
  abbrev pub add_text_flags : F.Viper × F.FlagSet → Outcome (F.Viper × F.FlagSet)
  add_text_flags vf = do
    vf1 ← add_chain_flags F vf
    vf2 ← add_aws_flags F vf1
    add_store_flags F vf2

  add_text_flags-AllBound :
      (vf : F.Viper × F.FlagSet) {vf' : F.Viper × F.FlagSet}
      → add_text_flags vf ≡ ok vf'
      → AllBound vf'.0 all_flags
  unfolding add_chain_flags add_aws_flags add_store_flags
  add_text_flags-AllBound vf {vf'} h =
      let (vf1, e1, h1) = >>=-eq-ok _ (add_each F chain_flags vf) h in
      let (vf2, e2, e3) = >>=-eq-ok _ (add_each F aws_flags vf1) h1 in
      let rest : add_each F (aws_flags ++ store_flags) vf1 ≡ ok vf' =
        add_each-append aws_flags store_flags vf1
        ∙ ap (λ o. o >>= add_each F store_flags) e2
        ∙ e3 in
      let whole : add_each F all_flags vf ≡ ok vf' =
        add_each-append chain_flags (aws_flags ++ store_flags) vf
        ∙ ap (λ o. o >>= add_each F (aws_flags ++ store_flags)) e1
        ∙ rest in
      add_each-AllBound all_flags vf whole all_flags-distinct

  file_value-merge_files :
      (paths : List Text) (v : F.Viper) {v' : F.Viper}
      → merge_files Y paths v ≡ (ok tt, v')
      → (key : String) → I.file_value v' key ≡ in_files I.in_yaml paths key (I.file_value v key)
  unfolding merge_files
  file_value-merge_files [] v h key = ap (λ v. I.file_value v key) (sym (ap (λ p. p.1) h))
  file_value-merge_files (path ∷ paths) v {v'} h key =
      of (merge_file Y path v) refl (λ v1 h'. file_value-merge_files paths v1 h' key) h
    where
      of :
          (m : Outcome (Unit {0}) × F.Viper)
          → merge_file Y path v ≡ m
          → ((v1 : F.Viper)
              → merge_files Y paths v1 ≡ (ok tt, v')
              → I.file_value v' key ≡ in_files I.in_yaml paths key (I.file_value v1 key))
          → after_merge Y m (merge_files Y paths) ≡ (ok tt, v')
          → I.file_value v' key ≡ in_files I.in_yaml (path ∷ paths) key (I.file_value v key)
      of (ok u, v1) e rest h' =
          rest v1 h' ∙ ap (in_files I.in_yaml paths key) (I.file_value-merge_file path v e key)
      of (err x, v1) e rest h' = cc
      of (panic, v1) e rest h' = cc

  -- A load that succeeds has merged all files, and has read the viper that they were merged into.
  load-eq-ok :
      (config : GlobalConfig) (v : F.Viper) {cfg : GlobalConfig} {v' : F.Viper}
      → load Y config v ≡ (ok cfg, v')
      → (merge_files Y (Y.get_string_slice v "config") v ≡ (ok tt, v'))
        × (Y.unmarshal v' config ≡ ok cfg)
  unfolding load
  load-eq-ok config v {cfg} {v'} h = of (merge_files Y (Y.get_string_slice v "config") v) h
    where
      of :
          (m : Outcome (Unit {0}) × F.Viper)
          → unmarshalled Y config m ≡ (ok cfg, v')
          → (m ≡ (ok tt, v')) × (Y.unmarshal v' config ≡ ok cfg)
      of (ok u, v1) h =
          let same : v1 ≡ v' = ap (λ p. p.1) h in
          (
            ap (λ x. (ok tt, x)) same,
            subst (λ v. Y.unmarshal v config ≡ ok cfg) same (context-eq-ok _ _ (ap (λ p. p.0) h)),
          )
      of (err e, v1) h = cc
      of (panic, v1) h = cc

  pub load-Reads :
      (vf : F.Viper × F.FlagSet) {vf' : F.Viper × F.FlagSet} {cfg : GlobalConfig} {v' : F.Viper}
      → add_text_flags vf ≡ ok vf'
      → load Y new_config vf'.0 ≡ (ok cfg, v')
      → Reads
          (resolved arg env (λ key.
            in_files I.in_yaml (Y.get_string_slice vf'.0 "config") key (I.file_value vf'.0 key)))
          cfg
        × (cfg.log_level ≡ I.get_string v' "log.level")
        × (cfg.log_format ≡ I.get_string v' "log.format")
  load-Reads vf {vf'} {cfg} {v'} added loaded =
      let (all_merged, read) = load-eq-ok new_config vf'.0 loaded in
      let merged =
        AllBound-merge_files (Y.get_string_slice vf'.0 "config") vf'.0 all_flags
          (add_text_flags-AllBound vf added) in
      let bound : AllBound v' all_flags =
        subst (λ v. AllBound v all_flags) (ap (λ m. m.1) all_merged) merged in
      let values =
        fun_ext (file_value-merge_files (Y.get_string_slice vf'.0 "config") vf'.0 all_merged) in
      let at = I.get_string-Bound v' in
      let (
        id,
        (
          url,
          (
            bucket,
            (
              region,
              (access, (secret, (prefix, (dir, (preflight, (inputs, (type, (encoding, _)))))))),
            ),
          ),
        ),
      ) =
        bound in
      let (
        id',
        (
          url',
          (
            format',
            (
              level',
              (
                dir',
                (
                  preflight',
                  (
                    type',
                    (
                      encoding',
                      (inputs', (region', (access', (secret', (bucket', (prefix', _)))))),
                    ),
                  ),
                ),
              ),
            ),
          ),
        ),
      ) =
        I.unmarshal-Fields v' read in
      (
        subst (λ file. Reads (resolved arg env file) cfg) values
            (
              id' ∙ at chain_id_flag id,
              url' ∙ at chain_rpc_url_flag url,
              dir' ∙ at data_dir_flag dir,
              preflight' ∙ at preflight_dir_flag preflight,
              inputs' ∙ at inputs_dir_flag inputs,
              type' ∙ at content_type_flag type,
              encoding' ∙ at content_encoding_flag encoding,
              bucket' ∙ at aws_s3_bucket_flag bucket,
              prefix' ∙ at aws_s3_bucket_key_prefix_flag prefix,
              access' ∙ at aws_s3_access_key_flag access,
              secret' ∙ at aws_s3_secret_key_flag secret,
              region' ∙ at aws_s3_region_flag region,
            ),
        level',
        format',
      )
