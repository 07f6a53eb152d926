-- ===== src/Config/S3.antt =====
-- When `validateS3Config` of cmd/generate.go accepts a configuration.
use zk_pig.Base.{◌++◌, Bool, true, false, not, ◌&&◌, ◌||◌, if◌then◌else◌, ok, ◌≡◌, ◌↔◌, refl}
use zk_pig.Config.{is_empty, S3Config, missing_if, none_missing, validate_s3_config}

-- Nothing is set, or all but the key prefix.
abbrev pub is_complete : S3Config → Bool
is_complete c =
    (is_empty c.bucket
      && is_empty c.key_prefix
      && is_empty c.access_key
      && is_empty c.secret_key
      && is_empty c.region)
    || (not (is_empty c.bucket)
        && not (is_empty c.access_key)
        && not (is_empty c.secret_key)
        && not (is_empty c.region))

-- A configuration is accepted exactly if nothing is set, or all fields are but for the key prefix.
pub validate_s3_config-ok_iff :
    (c : S3Config) → (validate_s3_config c ≡ ok tt) ↔ (is_complete c ≡ true)
unfolding validate_s3_config
validate_s3_config-ok_iff c =
    accepted (is_empty c.bucket) (is_empty c.key_prefix) (is_empty c.access_key)
      (is_empty c.secret_key) (is_empty c.region)
  where
    accepted :
        (b k a s r : Bool)
        → ((if not b || not k || not a || not s || not r
              then none_missing (
                  missing_if b "s3-bucket"
                  ++ missing_if a "access-key"
                  ++ missing_if s "secret-key"
                  ++ missing_if r "region")
              else ok tt)
            ≡ ok tt)
          ↔ (((b && k && a && s && r) || (not b && not a && not s && not r)) ≡ true)
    accepted true true true true true = (λ h. refl, λ h. refl)
    accepted true true true true false = (λ h. cc, λ h. cc)
    accepted true false true true false = (λ h. cc, λ h. cc)
    accepted true true true false r = (λ h. cc, λ h. cc)
    accepted true false true false r = (λ h. cc, λ h. cc)
    accepted true true false s r = (λ h. cc, λ h. cc)
    accepted true false false s r = (λ h. cc, λ h. cc)
    accepted true false true true true = (λ h. cc, λ h. cc)
    accepted false k true s r = (λ h. cc, λ h. cc)
    accepted false k false true r = (λ h. cc, λ h. cc)
    accepted false k false false true = (λ h. cc, λ h. cc)
    accepted false k false false false = (λ h. refl, λ h. refl)
