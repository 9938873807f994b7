-- ===== src/Config/Settings.antt =====
-- `UpdateConfigRequest` of redeye_config/src/domain/models.rs and the handler `upsert_config` of
-- redeye_config/src/api/handlers.rs.
pub mod Updates
use red_eye_engine_gateway.Common.{
  ℕ, zero, suc, ◌≤◌, ◌<◌, Bool, true, false, Option, none, some, String, str_eq, leb, if◌then◌else◌,
  unwrap_or, ◌≡◌, ◌≢◌, refl, sym, ap, ◌∙◌, ◌⊎◌, inl, inr, Bool-cases, Result-cases, ℤ, pos, negsuc,
  leb_ℤ, Result, ok, err,
}
use red_eye_engine_gateway.Config.Failures.{ConfigError, not_found, validation}

-- The time of the last update is not kept.
pub record ClientConfig : Type 0 where
  pub tenant_id : String
  pub pii_masking_enabled : Bool
  pub semantic_caching_enabled : Bool
  pub routing_fallback_enabled : Bool
  pub rate_limit_rpm : Option ℤ
  pub preferred_model : Option String

pub record UpdateConfigRequest : Type 0 where
  pub pii_masking_enabled : Option Bool
  pub semantic_caching_enabled : Option Bool
  pub routing_fallback_enabled : Option Bool
  pub rate_limit_rpm : Option ℤ
  pub preferred_model : Option (Option String)

unfoldable pub default_for : String → ClientConfig
default_for tenant_id = record {
  tenant_id = tenant_id;
  pii_masking_enabled = true;
  semantic_caching_enabled = true;
  routing_fallback_enabled = true;
  rate_limit_rpm = none;
  preferred_model = none;
}

-- `str::trim`, and `str::len`, which counts bytes.
pub record TextOps : Type 0 where
  pub trim : String → String
  pub len : String → ℕ

-- The table of configurations, one row for each tenant. What is saved is read again, and no other
-- tenant's row changes.
pub record Repo : Type 1 where
  pub Db : Type 0
  pub get_config : Db → String → Result ConfigError ClientConfig
  pub upsert_config : Db → ClientConfig → Result ConfigError ClientConfig × Db
  pub get_tenant :
      (db : Db) (t : String) (c : ClientConfig) → get_config db t ≡ ok c → c.tenant_id ≡ t
  pub get_upsert :
      (db : Db) (c saved : ClientConfig)
      → (upsert_config db c).0 ≡ ok saved
      → (saved ≡ c) × (get_config (upsert_config db c).1 c.tenant_id ≡ ok c)

-- `Option::or`
abbrev pub or_else {ℓ} : {A : Type ℓ} → Option A → Option A → Option A
or_else none d = d
or_else (some a) d = some a

unfoldable pub apply_to : UpdateConfigRequest → ClientConfig → ClientConfig
apply_to r base = record {
  tenant_id = base.tenant_id;
  pii_masking_enabled = unwrap_or r.pii_masking_enabled base.pii_masking_enabled;
  semantic_caching_enabled = unwrap_or r.semantic_caching_enabled base.semantic_caching_enabled;
  routing_fallback_enabled = unwrap_or r.routing_fallback_enabled base.routing_fallback_enabled;
  rate_limit_rpm = or_else r.rate_limit_rpm base.rate_limit_rpm;
  preferred_model = unwrap_or r.preferred_model base.preferred_model;
}

-- A tenant without a row starts from the defaults.
abbrev pub on_missing : String → ConfigError → Result ConfigError ClientConfig
unfolding default_for
on_missing tenant_id (not_found _) = ok (default_for tenant_id)
on_missing tenant_id e = err e

module _ (text : TextOps) where
  open text use {trim, len}

  abbrev pub validate_rpm : Option ℤ → Result String (Unit {0})
  validate_rpm none = ok tt
  validate_rpm (some rpm) =
      if leb_ℤ rpm (pos 0) then err "`rate_limit_rpm` must be a positive integer" else ok tt

  abbrev pub validate_model : Option (Option String) → Result String (Unit {0})
  validate_model (some (some model)) =
      if str_eq (trim model) ""
      then err
          "`preferred_model` must not be an empty string. Omit the field to preserve the current value, or send `null` to clear it."
      else if leb (len (trim model)) 128
      then ok tt
      else err "`preferred_model` must not exceed 128 characters"
  validate_model _ = ok tt

  -- The limit is tested first.
  unfoldable pub validate : UpdateConfigRequest → Result String (Unit {0})
  validate r = elim (validate_rpm r.rate_limit_rpm) [
    | ok _ ↦ validate_model r.preferred_model
    | err e ↦ err e
  ]

  module _ (repo : Repo) where
    open repo use {Db, get_config, upsert_config as save}

    abbrev pub base_config : Db → String → Result ConfigError ClientConfig
    base_config db tenant_id = elim (get_config db tenant_id) [
      | ok existing ↦ ok existing
      | err e ↦ on_missing tenant_id e
    ]

    -- The push to Redis changes neither the answer nor the database.
    unfoldable pub upsert_config :
        UpdateConfigRequest → String → Db → Result ConfigError ClientConfig × Db
    unfolding validate default_for apply_to
    upsert_config r tenant_id db = elim (validate r) [
      | err e ↦ (err (validation e), db)
      | ok _ ↦ elim (base_config db tenant_id) [
        | err e ↦ (err e, db)
        | ok base ↦ save db (apply_to r base)
      ]
    ]
