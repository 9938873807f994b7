-- ===== src/Config/Settings/Updates.antt =====
-- What an accepted update leaves in the database.
use red_eye_engine_gateway.Common.{
  true, false, Option, none, some, String, str_eq, leb, ◌≡◌, ℤ, pos, leb_ℤ, ok,
}
use red_eye_engine_gateway.Config.Settings.{
  ClientConfig, UpdateConfigRequest, TextOps, Repo, apply_to, base_config,
}

module _ (text : TextOps) where
  open text use {trim, len}

  abbrev pub IsValidRpm : Option ℤ → Type 0
  IsValidRpm none = Unit
  IsValidRpm (some rpm) = leb_ℤ rpm (pos 0) ≡ false

  abbrev pub IsValidModel : Option String → Type 0
  IsValidModel none = Unit
  IsValidModel (some m) = (str_eq (trim m) "" ≡ false) × (leb (len (trim m)) 128 ≡ true)

  -- A stored configuration keeps to the limits that are checked on requests.
  abbrev pub IsValid : ClientConfig → Type 0
  IsValid c = IsValidRpm c.rate_limit_rpm × IsValidModel c.preferred_model

  module _ (repo : Repo) where
    -- What an update that is accepted has saved.
    abbrev pub IsSaved : UpdateConfigRequest → String → repo.Db → repo.Db → ClientConfig → Type 0
    IsSaved r tenant_id db db' saved =
        (base : ClientConfig) × (base_config text repo db tenant_id ≡ ok base)
        × (saved ≡ apply_to r base)
        × (repo.get_config db' tenant_id ≡ ok saved)
        × (IsValid base → IsValid saved)
