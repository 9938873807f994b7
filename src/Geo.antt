-- ===== src/Geo.antt =====
-- redeye_compliance/src/api/middleware/geo_routing.rs: the region of a request, the endpoint that
-- serves it, and the lock on requests from India.
pub mod Lock
mod Tests
use red_eye_engine_gateway.Common.{
  Bool, true, false, Option, none, some, List, [], ◌∷◌, String, str_eq, codes, is_prefix, contains,
  any, ◌&&◌, ◌||◌, if◌then◌else◌, unwrap_or, Result, ok, err,
}

pub record SharedConfig : Type 0 where
  pub default_endpoint : String
  pub eu_endpoint : String
  pub us_endpoint : String
  pub in_endpoint : String

pub record ResidencyRule : Type 0 where
  pub region : String
  pub regional_endpoint : String
  pub strict_isolation : Bool

-- A request's headers by name: the value, if the header is there and is text.
abbrev pub Headers : Type 0
Headers = String → Option String

abbrev pub us_only_models : List String
us_only_models = "o1-preview" ∷ "o1-mini" ∷ []

abbrev pub starts_with : String → String → Bool
starts_with p s = is_prefix (codes p) (codes s)

unfoldable pub get_region_for_ip : String → String
get_region_for_ip ip =
    if starts_with "192.168.1" ip || starts_with "10." ip
    then "EU"
    else if starts_with "172." ip
    then "US"
    else if starts_with "103." ip || (starts_with "49." ip || starts_with "223." ip)
    then "IN"
    else "GLOBAL"

unfoldable pub build_residency_rule : String → SharedConfig → ResidencyRule
build_residency_rule region config =
    if str_eq region "EU"
    then record { region = "EU"; regional_endpoint = config.eu_endpoint; strict_isolation = true }
    else if str_eq region "US"
    then record { region = "US"; regional_endpoint = config.us_endpoint; strict_isolation = false }
    else if str_eq region "IN"
    then record { region = "IN"; regional_endpoint = config.in_endpoint; strict_isolation = true }
    else record {
      region = "GLOBAL";
      regional_endpoint = config.default_endpoint;
      strict_isolation = false;
    }

abbrev pub is_us_only : String → Bool
is_us_only model = any (λ m. contains (codes m) (codes model)) us_only_models

-- What the middleware hands on and adds to the response.
pub record Routed : Type 0 where
  pub rule : ResidencyRule
  pub routed_region : String
  pub allowed_regions : Option String

-- The decision for a region. An error is a violation of the region lock.
unfoldable pub route : SharedConfig → String → Bool → Result String Routed
route config region us_only =
    let rule = build_residency_rule region config in
    if str_eq region "IN" && us_only
    then err
        "Model is restricted to US infrastructure and cannot be accessed from region IN (DPDP compliance)"
    else ok (record {
      rule = rule;
      routed_region = rule.region;
      allowed_regions = if str_eq region "IN" || str_eq rule.region "IN" then some "in" else none;
    })

-- `to_uppercase` is Rust's.
module _ (to_uppercase : String → String) where
  -- A header that is there and not empty, in upper case; otherwise what comes next.
  abbrev pub region_header : Option String → String → String
  region_header none next = next
  region_header (some s) next = if str_eq s "" then next else to_uppercase s

  unfoldable pub extract_region : Headers → String
  unfolding get_region_for_ip
  extract_region headers = region_header (headers "x-user-region") (
      region_header (headers "x-enforce-region")
        (get_region_for_ip (unwrap_or (headers "x-forwarded-for") "unknown")))

  abbrev pub is_locked_model : Option String → Bool
  is_locked_model none = false
  is_locked_model (some model) = is_us_only model

  unfoldable pub geo_routing_middleware : SharedConfig → Headers → Result String Routed
  unfolding route extract_region
  geo_routing_middleware config headers =
      route config (extract_region headers) (is_locked_model (headers "x-model-requested"))
