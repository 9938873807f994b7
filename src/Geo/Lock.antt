-- ===== src/Geo/Lock.antt =====
-- The lock on the region India.
use red_eye_engine_gateway.Common.{
  Bool, true, false, not, none, some, String, str_eq, eq_iff, ◌&&◌, ◌≡◌, refl, Result, ok, err,
  OnOk, Bool-cases, inl, inr,
}
use red_eye_engine_gateway.Geo.{
  SharedConfig, Headers, Routed, build_residency_rule, extract_region, route, is_locked_model,
  geo_routing_middleware,
}

-- What a routed request has: served in India with strict isolation and marked so, and for no
-- model that is restricted to the US, if its region is India; never marked so otherwise.
abbrev pub IsLocked : SharedConfig → Bool → Bool → Routed → Type 0
IsLocked config true us_only r =
    (us_only ≡ false)
    × (r.rule.regional_endpoint ≡ config.in_endpoint)
    × (r.rule.strict_isolation ≡ true)
    × (r.routed_region ≡ "IN")
    × (r.allowed_regions ≡ some "in")
IsLocked config false us_only r = (str_eq r.rule.region "IN" ≡ false) × (r.allowed_regions ≡ none)

abbrev pub is_ok : Result String Routed → Bool
is_ok (ok _) = true
is_ok (err _) = false

in_india :
    (config : SharedConfig) (us_only : Bool)
    → (is_ok (route config "IN" us_only) ≡ not us_only)
      × OnOk (IsLocked config true us_only) (route config "IN" us_only)
unfolding route build_residency_rule
in_india config true = (refl, tt)
in_india config false = (refl, (refl, refl, refl, refl, refl))

rule_elsewhere :
    (region : String) (config : SharedConfig)
    → str_eq region "IN" ≡ false
    → str_eq (build_residency_rule region config).region "IN" ≡ false
unfolding build_residency_rule
rule_elsewhere region config h = elim (Bool-cases (str_eq region "EU")) [
  | inl e ↦ rw e refl
  | inr e ↦ elim (Bool-cases (str_eq region "US")) [
    | inl f ↦ rw (e, f) refl
    | inr f ↦ rw (e, f, h) refl
  ]
]

abbrev Holds : SharedConfig → Bool → Bool → Result String Routed → Type 0
Holds config indian us_only result =
    (is_ok result ≡ not (indian && us_only)) × OnOk (IsLocked config indian us_only) result

route-Holds :
    (config : SharedConfig) (region : String) (us_only : Bool)
    → Holds config (str_eq region "IN") us_only (route config region us_only)
unfolding route
route-Holds config region us_only = elim (Bool-cases (str_eq region "IN")) [
  | inl e ↦ rw ((eq_iff region "IN").0 e) (in_india config us_only)
  | inr e ↦ rw (e, rule_elsewhere region config e) (refl, (refl, refl))
]

-- A request is refused exactly if its region is India and its model is restricted to the US; any
-- other request from India is served by the Indian endpoint in strict isolation, and marked for
-- India; and a request from elsewhere is neither routed to the region India nor marked for it.
pub geo_routing_middleware-IsLocked :
    (to_uppercase : String → String) (config : SharedConfig) (headers : Headers)
    → let indian = str_eq (extract_region to_uppercase headers) "IN" in
      let us_only = is_locked_model to_uppercase (headers "x-model-requested") in
      let result = geo_routing_middleware to_uppercase config headers in
      (is_ok result ≡ not (indian && us_only)) × OnOk (IsLocked config indian us_only) result
unfolding geo_routing_middleware
geo_routing_middleware-IsLocked to_uppercase config headers =
    route-Holds config (extract_region to_uppercase headers)
      (is_locked_model to_uppercase (headers "x-model-requested"))
