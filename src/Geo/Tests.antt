-- ===== src/Geo/Tests.antt =====
-- Requests from India, by header and by address.
use red_eye_engine_gateway.Common.{true, false, none, some, str_eq, ◌≡◌, refl, OnOk, if◌then◌else◌}
use red_eye_engine_gateway.Geo.{
  SharedConfig, Headers, get_region_for_ip, extract_region, geo_routing_middleware,
}
use red_eye_engine_gateway.Geo.Lock.{IsLocked, is_ok, geo_routing_middleware-IsLocked}

indian_address : get_region_for_ip "103.5.1.1" ≡ "IN"
unfolding get_region_for_ip
indian_address = refl

abbrev endpoints : SharedConfig
endpoints = record {
  default_endpoint = "https://api";
  eu_endpoint = "https://eu";
  us_endpoint = "https://us";
  in_endpoint = "https://in";
}

abbrev headers : Headers
headers name = if str_eq name "x-user-region" then some "IN" else none

geo_routing_middleware-IsLocked_example :
    (is_ok (geo_routing_middleware (λ s. s) endpoints headers) ≡ true)
    × OnOk (IsLocked endpoints true false) (geo_routing_middleware (λ s. s) endpoints headers)
unfolding extract_region
geo_routing_middleware-IsLocked_example = geo_routing_middleware-IsLocked (λ s. s) endpoints headers
