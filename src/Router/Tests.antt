-- ===== src/Router/Tests.antt =====
-- The router on concrete keys, breakers and providers.
use red_eye_engine_gateway.Common.{
  ℕ, ◌+◌, ◌≤◌, arith, Option, false, none, some, List, [], ◌∷◌, String, str_eq, ◌≡◌, refl, ℤ, pos,
  negsuc, Result, ok, err, if◌then◌else◌,
}
use red_eye_engine_gateway.Json.{null}
use red_eye_engine_gateway.Errors.{GatewayError, no_active_keys, upstream_unreachable}
use red_eye_engine_gateway.Chat.OpenAi.{Serde}
use red_eye_engine_gateway.Router.Keys.{KeyConfig, RoutingMap, CircuitBreaker, is_open}
use red_eye_engine_gateway.Router.Request.{
  Body, AuthScheme, Codec, openai, build_provider_request, get_provider_config,
}
use red_eye_engine_gateway.Router.Strategy.{default}
use red_eye_engine_gateway.Router.Upstream.{
  Outcome, response, unreachable, Upstream, Prepared, prep_upstream_request,
  execute_upstream_request,
}
use red_eye_engine_gateway.Router.Selection.{IsSelected, prep_upstream_request-IsSelected}
use red_eye_engine_gateway.Router.Fallback.{execute_upstream_request-IsRun}
use red_eye_engine_gateway.Router.Fallback.Plan.{IsRun, blamed_first, plan}
use red_eye_engine_gateway.Router.Exhaustion.{execute_upstream_request_exhausts}

router : Unit {0}
unfolding prep_upstream_request execute_upstream_request build_provider_request get_provider_config
router = tt

abbrev plain_serde : Serde
plain_serde = record {
  from_str = λ s. some null;
  to_string = λ v. "null";
  from_value = λ v. none;
  to_value = λ r. none;
}

abbrev plain_codec : Codec
plain_codec = record {
  to_lowercase = λ s. s;
  from_slice = λ b. some null;
  extract_model = λ b. some (some "gpt-4");
  extract_stream = λ b. some none;
  serde = plain_serde;
  anthropic_value = λ r. none;
}

abbrev find : List (String × ℕ) → String → Option ℕ
find [] k = none
find ((j, t) ∷ s) k = if str_eq j k then some t else find s k

-- A breaker that remembers when each alias was put in.
abbrev list_breaker : CircuitBreaker
list_breaker = record {
  Store = List (String × ℕ);
  opened = find;
  trip = λ s now k. (k, now) ∷ s;
  opened-trip = λ s now k j. refl;
}

-- Providers that answer by a script, each after a second.
abbrev answer_next : List Outcome × ℕ → Outcome × (List Outcome × ℕ)
answer_next ([], now) = (unreachable false, ([], now + 1000))
answer_next (o ∷ os, now) = (o, (os, now + 1000))

later : (net : List Outcome × ℕ) → net.1 ≤ (answer_next net).1.1
later ([], now) = omega arith
later (o ∷ os, now) = omega arith

abbrev script : Upstream
script = record {
  Net = List Outcome × ℕ;
  send = λ request net. answer_next net;
  clock = λ net. net.1;
  clock_mono = λ request net. later net;
}

abbrev key : String → ℤ → KeyConfig
key a p = record { key_alias = a; api_key = "sk"; priority = p; weight = pos 1 }

abbrev routing : RoutingMap
routing =
    (
      "gpt-4",
      record {
        base_url = "http://up";
        schema_format = "openai";
        keys = key "b" (pos 2) ∷ key "a" (negsuc 0) ∷ key "c" (pos 2) ∷ [];
      },
    )
    ∷ []

abbrev answer : ℕ → Outcome
answer status = response (record { status = status; headers = []; body = some [] })

abbrev prepared : Result GatewayError Prepared
prepared = prep_upstream_request plain_codec routing (λ k. false) [] "*/*" default

abbrev expected : Prepared
expected = record {
  primary_request = record {
    endpoint = "http://up/chat/completions";
    headers =
        ("Content-Type", "application/json")
        ∷ ("Accept", "*/*")
        ∷ ("Authorization", "Bearer sk")
        ∷ [];
    body = Body.raw [];
  };
  primary_key_alias = "a";
  fallback_keys = key "b" (pos 2) ∷ key "c" (pos 2) ∷ [];
  provider_config = record {
    id = "openai";
    auth_scheme = AuthScheme.bearer;
    schema_format = openai;
  };
  base_url = "http://up";
  model = "gpt-4";
  requested_provider = "openai";
  executed_provider = "openai";
  is_hot_swapped = 0;
  accept_header = "*/*";
}

prepared_eq : prepared ≡ ok expected
unfolding router
prepared_eq = refl

prep_skips_open :
    (elim (prep_upstream_request plain_codec routing (λ k. str_eq k "a") [] "*/*" default) [
      | ok p ↦ p.primary_key_alias
      | err e ↦ ""
    ])
    ≡ "b"
unfolding router
prep_skips_open = refl

served_by_second :
    execute_upstream_request plain_codec list_breaker script expected []
      ([], (answer 503 ∷ answer 200 ∷ [], 0))
    ≡ (ok (record { status = 200; headers = []; body = some [] }), (("a", 1000) ∷ [], ([], 2000)))
unfolding router
served_by_second = refl

all_fail :
    (execute_upstream_request plain_codec list_breaker script expected []
      ([], (answer 429 ∷ answer 500 ∷ [], 0))).0
    ≡ err (upstream_unreachable false)
unfolding router
all_fail = refl

prep_upstream_request-IsSelected_example :
    IsSelected plain_codec routing (λ k. false) [] "*/*" expected
prep_upstream_request-IsSelected_example =
    prep_upstream_request-IsSelected plain_codec routing (λ k. false) [] "*/*" default prepared_eq

execute_upstream_request-IsRun_example :
    IsRun plain_codec list_breaker script
      (blamed_first plain_codec list_breaker script)
      (plan plain_codec list_breaker script expected [])
      []
      (answer 503 ∷ answer 200 ∷ [], 0)
      (execute_upstream_request plain_codec list_breaker script expected []
        ([], (answer 503 ∷ answer 200 ∷ [], 0)))
execute_upstream_request-IsRun_example =
    execute_upstream_request-IsRun plain_codec list_breaker script expected [] []
      (answer 503 ∷ answer 200 ∷ [], 0)

-- Half a minute later.
execute_upstream_request_exhausts_example :
    let store' =
      (execute_upstream_request plain_codec list_breaker script expected []
        ([], (answer 429 ∷ answer 500 ∷ [], 0))).1.0 in
    prep_upstream_request plain_codec routing (is_open list_breaker store' 30000) [] "*/*" default
    ≡ err no_active_keys
execute_upstream_request_exhausts_example =
    execute_upstream_request_exhausts plain_codec list_breaker script routing [] "*/*" default []
      (answer 429 ∷ answer 500 ∷ [], 0) 30000 prepared_eq refl all_fail (omega arith) (λ a h. h)
