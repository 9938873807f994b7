-- ===== src/Router/Upstream.antt =====
-- `prep_upstream_request`, `execute_upstream_request` and `route_chat_completion_with_fallback`.
use red_eye_engine_gateway.Common.{
  ℕ, ◌≤◌, Bool, true, false, Option, List, [], ◌∷◌, String, ◌==◌, ◌||◌, if◌then◌else◌, Result, ok,
  err, ◌>>=◌, ok_or, is_empty,
}
use red_eye_engine_gateway.Errors.{
  GatewayError, response_build, model_not_configured, no_active_keys, upstream_unreachable,
}
use red_eye_engine_gateway.Router.Keys.{
  KeyConfig, ModelConfig, RoutingMap, lookup, CircuitBreaker, is_open, sort_keys, healthy,
}
use red_eye_engine_gateway.Router.Request.{
  ProviderConfig, Bytes, HttpRequest, Codec, get_provider_config, build_provider_request,
}
use red_eye_engine_gateway.Router.Strategy.{RoutingStrategy}

pub record Response : Type 0 where
  pub status : ℕ
  pub headers : List (String × String)
  -- `none` where reading the body fails
  pub body : Option Bytes

pub data Outcome : Type 0 where
  response : Response → Outcome
  unreachable : Bool → Outcome

-- The HTTP client, the providers behind it, and the clock, in milliseconds, which a request lets
-- advance.
pub record Upstream : Type 1 where
  pub Net : Type 0
  pub send : HttpRequest → Net → Outcome × Net
  pub clock : Net → ℕ
  pub clock_mono : (request : HttpRequest) (net : Net) → clock net ≤ clock (send request net).1

pub record Prepared : Type 0 where
  pub primary_request : HttpRequest
  pub primary_key_alias : String
  pub fallback_keys : List KeyConfig
  pub provider_config : ProviderConfig
  pub base_url : String
  pub model : String
  pub requested_provider : String
  pub executed_provider : String
  pub is_hot_swapped : ℕ
  pub accept_header : String

abbrev pub is_retryable_error : ℕ → Bool
is_retryable_error status =
    status == 429 || (status == 500 || (status == 502 || (status == 503 || status == 504)))

module _ (codec : Codec) where
  -- The last steps of `prep_upstream_request`, on the keys found healthy.
  unfoldable pub prepare :
      ModelConfig → String → Bytes → String → List KeyConfig → Result GatewayError Prepared
  prepare config model body accept [] = err no_active_keys
  prepare config model body accept (primary ∷ fallbacks) = do
    let provider = get_provider_config codec config.schema_format
    request ← build_provider_request codec provider config.base_url primary model body accept
    ok (record {
      primary_request = request;
      primary_key_alias = primary.key_alias;
      fallback_keys = fallbacks;
      provider_config = provider;
      base_url = config.base_url;
      model = model;
      requested_provider = provider.id;
      executed_provider = provider.id;
      is_hot_swapped = 0;
      accept_header = accept;
    })

  -- From the model's name on.
  unfoldable pub prep_model :
      RoutingMap → (String → Bool) → Bytes → String → String → Result GatewayError Prepared
  unfolding prepare sort_keys healthy lookup
  prep_model routing is_open body accept model = do
    config ← ok_or (lookup model routing) model_not_configured
    if is_empty config.keys
        then err no_active_keys
        else prepare config model body accept (healthy is_open (sort_keys config.keys))

  unfoldable pub prep_upstream_request :
      RoutingMap → (String → Bool) → Bytes → String → RoutingStrategy → Result GatewayError Prepared
  unfolding prep_model
  prep_upstream_request routing is_open body accept strategy = do
    extracted ← ok_or (codec.extract_model body) (response_build "Invalid JSON request")
    model ← ok_or extracted (response_build "Missing 'model' field in JSON request")
    prep_model routing is_open body accept model

  module _ (breaker : CircuitBreaker) (upstream : Upstream) where
    open breaker use {Store, trip}
    open upstream use {Net, send, clock}

    -- What a request changes: the breaker, and the world behind the client.
    abbrev pub World : Type 0
    World = Store × Net

    -- The error that the loop remembers of a failed attempt.
    abbrev pub failure : Outcome → GatewayError
    failure (response r) = response_build "Provider returned a retryable status"
    failure (unreachable timeout) = upstream_unreachable timeout

    abbrev pub is_final : Outcome → Bool
    is_final (response r) = elim (is_retryable_error r.status) [ true ↦ false | false ↦ true ]
    is_final (unreachable _) = false

    abbrev pub settled : Outcome → GatewayError → Result GatewayError Response
    settled (response r) e = ok r
    settled (unreachable timeout) e = err e

    -- The fallback loop. A request that cannot be built ends it.
    unfoldable pub try_fallbacks :
        Prepared
        → Bytes
        → GatewayError
        → List KeyConfig
        → World
        → Result GatewayError Response × World
    try_fallbacks prep body last [] w = (err last, w)
    try_fallbacks prep body last (key ∷ keys) (store, net) =
        elim (build_provider_request codec prep.provider_config prep.base_url key prep.model body
          prep.accept_header) [
            | err e ↦ (err e, (store, net))
            | ok request ↦
                let (outcome, net') = send request net in
                elim (is_final outcome) [
                  | true ↦ (settled outcome last, (store, net'))
                  | false ↦
                      try_fallbacks prep body (failure outcome) keys
                        (trip store (clock net') key.key_alias, net')
                ]
          ]

    unfoldable pub execute_upstream_request :
        Prepared → Bytes → World → Result GatewayError Response × World
    unfolding try_fallbacks
    execute_upstream_request prep body (store, net) =
        let (outcome, net') = send prep.primary_request net in
        elim (is_final outcome) [
          | true ↦ (settled outcome (response_build "Primary provider failed"), (store, net'))
          | false ↦
              try_fallbacks prep body (response_build "Primary provider failed") prep.fallback_keys
                (trip store (clock net') prep.primary_key_alias, net')
        ]

    unfoldable pub route_chat_completion_with_fallback :
        RoutingMap → Bytes → String → RoutingStrategy → World → Result GatewayError Response × World
    unfolding prep_upstream_request execute_upstream_request
    route_chat_completion_with_fallback routing body accept strategy (store, net) =
        elim (prep_upstream_request routing (is_open breaker store (clock net)) body accept
          strategy) [
            | err e ↦ (err e, (store, net))
            | ok prep ↦ execute_upstream_request prep body (store, net)
          ]
