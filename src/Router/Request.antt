-- ===== src/Router/Request.antt =====
-- `get_provider_config`, `get_translator` and `build_provider_request`: the HTTP request that one
-- key is tried with.
use Prim.Native.String
use red_eye_engine_gateway.Common.{
  ℕ, Bool, true, false, Option, some, List, [], ◌∷◌, String, codes, contains, if◌then◌else◌, Result,
  ok, err, ◌>>=◌, ok_or, unwrap_or,
}
use red_eye_engine_gateway.Json.{Value}
use red_eye_engine_gateway.Errors.{GatewayError, response_build}
use red_eye_engine_gateway.Chat.{Conversation, TranslationError}
use red_eye_engine_gateway.Chat.OpenAi
use red_eye_engine_gateway.Chat.OpenAi.{Serde}
use red_eye_engine_gateway.Chat.Anthropic
use red_eye_engine_gateway.Chat.Anthropic.{AnthropicRequest}
use red_eye_engine_gateway.Chat.Gemini
use red_eye_engine_gateway.Router.Keys.{KeyConfig}

pub data AuthScheme : Type 0 where
  bearer x_api_key google_api_key : AuthScheme

pub data SchemaFormat : Type 0 where
  openai anthropic gemini : SchemaFormat

-- `base_url` is always the empty string there and is not kept.
pub record ProviderConfig : Type 0 where
  pub id : String
  pub auth_scheme : AuthScheme
  pub schema_format : SchemaFormat

abbrev pub Bytes : Type 0
Bytes = List ℕ

pub data Body : Type 0 where
  raw : Bytes → Body
  json : Value → Body

pub record HttpRequest : Type 0 where
  pub endpoint : String
  pub headers : List (String × String)
  pub body : Body

-- What the router calls of the JSON library and of derived deserialisers, and Rust's Unicode
-- `to_lowercase`.
pub record Codec : Type 0 where
  pub to_lowercase : String → String
  pub from_slice : Bytes → Option Value
  pub extract_model : Bytes → Option (Option String)
  pub extract_stream : Bytes → Option (Option Bool)
  pub serde : Serde
  pub anthropic_value : AnthropicRequest → Option Value

abbrev names : String → String → Bool
names part provider = contains (codes part) (codes provider)

infixr 65 ◌⁀◌
abbrev pub ◌⁀◌ : String → String → String
s ⁀ t = String.◌++◌ s t

abbrev pub is_openai : SchemaFormat → Bool
is_openai openai = true
is_openai _ = false

module _ (codec : Codec) where
  open codec use {to_lowercase, from_slice, extract_stream, serde, anthropic_value}

  unfoldable pub get_provider_config : String → ProviderConfig
  get_provider_config provider_name =
      let provider = to_lowercase provider_name in
      if names "anthropic" provider
      then record { id = provider; auth_scheme = x_api_key; schema_format = anthropic }
      else if names "gemini" provider
      then record { id = provider; auth_scheme = google_api_key; schema_format = gemini }
      else record { id = provider; auth_scheme = bearer; schema_format = openai }

  unfoldable pub endpoint : SchemaFormat → String → String → Bytes → Result GatewayError String
  endpoint anthropic base_url model body = ok (base_url ⁀ "/messages")
  endpoint openai base_url model body = ok (base_url ⁀ "/chat/completions")
  endpoint gemini base_url model body = do
    stream ← ok_or (extract_stream body) (response_build "Invalid JSON body for stream check")
    ok (
        base_url
        ⁀ "/"
        ⁀ model
        ⁀ (if unwrap_or stream false then ":streamGenerateContent" else ":generateContent"))

  -- The key header and, for Anthropic, the version header.
  abbrev auth_headers : AuthScheme → SchemaFormat → String → List (String × String)
  auth_headers bearer _ api_key = ("Authorization", "Bearer " ⁀ api_key) ∷ []
  auth_headers google_api_key _ api_key = ("x-goog-api-key", api_key) ∷ []
  auth_headers x_api_key anthropic api_key =
      ("x-api-key", api_key) ∷ ("anthropic-version", "2023-06-01") ∷ []
  auth_headers x_api_key _ api_key = ("x-api-key", api_key) ∷ []

  abbrev translated {ℓ} : {A : Type ℓ} → String → Result TranslationError A → Result GatewayError A
  translated what (ok a) = ok a
  translated what (err e) = err (response_build what)

  -- `get_translator(...).from_universal`
  unfoldable pub from_universal : SchemaFormat → Conversation → Result TranslationError Value
  from_universal openai conv = OpenAi.from_universal serde conv
  from_universal anthropic conv = Anthropic.from_universal anthropic_value conv
  from_universal gemini conv = Gemini.from_universal conv

  unfoldable pub provider_body : SchemaFormat → String → Bytes → Result GatewayError Body
  unfolding from_universal
  provider_body schema model body = if is_openai schema then ok (raw body) else (do
    parsed ← ok_or (from_slice body) (response_build "Invalid JSON for translation")
    conv ← translated "Incoming translation failed" (OpenAi.to_universal serde parsed)
    final ←
        translated "Translation error" (from_universal schema (record conv { model = some model }))
    ok (json final))

  unfoldable pub build_provider_request :
      ProviderConfig
      → String
      → KeyConfig
      → String
      → Bytes
      → String
      → Result GatewayError HttpRequest
  unfolding endpoint provider_body
  build_provider_request config base_url key model body accept = do
    url ← endpoint config.schema_format base_url model body
    sent ← provider_body config.schema_format model body
    ok (record {
      endpoint = url;
      headers =
          ("Content-Type", "application/json")
          ∷ ("Accept", accept)
          ∷ auth_headers config.auth_scheme config.schema_format key.api_key;
      body = sent;
    })
