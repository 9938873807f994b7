-- ===== src/Proxy/Telemetry.antt =====
-- `fire_async_telemetry` and `handle_cache_hit`: what a response leaves behind, and the answer from a
-- cache.
use red_eye_engine_gateway.Common.{
  ℕ, Bool, true, not, ◌&&◌, Option, none, some, List, [], ◌∷◌, String, str_eq, ltb, ◌==◌,
  if◌then◌else◌, Result, ok, err,
}
use red_eye_engine_gateway.Json.{
  Value, null, bool, num, pos_int, str, obj, arr, end, field, nil, cons,
}
use red_eye_engine_gateway.Errors.{GatewayError, response_build}
use red_eye_engine_gateway.Proxy.Pipeline.{TraceContext}
use red_eye_engine_gateway.Proxy.Usage.{extract_response_content}

-- What is known of a request when its response is complete.
pub record Completed : Type 0 where
  pub tenant_id : String
  pub model_name : String
  pub raw_prompt : String
  pub trace : TraceContext
  pub status_code : ℕ
  pub latency_ms : ℕ
  pub tokens : ℕ
  pub cache_hit : Bool
  pub response : Option Value
  pub requested_provider : String
  pub executed_provider : String
  pub is_hot_swapped : ℕ

-- What the task does, in order.
pub data Effect : Type 0 where
  record_session_spend : String → ℕ → Effect
  batch : Value → Effect
  trace_to_tracer : Value → Effect
  insert_l1 : String → String → Effect
  store_in_cache : String → String → String → String → Effect

abbrev pub number : ℕ → Value
number n = num (pos_int n)

abbrev pub optional : Option String → Value
optional none = null
optional (some s) = str s

abbrev pub batch_payload : String → Completed → Value
batch_payload id c = obj (
    field "id" (str id) (
      field "tenant_id" (str c.tenant_id) (
        field "status" (number c.status_code) (
          field "latency_ms" (number c.latency_ms) (
            field "model" (str c.model_name) (
              field "tokens" (number c.tokens) (
                field "requested_provider" (str c.requested_provider) (
                  field "executed_provider" (str c.executed_provider)
                    (field "is_hot_swapped" (number c.is_hot_swapped) end)))))))))

abbrev pub trace_payload : String → Completed → Value
trace_payload content c = obj (
    field "trace_id" (str c.trace.trace_id) (
      field "session_id" (str c.trace.session_id) (
        field "parent_trace_id" (optional c.trace.parent_trace_id) (
          field "tenant_id" (str c.tenant_id) (
            field "model" (str c.model_name) (
              field "status" (number c.status_code) (
                field "latency_ms" (number c.latency_ms) (
                  field "total_tokens" (number c.tokens) (
                    field "cache_hit" (bool c.cache_hit) (
                      field "prompt_content" (str c.raw_prompt) (
                        field "response_content" (str content) (
                          field "requested_provider" (str c.requested_provider) (
                            field "executed_provider" (str c.executed_provider)
                              (field "is_hot_swapped" (number c.is_hot_swapped) end))))))))))))))

-- Only small responses go to the first level.
abbrev pub cache_injection : Completed → String → List Effect
cache_injection c content =
    let store = store_in_cache c.tenant_id c.model_name c.raw_prompt content in
    if not c.cache_hit && ((c.status_code == 200) && not (str_eq content ""))
    then (if ltb c.tokens 1000 then insert_l1 c.raw_prompt content ∷ store ∷ [] else store ∷ [])
    else []

unfoldable pub fire_async_telemetry : String → Completed → List Effect
unfolding extract_response_content
fire_async_telemetry id c =
    let content = extract_response_content c.response in
    record_session_spend c.trace.session_id c.tokens
    ∷ batch (batch_payload id c)
    ∷ trace_to_tracer (trace_payload content c)
    ∷ cache_injection c content

pub record ProxyResult (Body : Type 0) : Type 0 where
  pub status : ℕ
  pub content_type : String
  pub body : Body
  pub cache_hit : Bool

abbrev pub mock_response : String → String → Value
mock_response model_name cached_content = obj (
    field "id" (str "chatcmpl-cached") (
      field "object" (str "chat.completion") (
        field "created" (number 0) (
          field "model" (str model_name) (
            field "choices"
              (arr (
                cons
                  (obj (
                    field "index" (number 0) (
                      field "message"
                        (obj (
                          field "role" (str "assistant")
                            (field "content" (str cached_content) end)))
                        (field "finish_reason" (str "stop") end))))
                  nil))
              (field "usage"
                (obj (
                  field "prompt_tokens" (number 0)
                    (field "completion_tokens" (number 0) (field "total_tokens" (number 0) end))))
                end))))))

-- The answer, and what the spawned telemetry is given.
module _ {Bytes : Type 0} (to_vec : Value → Option Bytes) where
  unfoldable pub handle_cache_hit :
      String
      → String
      → String
      → String
      → TraceContext
      → ℕ
      → String
      → Result GatewayError (ProxyResult Bytes) × Option Completed
  handle_cache_hit cached_content tenant_id model_name raw_prompt trace latency_ms provider =
      elim (to_vec (mock_response model_name cached_content)) [
        | none ↦ (err (response_build "Failed to serialize mock response"), none)
        | some bytes ↦ (
          ok (record {
            status = 200;
            content_type = "application/json";
            body = bytes;
            cache_hit = true;
          }),
          some (record {
            tenant_id = tenant_id;
            model_name = model_name;
            raw_prompt = raw_prompt;
            trace = trace;
            status_code = 200;
            latency_ms = latency_ms;
            tokens = 0;
            cache_hit = true;
            response = none;
            requested_provider = provider;
            executed_provider = provider;
            is_hot_swapped = 0;
          }),
        )
      ]
