-- ===== src/Proxy/Buffered.antt =====
-- `handle_buffered_response` and the task of `handle_streaming_response`: the body that the client
-- gets, and what is charged and recorded for it. The translator, the sandbox, the phantom tool and
-- the calls of MCP servers are stages of their own.
use red_eye_engine_gateway.Common.{
  ℕ, ◌%◌, ◌^◌, Bool, false, Option, none, some, List, [], ◌∷◌, String, codes, contains, length,
  unwrap_or, is_empty, if◌then◌else◌, Result, ok, err, ◌>>=?◌, ◌&&◌, not, ◌++◌,
}
use red_eye_engine_gateway.Json.{Value, str, obj, arr, end, field, of_list}
use red_eye_engine_gateway.Errors.{GatewayError, response_build}
use red_eye_engine_gateway.Limit.TokenBucket.{estimate}
use red_eye_engine_gateway.Proxy.Pipeline.{TraceContext}
use red_eye_engine_gateway.Proxy.Telemetry.{Completed, ProxyResult}
use red_eye_engine_gateway.Proxy.Usage.{actual_tokens, stream_tokens}

abbrev pub Bytes : Type 0
Bytes = List ℕ

pub record Stages : Type 0 where
  pub from_slice : Bytes → Option Value
  pub to_vec : Value → Option Bytes
  pub unify_response : Value → Option Value
  pub enforce_mcp_sandbox : Bytes → Bytes
  pub no_tools : Bool
  pub intercept_phantom_call : Bytes → Option Bytes
  pub no_servers : Bool
  pub fan_out : Bytes → List Value
  pub is_utf8 : Bytes → Bool

-- What both ways know of the request.
pub record Exchange : Type 0 where
  pub tenant_id : String
  pub model_name : String
  pub raw_prompt : String
  pub prompt_len : ℕ
  pub trace : TraceContext
  pub status : ℕ
  pub content_type : String
  pub latency_ms : ℕ
  pub requested_provider : String
  pub executed_provider : String
  pub is_hot_swapped : ℕ

-- The correction of the token bucket, from the estimate to the actual count, and the rest.
pub data Accounted : Type 0 where
  tool_results : Value → Accounted
  sync_token_bucket : String → ℕ → ℕ → Accounted
  telemetry : Completed → Accounted

abbrev pub completed : Exchange → ℕ → Option Value → Completed
completed x tokens response = record {
  tenant_id = x.tenant_id;
  model_name = x.model_name;
  raw_prompt = x.raw_prompt;
  trace = x.trace;
  status_code = x.status;
  latency_ms = x.latency_ms;
  tokens = tokens;
  cache_hit = false;
  response = response;
  requested_provider = x.requested_provider;
  executed_provider = x.executed_provider;
  is_hot_swapped = x.is_hot_swapped;
}

abbrev pub result : {Body : Type 0} → Exchange → Body → ProxyResult Body
result x body = record {
  status = x.status;
  content_type = x.content_type;
  body = body;
  cache_hit = false;
}

module _ (stages : Stages) where
  open stages use {
    from_slice, to_vec, unify_response, enforce_mcp_sandbox, no_tools, intercept_phantom_call,
    no_servers, fan_out, is_utf8,
  }

  -- A body that cannot be unified or written again stays as it is.
  abbrev pub unify : Bytes → Bytes
  unify body = unwrap_or (from_slice body >>=? unify_response >>=? to_vec) body

  abbrev pub serve_phantom : Bytes → Bytes
  serve_phantom body = if no_tools then body else unwrap_or (intercept_phantom_call body) body

  abbrev pub final_body : Bytes → Bytes
  final_body body = serve_phantom (enforce_mcp_sandbox (unify body))

  abbrev pub call_tools : String → Bytes → List Accounted
  call_tools tenant_id body =
      let messages = fan_out body in
      if contains (codes "tool_calls") body && (not no_servers && not (is_empty messages))
      then tool_results (
          obj (
            field "type" (str "mcp_tool_results") (
              field "tenant_id" (str tenant_id)
                (field "tool_messages" (arr (of_list messages)) end))))
        ∷ []
      else []

  -- `none` is a body that cannot be read.
  unfoldable pub handle_buffered_response :
      Exchange → Option Bytes → Result GatewayError (ProxyResult Bytes) × List Accounted
  handle_buffered_response x none = (err (response_build "Failed to read upstream body"), [])
  handle_buffered_response x (some upstream) =
      let body = final_body upstream in
      let tokens = actual_tokens x.prompt_len (from_slice body) (length body) in
      (
        ok (result x body),
        call_tools x.tenant_id body
            ++ sync_token_bucket x.tenant_id (estimate x.prompt_len % 2 ^ 32) tokens
              ∷ telemetry (completed x tokens (from_slice body))
              ∷ [],
      )

  abbrev pub joined : List Bytes → Bytes
  joined [] = []
  joined (chunk ∷ chunks) = chunk ++ joined chunks

  -- The stream that is passed on chunk by chunk, and what its task does at the end.
  unfoldable pub handle_streaming_response :
      Exchange → List Bytes → ProxyResult (List Bytes) × List Accounted
  handle_streaming_response x chunks =
      let tokens = stream_tokens is_utf8 x.prompt_len chunks in
      (
        result x chunks,
        sync_token_bucket x.tenant_id (estimate x.prompt_len % 2 ^ 32) tokens
            ∷ telemetry (completed x tokens (from_slice (joined chunks)))
            ∷ [],
      )
