-- ===== src/Errors.antt =====
-- `GatewayError` of redeye_gateway/src/error.rs and the HTTP response that it turns into.
pub mod Statuses
mod Tests
use red_eye_engine_gateway.Common.{ℕ, Bool, true, false, Option, none, some, String, if◌then◌else◌}
use red_eye_engine_gateway.Json.{Value, null, str, obj, end, field}

-- `upstream_unreachable` carries whether the transport error is a timeout.
pub data GatewayError : Type 0 where
  unauthorized proxy model_not_configured routing_state_missing no_active_keys : GatewayError
  response_build compliance_failure rate_limit_exceeded loop_detected : String → GatewayError
  agent_loop_budget_exceeded burn_rate_exceeded : String → GatewayError
  upstream_unreachable : Bool → GatewayError

pub record ErrorResponse : Type 0 where
  pub status : ℕ
  pub code : String
  pub message : String
  pub retry_after : Option String
  pub body : Value

abbrev plain : ℕ → String → String → ErrorResponse
plain status code message = record {
  status = status;
  code = code;
  message = message;
  retry_after = none;
  body =
      obj (field "error" (obj (field "code" (str code) (field "message" (str message) end))) end);
}

unfoldable pub into_response : GatewayError → ErrorResponse
into_response unauthorized = plain 401 "UNAUTHORIZED" "Missing or invalid API key."
into_response (response_build _) =
    plain 500 "INTERNAL_ERROR" "An internal error occurred while building the response."
into_response (upstream_unreachable true) =
    plain 504 "GATEWAY_TIMEOUT" "The upstream request timed out."
into_response (upstream_unreachable false) =
    plain 503 "UPSTREAM_ERROR" "The upstream LLM service is currently unreachable."
into_response (compliance_failure _) =
    plain 503 "COMPLIANCE_ERROR"
      "Request blocked: the compliance service is unavailable or rejected this payload."
into_response (rate_limit_exceeded _) =
    plain 429 "RATE_LIMITED" "Rate limit exceeded. Please try again later."
into_response (loop_detected _) =
    plain 429 "AGENT_LOOP_DETECTED"
      "Agent recursive loop detected. This session has been blocked to prevent runaway costs."
into_response (agent_loop_budget_exceeded _) = record {
  status = 429;
  code = "agent_loop_exceeded";
  message = "RedEye Guard: Agent loop budget exceeded...";
  retry_after = some "300";
  body = obj (
      field "error"
        (obj (
          field "message" (str "RedEye Guard: Agent loop budget exceeded...") (
            field "type" (str "redeye_loop_limit")
              (field "code" (str "agent_loop_exceeded") (field "param" null end)))))
        end);
}
into_response (burn_rate_exceeded _) =
    plain 429 "BURN_RATE_EXCEEDED"
      "Session burn rate exceeded. Spending has been paused to prevent runaway costs."
into_response proxy =
    plain 500 "INTERNAL_ERROR"
      "An internal error occurred while communicating with backend cluster services."
into_response model_not_configured =
    plain 400 "MODEL_NOT_CONFIGURED" "The requested model is not configured for this tenant."
into_response routing_state_missing =
    plain 500 "ROUTING_STATE_MISSING" "Routing state is missing or unavailable."
into_response no_active_keys = plain 503 "ALL_KEYS_EXHAUSTED" "All configured keys exhausted."
