-- ===== src/Pii/Failures.antt =====
-- `AppError` of redeye_compliance/src/error.rs and the HTTP response that it turns into.
use red_eye_engine_gateway.Common.{ℕ, String}
use red_eye_engine_gateway.Json.{Value, str, obj, end, field}

pub data AppError : Type 0 where
  internal bad_request unauthorized conflict not_found rate_limited policy_violation
        service_unavailable region_lock_violation pii_engine_failure :
      String → AppError

pub record ErrorResponse : Type 0 where
  pub status : ℕ
  pub body : Value

abbrev pub status_code : AppError → ℕ
status_code (internal _) = 500
status_code (bad_request _) = 400
status_code (unauthorized _) = 401
status_code (conflict _) = 409
status_code (not_found _) = 404
status_code (rate_limited _) = 429
status_code (policy_violation _) = 422
status_code (service_unavailable _) = 503
status_code (region_lock_violation _) = 403
status_code (pii_engine_failure _) = 503

-- `error_code` and `ErrorCode::as_str`
abbrev pub error_code : AppError → String
error_code (internal _) = "INTERNAL_ERROR"
error_code (bad_request _) = "BAD_REQUEST"
error_code (unauthorized _) = "UNAUTHORIZED"
error_code (conflict _) = "CONFLICT"
error_code (not_found _) = "NOT_FOUND"
error_code (rate_limited _) = "RATE_LIMITED"
error_code (policy_violation _) = "POLICY_VIOLATION"
error_code (service_unavailable _) = "SERVICE_UNAVAILABLE"
error_code (region_lock_violation _) = "REGION_LOCK_VIOLATION"
error_code (pii_engine_failure _) = "PII_ENGINE_FAILURE"

abbrev pub user_message : AppError → String
user_message (internal _) = "An unexpected error occurred. Please try again later."
user_message (bad_request msg) = msg
user_message (unauthorized msg) = msg
user_message (conflict msg) = msg
user_message (not_found msg) = msg
user_message (rate_limited msg) = msg
user_message (policy_violation msg) = msg
user_message (service_unavailable msg) = msg
user_message (region_lock_violation msg) = msg
user_message (pii_engine_failure _) =
    "PII protection engine unavailable. Request blocked for data safety."

unfoldable pub into_response : AppError → ErrorResponse
into_response e = record {
  status = status_code e;
  body = obj (
      field "error"
        (obj (field "code" (str (error_code e)) (field "message" (str (user_message e)) end))) end);
}
