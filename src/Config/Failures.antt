-- ===== src/Config/Failures.antt =====
-- `ConfigError` of redeye_config/src/error.rs and the HTTP response that it turns into.
use red_eye_engine_gateway.Common.{
  ℕ, ◌≤◌, Option, none, some, String, str_eq, if◌then◌else◌, ◌≡◌, refl, arith,
}
use red_eye_engine_gateway.Json.{Value, str, obj, end, field}

pub data ConfigError : Type 0 where
  not_found conflict validation unauthorized database redis internal : String → ConfigError

pub record ErrorResponse : Type 0 where
  pub status : ℕ
  pub body : Value

-- What the database library reports: no row, a database error with its code, or anything else.
pub data SqlError : Type 0 where
  row_not_found : SqlError
  database_code : Option String → SqlError
  other : SqlError

abbrev opaque_failure : ConfigError
opaque_failure = database "A database operation failed unexpectedly."

abbrev pub from_code : String → ConfigError
from_code code =
    if str_eq code "23505"
    then conflict "A resource with this identifier already exists."
    else if str_eq code "23503"
    then validation
        "The referenced tenant does not exist. Ensure the tenant is provisioned via redeye_auth before configuring it."
    else opaque_failure

unfoldable pub from_sql : SqlError → ConfigError
from_sql row_not_found = not_found "The requested resource was not found."
from_sql (database_code (some code)) = from_code code
from_sql (database_code none) = opaque_failure
from_sql other = opaque_failure

abbrev pub status_code : ConfigError → ℕ
status_code (not_found _) = 404
status_code (conflict _) = 409
status_code (validation _) = 422
status_code (unauthorized _) = 401
status_code _ = 500

abbrev pub error_code : ConfigError → String
error_code (not_found _) = "NOT_FOUND"
error_code (conflict _) = "CONFLICT"
error_code (validation _) = "UNPROCESSABLE_ENTITY"
error_code (unauthorized _) = "UNAUTHORIZED"
error_code _ = "INTERNAL_ERROR"

abbrev pub user_message : ConfigError → String
user_message (not_found msg) = msg
user_message (conflict msg) = msg
user_message (validation msg) = msg
user_message (unauthorized msg) = msg
user_message (database _) = "An unexpected database error occurred. Please retry."
user_message (redis _) = "A caching error occurred. Please retry."
user_message (internal _) = "An unexpected internal error occurred. Please retry."

unfoldable pub into_response : ConfigError → ErrorResponse
into_response e = record {
  status = status_code e;
  body = obj (
      field "error"
        (obj (field "code" (str (error_code e)) (field "message" (str (user_message e)) end))) end);
}

-- The same error with another detail.
abbrev pub with_detail : String → ConfigError → ConfigError
with_detail m (not_found _) = not_found m
with_detail m (conflict _) = conflict m
with_detail m (validation _) = validation m
with_detail m (unauthorized _) = unauthorized m
with_detail m (database _) = database m
with_detail m (redis _) = redis m
with_detail m (internal _) = internal m

-- A response with a server error status tells nothing of the error's detail: it is the same for
-- every detail.
pub into_response_hides :
    (e : ConfigError) (m : String)
    → 500 ≤ (into_response e).status
    → into_response (with_detail m e) ≡ into_response e
unfolding into_response
into_response_hides (database _) m h = refl
into_response_hides (redis _) m h = refl
into_response_hides (internal _) m h = refl
into_response_hides (not_found _) m h = absurd (omega (arith, h))
into_response_hides (conflict _) m h = absurd (omega (arith, h))
into_response_hides (validation _) m h = absurd (omega (arith, h))
into_response_hides (unauthorized _) m h = absurd (omega (arith, h))
