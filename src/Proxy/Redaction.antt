-- ===== src/Proxy/Redaction.antt =====
-- `call_compliance_redact`: the body as the compliance service returns it, or no request at all.
use Prim.Native.String
use red_eye_engine_gateway.Common.{
  ℕ, Bool, String, Result, err, ok_or, leb, ltb, ◌&&◌, if◌then◌else◌,
}
use red_eye_engine_gateway.Json.{Value, get}
use red_eye_engine_gateway.Errors.{GatewayError, compliance_failure}

-- What the HTTP client brings back: nothing, a status and no JSON, or a status and a document.
pub data ComplianceReply : Type 0 where
  unreachable : ComplianceReply
  malformed : ℕ → ComplianceReply
  replied : ℕ → Value → ComplianceReply

abbrev pub is_success : ℕ → Bool
is_success status = leb 200 status && ltb status 300

-- The texts of the client's and the JSON library's errors are left out of the messages.
module _ (decimal : ℕ → String) where
  abbrev pub refused : ℕ → GatewayError
  refused status =
      compliance_failure (String.◌++◌ "Compliance service returned HTTP " (decimal status))

  unfoldable pub call_compliance_redact : ComplianceReply → Result GatewayError Value
  call_compliance_redact unreachable = err (compliance_failure "Compliance service unreachable")
  call_compliance_redact (malformed status) =
      if is_success status
      then err (compliance_failure "Malformed compliance response")
      else err (refused status)
  call_compliance_redact (replied status document) =
      if is_success status
      then ok_or (get "sanitized_payload" document)
          (compliance_failure "Compliance response did not contain `sanitized_payload`")
      else err (refused status)
