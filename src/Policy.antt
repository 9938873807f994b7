-- ===== src/Policy.antt =====
-- redeye_compliance/src/api/middleware/security.rs and usecases/opa_client.rs: the guard that looks
-- for prompt injections, asks the policy engine, and writes the audit record.
pub mod Audit
mod Tests
use red_eye_engine_gateway.Common.{
  ℕ, ◌≤◌, Bool, true, false, not, Option, none, some, List, [], ◌∷◌, String, codes, contains, any,
  if◌then◌else◌, unwrap_or, ◌>>=?◌, Result, ok, err,
}
use red_eye_engine_gateway.Json.{Value, str, null, obj, end, field, get, get_str}
use red_eye_engine_gateway.Geo.{ResidencyRule, Headers}

pub record CompliancePolicy : Type 0 where
  pub active_frameworks : List String
  pub enable_pii_redaction : Bool
  pub target_entities : List String
  pub fail_closed : Bool

pub record OpaInput : Type 0 where
  pub trace_id : String
  pub tenant_id : String
  pub user_region : String
  pub model_requested : String
  pub active_frameworks : List String

pub record OpaResult : Type 0 where
  pub allow : Bool
  pub block_reason : Option String

pub record ComplianceAuditRecord : Type 0 where
  pub trace_id : String
  pub tenant_id : String
  pub timestamp : String
  pub policy_result : Bool
  pub redacted_entity_count : ℕ
  pub destination_region : String
  pub block_reason : Option String

-- What the HTTP client brings back: no response, a response with an error status, one that is no
-- OPA document, or a result.
pub data OpaReply : Type 0 where
  unreachable error_status unreadable : OpaReply
  answered : OpaResult → OpaReply

unfoldable pub evaluate_policy : OpaReply → Result String OpaResult
evaluate_policy unreachable = err "OPA Engine Unreachable"
evaluate_policy error_status = err "OPA Server Error"
evaluate_policy unreadable = err "Invalid OPA response format"
evaluate_policy (answered result) = ok result

abbrev pub injections : List String
injections =
    "ignore previous instructions" ∷ "you are now acting as" ∷ "jailbreak" ∷ "system prompt bypass"
    ∷ []

-- The handler's two variables.
pub record Decision : Type 0 where
  pub policy_result : Bool
  pub block_reason : Option String

abbrev pub allowed : Decision
allowed = record { policy_result = true; block_reason = none }

abbrev pub blocked : String → Decision
blocked reason = record { policy_result = false; block_reason = some reason }

-- What the policy engine's result makes of them.
abbrev pub decide : Bool → Result String OpaResult → Decision → Decision
decide fail_closed (ok result) decision =
    if not result.allow
    then blocked (unwrap_or result.block_reason "Blocked by organizational policy")
    else decision
decide fail_closed (err _) decision =
    if fail_closed then blocked "Security System Unavailable (Fail-Closed active)" else decision

abbrev pub reason_json : Option String → Value
reason_json none = null
reason_json (some reason) = str reason

abbrev pub refusal : Option String → Value
refusal reason = obj (
    field "error" (str "Compliance or Security Violation")
      (field "reason" (reason_json reason) end))

abbrev pub opa_request : CompliancePolicy → Headers → Value → OpaInput
opa_request policy headers payload = record {
  trace_id = unwrap_or (headers "x-trace-id") "unknown";
  tenant_id = unwrap_or (headers "x-tenant-id") "unknown";
  user_region = unwrap_or (headers "x-forwarded-for") "GLOBAL";
  model_requested = unwrap_or (get_str "model" payload) "unknown";
  active_frameworks = policy.active_frameworks;
}

abbrev pub audit : Headers → Option ResidencyRule → String → Decision → ComplianceAuditRecord
audit headers residency now decision = record {
  trace_id = unwrap_or (headers "x-trace-id") "unknown";
  tenant_id = unwrap_or (headers "x-tenant-id") "unknown";
  timestamp = now;
  policy_result = decision.policy_result;
  redacted_entity_count = 0;
  destination_region = elim residency [
    | some rule ↦ rule.region
    | none ↦ unwrap_or (headers "x-forwarded-for") "GLOBAL"
  ];
  block_reason = decision.block_reason;
}

-- The response of the middleware: a status for a body that cannot be read, a refusal, or what the
-- next handler answers.
pub data Answer (Response : Type 0) : Type 0 where
  status : ℕ → Answer Response
  refused : ℕ → Value → Answer Response
  served : Response → Answer Response

-- `to_lowercase` is Rust's.
module _ (to_lowercase : String → String) where
  unfoldable pub contains_prompt_injection : String → Bool
  contains_prompt_injection text =
      any (λ p. contains (codes p) (codes (to_lowercase text))) injections

  abbrev pub is_injection : Value → Bool
  is_injection payload = elim (get_str "prompt" payload) [
    | some prompt ↦ contains_prompt_injection prompt
    | none ↦ false
  ]

-- `from_slice` is the JSON library's; `ask` sends a question to OPA and `next`
-- is the rest of the service.
module _ {Bytes Response : Type 0} (to_lowercase : String → String)
    (from_slice : Bytes → Option Value) (ask : OpaInput → OpaReply)
    (next : Headers → Bytes → Response) where
  abbrev pub after_injection : Value → Decision
  after_injection payload =
      if is_injection to_lowercase payload
      then blocked "Security Violation: Malicious prompt pattern detected."
      else allowed

  -- The policy engine is asked if the request is not blocked already.
  abbrev pub ask_policy : CompliancePolicy → Headers → Value → Decision → Decision
  ask_policy policy headers payload decision =
      if decision.policy_result
      then decide policy.fail_closed (evaluate_policy (ask (opa_request policy headers payload)))
          decision
      else decision

  abbrev pub evaluate : CompliancePolicy → Headers → Value → Decision
  evaluate policy headers payload = ask_policy policy headers payload (after_injection payload)

  unfoldable pub check : CompliancePolicy → Headers → Bytes → Decision
  check policy headers bytes = elim (from_slice bytes) [
    | some payload ↦ evaluate policy headers payload
    | none ↦ allowed
  ]

  abbrev pub respond : Headers → Bytes → Decision → Answer Response
  respond headers bytes decision =
      if not decision.policy_result
      then refused 403 (refusal decision.block_reason)
      else served (next headers bytes)

  -- The answer, and the records written.
  unfoldable pub security_guard_middleware :
      CompliancePolicy
      → Headers
      → Option ResidencyRule
      → String
      → Option Bytes
      → Answer Response × List ComplianceAuditRecord
  unfolding check
  security_guard_middleware policy headers residency now none = (status 400, [])
  security_guard_middleware policy headers residency now (some bytes) =
      let decision = check policy headers bytes in
      (respond headers bytes decision, audit headers residency now decision ∷ [])
