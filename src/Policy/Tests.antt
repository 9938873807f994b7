-- ===== src/Policy/Tests.antt =====
-- Runs of the compliance guard.
use red_eye_engine_gateway.Common.{◌≡◌, ◌↔◌, refl, true, Option, none, some, [], ◌∷◌, String}
use red_eye_engine_gateway.Json.{Value, str, obj, end, field}
use red_eye_engine_gateway.Geo.{Headers}
use red_eye_engine_gateway.Policy.{
  CompliancePolicy, OpaInput, OpaReply, unreachable, refused, refusal, security_guard_middleware,
  contains_prompt_injection, evaluate_policy,
}
use red_eye_engine_gateway.Policy.Audit.{
  IsAudited, IsStopped, is_refused, security_guard_middleware-IsAudited,
}

abbrev strict : CompliancePolicy
strict = record {
  active_frameworks = "DPDP" ∷ [];
  enable_pii_redaction = true;
  target_entities = [];
  fail_closed = true;
}

abbrev no_headers : Headers
no_headers name = none

abbrev same : String → String
same text = text

abbrev body : String → Option Value
body prompt = some (obj (field "prompt" (str prompt) end))

abbrev silent : OpaInput → OpaReply
silent question = unreachable

abbrev forward : Headers → String → String
forward headers prompt = prompt

security_guard_stops :
    (security_guard_middleware same body silent forward strict no_headers none "t" (some "hi")).0
    ≡ refused 403 (refusal (some "Security System Unavailable (Fail-Closed active)"))
unfolding security_guard_middleware contains_prompt_injection evaluate_policy
security_guard_stops = refl

security_guard_middleware-IsAudited_example :
    IsAudited same body silent forward no_headers "hi"
      (security_guard_middleware same body silent forward strict no_headers none "t" (some "hi"))
    × ((is_refused same body silent forward
            (security_guard_middleware same body silent forward strict no_headers none "t"
              (some "hi")).0
          ≡ true)
        ↔ IsStopped same body silent forward strict no_headers "hi")
security_guard_middleware-IsAudited_example =
    security_guard_middleware-IsAudited same body silent forward strict no_headers none "t" "hi"
