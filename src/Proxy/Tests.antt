-- ===== src/Proxy/Tests.antt =====
-- Runs of the pipeline with a body that holds PII.
use red_eye_engine_gateway.Common.{
  ℕ, ◌≡◌, refl, true, none, some, [], ◌∷◌, String, ok, err, All, OnOk,
}
use red_eye_engine_gateway.Json.{Value, str, obj, end, field}
use red_eye_engine_gateway.Errors.{compliance_failure}
use red_eye_engine_gateway.Proxy.Redaction.{
  ComplianceReply, replied, unreachable, call_compliance_redact,
}
use red_eye_engine_gateway.Proxy.Pipeline.{
  Env, Request, asked_compliance, looked_up, prepared, charged, checked_loop, checked_burn, sent,
  bucket_first, answered, execute_proxy,
}
use red_eye_engine_gateway.Proxy.Cleared.{IsSound, IsSoundOutcome}
use red_eye_engine_gateway.Proxy.Sent.{execute_proxy-IsCleared, execute_proxy_fails_closed}

-- Bodies are their documents.
abbrev env_of : ComplianceReply → Env Value ℕ String
env_of reply = record {
  is_pii = ok true;
  from_slice = λ b. some b;
  to_vec = λ v. some v;
  decimal = λ n. "503";
  compliance = λ v. reply;
  l1_exact = none;
  l1_semantic = none;
  l2 = none;
  prep = λ b. ok 7;
  token_bucket = ok tt;
  loop_detection = λ v. ok tt;
  burn_rate = ok tt;
  upstream = λ p b. ok "answer";
  schema_format = none;
  display = λ e. "";
  new_id = "id";
  latency_ms = 1;
}

abbrev request : Request Value
request = record {
  body = str "4111 1111";
  tenant_id = "t";
  model_name = "m";
  raw_prompt = "4111 1111";
  trace = record { trace_id = "1"; session_id = "s"; parent_trace_id = none };
}

abbrev redacting : ComplianceReply
redacting = replied 200 (obj (field "sanitized_payload" (str "<CARD>") end))

execute_proxy_sends : execute_proxy (env_of redacting) request bucket_first ≡ (
  ok (answered "answer"),
  asked_compliance (str "4111 1111")
      ∷ looked_up "4111 1111"
      ∷ prepared (str "<CARD>")
      ∷ charged
      ∷ checked_loop (str "<CARD>")
      ∷ checked_burn
      ∷ sent 7 (str "<CARD>")
      ∷ [],
)
unfolding execute_proxy call_compliance_redact
execute_proxy_sends = refl

execute_proxy-IsCleared_example :
    All
      (IsSound (env_of redacting) request)
      (execute_proxy (env_of redacting) request bucket_first).1
    × OnOk
        (IsSoundOutcome (env_of redacting) request)
        (execute_proxy (env_of redacting) request bucket_first).0
execute_proxy-IsCleared_example = execute_proxy-IsCleared (env_of redacting) request bucket_first

execute_proxy_fails_closed_example : execute_proxy (env_of unreachable) request bucket_first ≡ (
  err (compliance_failure "Compliance service unreachable"),
  asked_compliance (str "4111 1111") ∷ [],
)
unfolding call_compliance_redact
execute_proxy_fails_closed_example =
    execute_proxy_fails_closed (env_of unreachable) request bucket_first (str "4111 1111")
      (compliance_failure "Compliance service unreachable") refl refl refl
