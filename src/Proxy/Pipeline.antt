-- ===== src/Proxy/Pipeline.antt =====
-- `execute_proxy` up to the upstream response, as the history of what it does and its result. The
-- stages that other components model are the answers of an environment.
use Prim.Native.String
use red_eye_engine_gateway.Common.{
  ℕ, Bool, true, false, Option, none, some, List, [], ◌∷◌, ◌++◌, String, Result, ok, err, unwrap_or,
}
use red_eye_engine_gateway.Json.{Value}
use red_eye_engine_gateway.Errors.{GatewayError, response_build, rate_limit_exceeded, loop_detected}
use red_eye_engine_gateway.Proxy.Redaction.{ComplianceReply, call_compliance_redact}

pub record TraceContext : Type 0 where
  pub trace_id : String
  pub session_id : String
  pub parent_trace_id : Option String

pub record LogPayload : Type 0 where
  pub id : String
  pub trace : TraceContext
  pub tenant_id : String
  pub model : String
  pub status : ℕ
  pub latency_ms : ℕ
  pub tokens : ℕ
  pub total_tokens : ℕ
  pub cache_hit : Bool
  pub prompt_content : String
  pub response_content : String
  pub error_message : String
  pub requested_provider : String
  pub executed_provider : String
  pub is_hot_swapped : ℕ

pub record Request (Bytes : Type 0) : Type 0 where
  pub body : Bytes
  pub tenant_id : String
  pub model_name : String
  pub raw_prompt : String
  pub trace : TraceContext

-- How the other components answer during this request.
pub record Env (Bytes Prepared Response : Type 0) : Type 0 where
  pub is_pii : Result String Bool
  pub from_slice : Bytes → Option Value
  pub to_vec : Value → Option Bytes
  pub decimal : ℕ → String
  pub compliance : Value → ComplianceReply
  pub l1_exact : Option String
  pub l1_semantic : Option String
  pub l2 : Option String
  pub prep : Bytes → Result GatewayError Prepared
  pub token_bucket : Result GatewayError (Unit {0})
  pub loop_detection : Value → Result GatewayError (Unit {0})
  pub burn_rate : Result GatewayError (Unit {0})
  pub upstream : Prepared → Bytes → Result GatewayError Response
  pub schema_format : Option String
  pub display : GatewayError → String
  pub new_id : String
  pub latency_ms : ℕ

-- What the pipeline does outside itself.
pub data Event (Bytes Prepared : Type 0) : Type 0 where
  asked_compliance : Value → Event Bytes Prepared
  looked_up : String → Event Bytes Prepared
  prepared : Bytes → Event Bytes Prepared
  charged : Event Bytes Prepared
  checked_loop : Value → Event Bytes Prepared
  checked_burn : Event Bytes Prepared
  reported : LogPayload → Event Bytes Prepared
  sent : Prepared → Bytes → Event Bytes Prepared

-- The two guards of `try_join!` run together, and the first error ends it. The other guard has not
-- run then (`first`), or it has and its result is not used (`wins`).
pub data Schedule : Type 0 where
  bucket_first loop_first bucket_wins loop_wins : Schedule

pub data Outcome (Response : Type 0) : Type 0 where
  cache_hit : String → Outcome Response
  answered : Response → Outcome Response

abbrev pub Run : Type 0 → Type 0 → Type 0 → Type 0
Run Bytes Prepared A = Result GatewayError A × List (Event Bytes Prepared)

abbrev pub continue :
    {Bytes Prepared A B : Type 0}
    → List (Event Bytes Prepared)
    → (A → Run Bytes Prepared B)
    → Result GatewayError A
    → Run Bytes Prepared B
continue events next (err e) = (err e, events)
continue events next (ok a) = let (r, more) = next a in (r, events ++ more)

-- `?` between two stages.
infixl 5 ◌>>>◌
abbrev pub ◌>>>◌ :
    {Bytes Prepared A B : Type 0}
    → Run Bytes Prepared A
    → (A → Run Bytes Prepared B)
    → Run Bytes Prepared B
(r, events) >>> next = continue events next r

module _ {Bytes Prepared Response : Type 0} (env : Env Bytes Prepared Response)
    (request : Request Bytes) where
  open env use {
    is_pii, from_slice, to_vec, decimal, compliance, l1_exact, l1_semantic, l2, prep, token_bucket,
    loop_detection, burn_rate, upstream,
  }

  abbrev pub invalid : GatewayError
  invalid = response_build "Invalid JSON body"

  abbrev pub serialise : Value → Run Bytes Prepared (Bytes × Option Value)
  serialise redacted = elim (to_vec redacted) [
    | some bytes ↦ (ok (bytes, some redacted), [])
    | none ↦ (err (response_build "Failed to serialize redacted body"), [])
  ]

  abbrev pub redact : Value → Run Bytes Prepared (Bytes × Option Value)
  redact parsed =
      (call_compliance_redact decimal (compliance parsed), asked_compliance parsed ∷ [])
      >>> serialise

  abbrev pub redact_body : Run Bytes Prepared (Bytes × Option Value)
  redact_body = elim (from_slice request.body) [
    | some parsed ↦ redact parsed
    | none ↦ (err invalid, [])
  ]

  -- Stage 0: the body that goes on, and its document if it was parsed.
  abbrev pub screen : Run Bytes Prepared (Bytes × Option Value)
  screen = elim is_pii [
    | err e ↦ (err (response_build (String.◌++◌ "Regex task error: " e)), [])
    | ok false ↦ (ok (request.body, none), [])
    | ok true ↦ redact_body
  ]

  abbrev pub cached : Option String
  cached = elim l1_exact [
    | some content ↦ some content
    | none ↦ elim l1_semantic [ some content ↦ some content | none ↦ l2 ]
  ]

  abbrev pub get_requested_provider : String
  get_requested_provider = unwrap_or env.schema_format "unknown"

  abbrev pub report : String → GatewayError → LogPayload
  report label e = record {
    id = env.new_id;
    trace = request.trace;
    tenant_id = request.tenant_id;
    model = label;
    status = 429;
    latency_ms = env.latency_ms;
    tokens = 0;
    total_tokens = 0;
    cache_hit = false;
    prompt_content = request.raw_prompt;
    response_content = "";
    error_message = env.display e;
    requested_provider = get_requested_provider;
    executed_provider = "";
    is_hot_swapped = 0;
  }

  -- A guard's result, with the report of a refusal.
  abbrev pub guarded :
      (GatewayError → String)
      → Event Bytes Prepared
      → Result GatewayError (Unit {0})
      → Run Bytes Prepared (Unit {0})
  guarded label event (ok _) = (ok tt, event ∷ [])
  guarded label event (err e) = (err e, event ∷ reported (report (label e) e) ∷ [])

  abbrev pub preflight_label : GatewayError → String
  preflight_label (rate_limit_exceeded _) = "__token_blocked"
  preflight_label (loop_detected _) = "__loop_blocked"
  preflight_label _ = "__preflight_blocked"

  abbrev pub bucket_then_loop : Value → Run Bytes Prepared (Unit {0})
  bucket_then_loop document = guarded preflight_label charged token_bucket >>> λ _.
      guarded preflight_label (checked_loop document) (loop_detection document)

  abbrev pub loop_then_bucket : Value → Run Bytes Prepared (Unit {0})
  loop_then_bucket document =
      guarded preflight_label (checked_loop document) (loop_detection document) >>> λ _.
      guarded preflight_label charged token_bucket

  -- Both guards have run, and the error is the first's.
  abbrev pub both_refused : Value → GatewayError → Run Bytes Prepared (Unit {0})
  both_refused document e =
      (err e, charged ∷ checked_loop document ∷ reported (report (preflight_label e) e) ∷ [])

  abbrev pub unless_refused :
      Value
      → Run Bytes Prepared (Unit {0})
      → Result GatewayError (Unit {0})
      → Run Bytes Prepared (Unit {0})
  unless_refused document run (err e) = both_refused document e
  unless_refused document run (ok _) = run

  abbrev pub preflight : Schedule → Value → Run Bytes Prepared (Unit {0})
  preflight bucket_first document = bucket_then_loop document
  preflight loop_first document = loop_then_bucket document
  preflight bucket_wins document = unless_refused document (bucket_then_loop document) token_bucket
  preflight loop_wins document =
      unless_refused document (loop_then_bucket document) (loop_detection document)

  abbrev pub burn : Run Bytes Prepared (Unit {0})
  burn = guarded (λ _. "__burn_rate_blocked") checked_burn burn_rate

  abbrev pub lazy_parsed : Bytes → Option Value → Run Bytes Prepared Value
  lazy_parsed bytes (some document) = (ok document, [])
  lazy_parsed bytes none = elim (from_slice bytes) [
    | some document ↦ (ok document, [])
    | none ↦ (err invalid, [])
  ]

  abbrev pub send : Prepared → Bytes → Run Bytes Prepared (Outcome Response)
  send p bytes = elim (upstream p bytes) [
    | ok response ↦ (ok (answered response), sent p bytes ∷ [])
    | err e ↦ (err e, sent p bytes ∷ [])
  ]

  abbrev pub forward :
      Schedule → Bytes → Option Value → Prepared → Run Bytes Prepared (Outcome Response)
  forward schedule bytes parsed p = lazy_parsed bytes parsed >>> λ document.
      preflight schedule document >>> λ _. burn >>> λ _. send p bytes

  -- Stages 1 to 3, behind the screen: the look-up and the preparation run together.
  abbrev pub proceed : Schedule → Bytes × Option Value → Run Bytes Prepared (Outcome Response)
  proceed schedule (bytes, parsed) = elim cached [
    | some content ↦ (ok (cache_hit content), looked_up request.raw_prompt ∷ prepared bytes ∷ [])
    | none ↦
        (prep bytes, looked_up request.raw_prompt ∷ prepared bytes ∷ [])
        >>> forward schedule bytes parsed
  ]

  unfoldable pub execute_proxy : Schedule → Run Bytes Prepared (Outcome Response)
  execute_proxy schedule = screen >>> proceed schedule
