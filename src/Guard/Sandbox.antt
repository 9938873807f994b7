-- ===== src/Guard/Sandbox.antt =====
-- `enforce_mcp_sandbox`: a response that calls a tool is shown to the policy service, and one that
-- the policy denies is replaced by a note to the model. The policy service is OPA behind
-- `{compliance_url}/v1/data/redeye/mcp/allow`.
pub mod Steering
use red_eye_engine_gateway.Common.{
  ℕ, Bool, true, false, not, Option, none, some, List, [], ◌∷◌, String, codes, contains, take, leb,
  ◌&&◌, if◌then◌else◌, ◌>>=?◌, unwrap_or,
}
use red_eye_engine_gateway.Json.{
  Value, Items, Fields, str, arr, obj, nil, cons, end, field, get, as_str, as_bool, find_field, nth,
  insert_field, remove_field, update_field, update,
}

abbrev pub Bytes : Type 0
Bytes = List ℕ

-- `serde_json::from_slice` and `serde_json::to_vec`
pub record Json : Type 0 where
  pub from_slice : Bytes → Option Value
  pub to_vec : Value → Option Bytes

-- What the call of OPA comes back with: a status and the body, if it is JSON, or no answer within
-- 200 ms.
pub data OpaResult : Type 0 where
  answered : ℕ → Option Value → OpaResult
  unreachable : OpaResult

abbrev pub is_success : ℕ → Bool
is_success status = leb 200 status && leb status 299

abbrev pub scan_window : ℕ
scan_window = 4096

unfoldable pub has_tool_calls : Bytes → Bool
has_tool_calls body = contains (codes "tool_calls") (take scan_window body)

-- The pointer step `/0`.
abbrev pub step_zero : Value → Option Value
step_zero (arr vs) = nth 0 vs
step_zero (obj fs) = find_field "0" fs
step_zero _ = none

unfoldable pub first_tool_name : Value → String
first_tool_name body =
    unwrap_or
      (get "choices" body
        >>=? step_zero
        >>=? get "message"
        >>=? get "tool_calls"
        >>=? step_zero
        >>=? get "function"
        >>=? get "name"
        >>=? as_str)
      "unknown_tool"

abbrev pub opa_payload : String → String → Value
opa_payload tenant_id tool_name = obj (
    field "input"
      (obj (
        field "tenant_id" (str tenant_id)
          (field "tool_name" (str tool_name) (field "action" (str "execute") end))))
      end)

-- The Boolean under `result`, if the answer has one.
abbrev pub policy_result : Option Value → Option Bool
policy_result answer = answer >>=? get "result" >>=? as_bool

unfoldable pub denied : Bool → OpaResult → Bool
denied fail_open (answered status answer) =
    if is_success status
    then not (unwrap_or (policy_result answer) (not fail_open))
    else not fail_open
denied fail_open unreachable = not fail_open

abbrev pub deny_content : String
deny_content = "{\"error\":\"RedEye Guard: Policy Denied. Use read-only tools.\"}"

abbrev pub deny_message : Value
deny_message = obj (field "role" (str "tool") (field "content" (str deny_content) end))

-- The first choice, told to stop.
unfoldable pub deny_choice : Value → Value
deny_choice (obj fs) = obj (
    insert_field "finish_reason" (str "stop")
      (remove_field "tool_calls" (update_field "message" deny_message fs)))
deny_choice v = v

abbrev pub deny_choices : Value → Value
unfolding deny_choice
deny_choices (arr (cons c cs)) = arr (cons (deny_choice c) cs)
deny_choices v = v

unfoldable pub soft_steer : Value → Value
unfolding deny_choices
soft_steer body = elim (get "choices" body) [
  | none ↦ body
  | some choices ↦ update "choices" (deny_choices choices) body
]

module _ (json : Json) (opa : Value → OpaResult) (fail_open : Bool) where
  open json use {from_slice, to_vec}

  unfoldable pub enforce_mcp_sandbox : String → Bytes → Bytes
  unfolding has_tool_calls first_tool_name denied soft_steer
  enforce_mcp_sandbox tenant_id response_body =
      if has_tool_calls response_body
      then elim (from_slice response_body) [
        | none ↦ response_body
        | some body ↦
            if denied fail_open (opa (opa_payload tenant_id (first_tool_name body)))
            then unwrap_or (to_vec (soft_steer body)) response_body
            else response_body
      ]
      else response_body
