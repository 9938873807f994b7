-- ===== src/Guard/Sandbox/Steering.antt =====
-- What the policy's answers do to a response.
use red_eye_engine_gateway.Common.{
  Bool, true, false, none, some, String, str_eq, is_some, ◌≡◌, ◌≢◌, ◌⊎◌, inl, inr, refl, ap, ◌∙◌,
  Option-cases,
}
use red_eye_engine_gateway.Json.{
  Value, Items, Fields, str, arr, obj, cons, get, find_field, insert_field, remove_field,
  update_field, update,
}
use red_eye_engine_gateway.Json.Lookup.{
  find-insert, find-insert-other, find-update, find-update-other, find-remove-other,
}
use red_eye_engine_gateway.Guard.Sandbox.{
  Bytes, Json, OpaResult, answered, unreachable, is_success, has_tool_calls, first_tool_name,
  opa_payload, policy_result, denied, deny_message, deny_choice, soft_steer, enforce_mcp_sandbox,
}

-- The first choice `gs` is the choice `fs` with the denial as its message.
abbrev pub IsDenied : Fields → Fields → Type 0
IsDenied fs gs =
    (find_field "message" gs ≡ some deny_message)
    × (find_field "finish_reason" gs ≡ some (str "stop"))
    × ((k : String)
        → str_eq "message" k ≡ false
        → str_eq "finish_reason" k ≡ false
        → str_eq "tool_calls" k ≡ false
        → find_field k gs ≡ find_field k fs)

-- The response `w` is the response `v` with its first choice denied, and is like it in the rest.
abbrev pub IsSteered : Value → Fields → Items → Value → Type 0
IsSteered v fs cs w =
    ((gs : Fields) × (get "choices" w ≡ some (arr (cons (obj gs) cs))) × IsDenied fs gs)
    × ((k : String) → str_eq "choices" k ≡ false → get k w ≡ get k v)

deny_choice-IsDenied :
    (fs : Fields)
    → is_some (find_field "message" fs) ≡ true
    → (gs : Fields) × (deny_choice (obj fs) ≡ obj gs) × IsDenied fs gs
unfolding deny_choice
deny_choice-IsDenied fs h =
    let told = update_field "message" deny_message fs in
    let calm = remove_field "tool_calls" told in
    (
      insert_field "finish_reason" (str "stop") calm,
      refl,
      (
        find-insert-other "message" "finish_reason" (str "stop") calm refl
            ∙ find-remove-other "message" "tool_calls" told refl
            ∙ find-update "message" deny_message fs h,
        find-insert "finish_reason" (str "stop") calm,
        λ k m f t.
            find-insert-other k "finish_reason" (str "stop") calm f
            ∙ find-remove-other k "tool_calls" told t
            ∙ find-update-other k "message" deny_message fs m,
      ),
    )

get-update : (k : String) (u v : Value) → is_some (get k v) ≡ true → get k (update k u v) ≡ some u
get-update k u (obj fs) h = find-update k u fs h
get-update k u v h = cc

get-update-other :
    (j k : String) (u v : Value) → str_eq k j ≡ false → get j (update k u v) ≡ get j v
get-update-other j k u (obj fs) d = find-update-other j k u fs d
get-update-other j k u v d = refl

soft_steer-IsSteered :
    (v : Value) (fs : Fields) (cs : Items)
    → get "choices" v ≡ some (arr (cons (obj fs) cs))
    → is_some (find_field "message" fs) ≡ true
    → IsSteered v fs cs (soft_steer v)
unfolding soft_steer
soft_steer-IsSteered v fs cs e h =
    let (gs, denial, is_denied) = deny_choice-IsDenied fs h in
    let steered : Value = update "choices" (arr (cons (deny_choice (obj fs)) cs)) v in
    let same : soft_steer v ≡ steered = rw (e, soft_steer) refl in
    let found = get-update "choices" (arr (cons (deny_choice (obj fs)) cs)) v (rw e refl) in
    rw same (
      (gs, found ∙ ap (λ c. some (arr (cons c cs))) denial, is_denied),
      λ k d. get-update-other k "choices" _ v d,
    )

-- The answers on which the sandbox is to refuse: a policy that says no, or, unless it fails open,
-- a policy service that fails or is silent.
abbrev pub IsRefusal : Bool → OpaResult → Type 0
IsRefusal fail_open (answered status answer) =
    ((is_success status ≡ true) × (policy_result answer ≡ some false))
    ⊎ ((is_success status ≡ false) × (fail_open ≡ false))
IsRefusal fail_open unreachable = fail_open ≡ false

denied-refusal :
    (fail_open : Bool) (o : OpaResult) → IsRefusal fail_open o → denied fail_open o ≡ true
unfolding denied
denied-refusal fail_open (answered status answer) (inl (good, no_)) = rw (good, no_) refl
denied-refusal fail_open (answered status answer) (inr (bad, closed)) = rw (bad, closed) refl
denied-refusal fail_open unreachable closed = rw closed refl

module _ (json : Json) (opa : Value → OpaResult) (fail_open : Bool) where
  open json use {from_slice, to_vec}

  -- A response whose first 4096 bytes name `tool_calls`, that parses and has a first choice with
  -- a message, is replaced, when the policy service refuses, by the printed form of a document in
  -- which that choice carries the denial and finish_reason "stop", and everything else is kept.
  pub enforce_mcp_sandbox-IsSteered :
      (tenant_id : String) (response_body : Bytes) (v : Value) (fs : Fields) (cs : Items)
      → ((w : Value) → to_vec w ≢ none)
      → has_tool_calls response_body ≡ true
      → from_slice response_body ≡ some v
      → get "choices" v ≡ some (arr (cons (obj fs) cs))
      → is_some (find_field "message" fs) ≡ true
      → IsRefusal fail_open (opa (opa_payload tenant_id (first_tool_name v)))
      → (w : Value) × (to_vec w
          ≡ some (enforce_mcp_sandbox json opa fail_open tenant_id response_body))
        × IsSteered v fs cs w
  unfolding enforce_mcp_sandbox
  enforce_mcp_sandbox-IsSteered tenant_id response_body v fs cs prints scanned parsed choices
        message refused =
      let no_way = denied-refusal fail_open _ refused in
      elim (Option-cases (to_vec (soft_steer v))) [
        | inl e ↦ absurd (prints _ e)
        | inr (out, e) ↦ (
          soft_steer v,
          rw (scanned, parsed, no_way, e) refl,
          soft_steer-IsSteered v fs cs choices message,
        )
      ]
