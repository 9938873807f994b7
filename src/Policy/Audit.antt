-- ===== src/Policy/Audit.antt =====
-- The guard's answer against its audit record, and who is refused.
use red_eye_engine_gateway.Common.{
  ◌≡◌, refl, sym, Bool, true, false, Option, none, some, List, [], ◌∷◌, String, Bool-cases, inl,
  inr, not, if-both, Result, ok, err, ◌⊎◌, ◌↔◌, Option-cases,
}
use red_eye_engine_gateway.Json.{Value}
use red_eye_engine_gateway.Geo.{ResidencyRule, Headers}
use red_eye_engine_gateway.Policy.{
  CompliancePolicy, OpaInput, OpaResult, OpaReply, answered, unreachable, error_status, unreadable,
  ComplianceAuditRecord, Decision, allowed, blocked, decide, evaluate_policy, Answer, refused,
  served, refusal, check, evaluate, is_injection, opa_request, security_guard_middleware, audit,
  respond,
}

-- OPA's reply does not let the request through.
abbrev pub Denies : Bool → OpaReply → Type 0
Denies fail_closed (answered result) = result.allow ≡ false
Denies fail_closed _ = fail_closed ≡ true

abbrev pub is_blocked : Decision → Bool
is_blocked decision = not decision.policy_result

-- The two variables agree.
abbrev IsAgreed : Decision → Type 0
IsAgreed decision = (decision ≡ allowed) ⊎ ((reason : String) × (decision ≡ blocked reason))

decide-IsAgreed :
    (fail_closed : Bool) (r : Result String OpaResult) → IsAgreed (decide fail_closed r allowed)
decide-IsAgreed fail_closed (ok result) =
    if-both IsAgreed (not result.allow) _ _ (inr (_, refl)) (inl refl)
decide-IsAgreed fail_closed (err e) = if-both IsAgreed fail_closed _ _ (inr (_, refl)) (inl refl)

decide_iff :
    (fail_closed : Bool) (reply : OpaReply)
    → (is_blocked (decide fail_closed (evaluate_policy reply) allowed) ≡ true)
      ↔ Denies fail_closed reply
unfolding evaluate_policy
decide_iff true unreachable = ((λ _. refl), (λ _. refl))
decide_iff false unreachable = ((λ h. h), (λ h. h))
decide_iff true error_status = ((λ _. refl), (λ _. refl))
decide_iff false error_status = ((λ h. h), (λ h. h))
decide_iff true unreadable = ((λ _. refl), (λ _. refl))
decide_iff false unreadable = ((λ h. h), (λ h. h))
decide_iff b (answered result) = elim (Bool-cases result.allow) [
  | inl allows ↦ rw allows ((λ h. sym h), (λ h. sym h))
  | inr denies ↦ rw denies ((λ _. refl), (λ _. refl))
]

same_payload : {o : Option Value} {a b : Value} → o ≡ some a → o ≡ some b → a ≡ b
same_payload h g = cc

module _ {Bytes Response : Type 0} (to_lowercase : String → String)
    (from_slice : Bytes → Option Value) (ask : OpaInput → OpaReply)
    (next : Headers → Bytes → Response) where
  -- One record is written, and it agrees with the answer.
  pub data IsAudited (headers : Headers) (bytes : Bytes)
      : Answer Response × List ComplianceAuditRecord → Type 0 where
    let_through :
        (r : ComplianceAuditRecord)
        → r.policy_result ≡ true
        → r.block_reason ≡ none
        → IsAudited headers bytes (served (next headers bytes), r ∷ [])
    stopped :
        (r : ComplianceAuditRecord) (reason : String)
        → r.policy_result ≡ false
        → r.block_reason ≡ some reason
        → IsAudited headers bytes (refused 403 (refusal (some reason)), r ∷ [])

  -- A body is stopped: it is JSON, and its prompt is an injection or OPA denies the question.
  abbrev pub IsStopped : CompliancePolicy → Headers → Bytes → Type 0
  IsStopped policy headers bytes =
      (payload : Value) × (from_slice bytes ≡ some payload)
      × ((is_injection to_lowercase payload ≡ true)
          ⊎ Denies policy.fail_closed (ask (opa_request policy headers payload)))

  abbrev pub is_refused : Answer Response → Bool
  is_refused (refused _ _) = true
  is_refused _ = false

  decided-IsAudited :
      (headers : Headers) (residency : Option ResidencyRule) (now : String) (bytes : Bytes)
      (decision : Decision)
      → IsAgreed decision
      → IsAudited headers bytes (
        respond to_lowercase from_slice ask next headers bytes decision,
        audit headers residency now decision ∷ [],
      )
  decided-IsAudited headers residency now bytes decision (inl e) = rw e (let_through _ refl refl)
  decided-IsAudited headers residency now bytes decision (inr (reason, e)) =
      rw e (stopped _ reason refl refl)

  refused-blocked :
      (headers : Headers) (bytes : Bytes) (decision : Decision)
      → is_refused (respond to_lowercase from_slice ask next headers bytes decision)
        ≡ is_blocked decision
  refused-blocked headers bytes decision = elim (Bool-cases decision.policy_result) [
    | inl passes ↦ rw passes refl
    | inr stops ↦ rw stops refl
  ]

  evaluate-IsAgreed :
      (policy : CompliancePolicy) (headers : Headers) (payload : Value)
      → IsAgreed (evaluate to_lowercase from_slice ask next policy headers payload)
  evaluate-IsAgreed policy headers payload = elim (Bool-cases (is_injection to_lowercase payload)) [
    | inl found ↦ rw (found, evaluate) (inr (_, refl))
    | inr clean ↦ rw (clean, evaluate) (decide-IsAgreed policy.fail_closed _)
  ]

  evaluate_iff :
      (policy : CompliancePolicy) (headers : Headers) (payload : Value)
      → (is_blocked (evaluate to_lowercase from_slice ask next policy headers payload) ≡ true) ↔ (
          (is_injection to_lowercase payload ≡ true)
          ⊎ Denies policy.fail_closed (ask (opa_request policy headers payload)))
  evaluate_iff policy headers payload = elim (Bool-cases (is_injection to_lowercase payload)) [
    | inl found ↦ rw (found, evaluate) ((λ _. inl refl), (λ _. refl))
    | inr clean ↦
        let (there, back) =
          decide_iff policy.fail_closed (ask (opa_request policy headers payload)) in
        rw (clean, evaluate)
          ((λ h. inr (there h)), (λ d. elim d [ inl e ↦ cc e | inr denied ↦ back denied ]))
  ]

  check-some :
      (policy : CompliancePolicy) (headers : Headers) (bytes : Bytes) (payload : Value)
      → from_slice bytes ≡ some payload
      → check to_lowercase from_slice ask next policy headers bytes
        ≡ evaluate to_lowercase from_slice ask next policy headers payload
  unfolding check
  check-some policy headers bytes payload h = rw (h, check) refl

  check-none :
      (policy : CompliancePolicy) (headers : Headers) (bytes : Bytes)
      → from_slice bytes ≡ none
      → check to_lowercase from_slice ask next policy headers bytes ≡ allowed
  unfolding check
  check-none policy headers bytes h = rw (h, check) refl

  check-IsAgreed :
      (policy : CompliancePolicy) (headers : Headers) (bytes : Bytes)
      → IsAgreed (check to_lowercase from_slice ask next policy headers bytes)
  check-IsAgreed policy headers bytes = elim (Option-cases (from_slice bytes)) [
    | inl unread ↦ rw (check-none policy headers bytes unread) (inl refl)
    | inr (payload, parsed) ↦
        rw (check-some policy headers bytes payload parsed)
          (evaluate-IsAgreed policy headers payload)
  ]

  check_iff :
      (policy : CompliancePolicy) (headers : Headers) (bytes : Bytes)
      → (is_blocked (check to_lowercase from_slice ask next policy headers bytes) ≡ true)
        ↔ IsStopped policy headers bytes
  check_iff policy headers bytes = elim (Option-cases (from_slice bytes)) [
    | inl unread ↦
        rw (check-none policy headers bytes unread, unread)
          ((λ h. cc h), (λ (payload, parsed, _). cc parsed))
    | inr (payload, parsed) ↦
        let (there, back) = evaluate_iff policy headers payload in
        rw (check-some policy headers bytes payload parsed) (
          (λ h. (payload, parsed, there h)),
          (λ (other, read, why). back (rw (same_payload read parsed) at why)),
        )
  ]

  -- Every body that is read is either passed on unchanged or refused, with one audit record, which
  -- says which and names the reason of the refusal; and it is refused exactly if it is JSON and its
  -- prompt has a known injection or the policy engine does not let it through, where a failure of
  -- the engine counts as a denial exactly if the policy fails closed.
  pub security_guard_middleware-IsAudited :
      (policy : CompliancePolicy) (headers : Headers) (residency : Option ResidencyRule)
      (now : String) (bytes : Bytes)
      → let outcome =
          security_guard_middleware to_lowercase from_slice ask next policy headers residency now
            (some bytes) in
        IsAudited headers bytes outcome
        × ((is_refused outcome.0 ≡ true) ↔ IsStopped policy headers bytes)
  unfolding security_guard_middleware
  security_guard_middleware-IsAudited policy headers residency now bytes =
      let decision = check to_lowercase from_slice ask next policy headers bytes in
      (
        decided-IsAudited headers residency now bytes decision
            (check-IsAgreed policy headers bytes),
        rw (refused-blocked headers bytes decision) (check_iff policy headers bytes),
      )
