-- ===== src/Proxy/Sent.antt =====
-- The pipeline as a whole: what goes upstream, and what happens when the redaction fails.
use red_eye_engine_gateway.Common.{
  true, Option, none, some, List, [], ◌∷◌, String, Result, ok, err, ◌≡◌, refl, ap, ◌∙◌, inl, inr,
  All, OnOk, Option-cases,
}
use red_eye_engine_gateway.Json.{Value}
use red_eye_engine_gateway.Errors.{GatewayError}
use red_eye_engine_gateway.Proxy.Redaction.{call_compliance_redact}
use red_eye_engine_gateway.Proxy.Pipeline.{
  Env, Request, Event, asked_compliance, looked_up, prepared, Schedule, Outcome, cache_hit, ◌>>>◌,
  screen, serialise, cached, forward, proceed, execute_proxy, redact_body, redact,
}
use red_eye_engine_gateway.Proxy.Cleared.{Holds, Holds-bind, IsScreened, IsSound, IsSoundOutcome}
use red_eye_engine_gateway.Proxy.Stages.{Holds-weaken, screen-Holds, forward-Holds, screen-pii}

module _ {Bytes Prepared Response : Type 0} (env : Env Bytes Prepared Response)
    (request : Request Bytes) where
  -- The two events of the look-up and the preparation.
  abbrev both : Bytes → List (Event Bytes Prepared)
  both bytes = looked_up request.raw_prompt ∷ prepared bytes ∷ []

  proceed-hit :
      (schedule : Schedule) (bytes : Bytes) (parsed : Option Value) (content : String)
      → cached env request ≡ some content
      → proceed env request schedule (bytes, parsed) ≡ (ok (cache_hit content), both bytes)
  proceed-hit schedule bytes parsed content h = rw (h, proceed) refl

  proceed-miss :
      (schedule : Schedule) (bytes : Bytes) (parsed : Option Value)
      → cached env request ≡ none
      → proceed env request schedule (bytes, parsed)
        ≡ ((env.prep bytes, both bytes) >>> forward env request schedule bytes parsed)
  proceed-miss schedule bytes parsed h = rw (h, proceed) refl

  both-Holds :
      {A : Type 0} (bytes : Bytes) (parsed : Option Value) (r : Result GatewayError A)
      → IsScreened env request bytes parsed
      → Holds (IsSound env request) (λ a. r ≡ ok a) (r, both bytes)
  unfolding Holds
  both-Holds bytes parsed (ok a) screened = ((tt, ((parsed, screened), tt)), refl)
  both-Holds bytes parsed (err e) screened = ((tt, ((parsed, screened), tt)), tt)

  outcome_of : Result GatewayError (Outcome Response) → Outcome Response
  outcome_of (ok a) = a
  outcome_of (err e) = cache_hit ""

  outcome-ok :
      (a b : Outcome Response) → Path (Result GatewayError (Outcome Response)) (ok a) (ok b) → a ≡ b
  unfolding outcome_of
  outcome-ok a b e = ap outcome_of e

  proceed-Holds :
      (schedule : Schedule) (bytes : Bytes) (parsed : Option Value)
      → IsScreened env request bytes parsed
      → Holds
          (IsSound env request)
          (IsSoundOutcome env request)
          (proceed env request schedule (bytes, parsed))
  proceed-Holds schedule bytes parsed screened = elim (Option-cases (cached env request)) [
    | inr (content, hit) ↦ rw (proceed-hit schedule bytes parsed content hit) (
        Holds-weaken env request (λ a. ok (cache_hit content) ≡ ok a) (IsSoundOutcome env request) _
          (λ a e. rw (← outcome-ok (cache_hit content) a e) hit)
          (both-Holds bytes parsed (ok (cache_hit content)) screened))
    | inl missed ↦ rw (proceed-miss schedule bytes parsed missed) (
        Holds-bind (IsSound env request) (λ p. env.prep bytes ≡ ok p) (IsSoundOutcome env request)
          (env.prep bytes, both bytes) (forward env request schedule bytes parsed)
          (both-Holds bytes parsed (env.prep bytes) screened)
          (λ p built. forward-Holds env request schedule bytes parsed p screened missed built))
  ]

  -- Whatever the other components answer and however the two guards interleave: a body that a
  -- provider's request is prepared from, and one that goes upstream, is the request's, if no PII was
  -- found in the prompt, or else the compliance service's version of it. What goes upstream was
  -- prepared from that body; nothing was found in a cache; and the token bucket, the loop detection,
  -- on the document of a redacted body, and the burn rate have let the request pass. An answer is
  -- the upstream's to such a request, or what a cache has.
  pub execute_proxy-IsCleared :
      (schedule : Schedule)
      → All (IsSound env request) (execute_proxy env request schedule).1
        × OnOk (IsSoundOutcome env request) (execute_proxy env request schedule).0
  unfolding execute_proxy Holds
  execute_proxy-IsCleared schedule =
      Holds-bind (IsSound env request) (λ (bytes, d). IsScreened env request bytes d)
        (IsSoundOutcome env request) (screen env request) (proceed env request schedule)
        (screen-Holds env request env.is_pii refl)
        (λ (bytes, d) screened. proceed-Holds schedule bytes d screened)

  redact_body-read :
      (parsed : Value)
      → env.from_slice request.body ≡ some parsed
      → redact_body env request ≡ redact env request parsed
  redact_body-read parsed h = rw (h, redact_body) refl

  redact-err :
      (parsed : Value) (r : Result GatewayError Value) (e : GatewayError)
      → r ≡ err e
      → ((r, asked_compliance parsed ∷ []) >>> serialise env request)
        ≡ (err e, asked_compliance parsed ∷ [])
  redact-err parsed r e h = rw h refl

  -- If the prompt matches and the compliance service gives no redacted document, the request ends
  -- with the error of that: no cache is asked, no key chosen, nothing charged and nothing sent.
  pub execute_proxy_fails_closed :
      (schedule : Schedule) (parsed : Value) (e : GatewayError)
      → env.is_pii ≡ ok true
      → env.from_slice request.body ≡ some parsed
      → call_compliance_redact env.decimal (env.compliance parsed) ≡ err e
      → execute_proxy env request schedule ≡ (err e, asked_compliance parsed ∷ [])
  unfolding execute_proxy
  execute_proxy_fails_closed schedule parsed e pii read failed =
      ap (λ m. m >>> proceed env request schedule)
        (screen-pii env request pii
          ∙ redact_body-read parsed read
          ∙ redact-err parsed (call_compliance_redact env.decimal (env.compliance parsed)) e failed)
