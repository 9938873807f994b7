-- ===== src/Proxy/Stages.antt =====
-- The stages of the pipeline, one by one: none sends a body that has not passed what comes before.
use red_eye_engine_gateway.Common.{
  Bool, true, false, Option, none, some, [], ◌∷◌, String, Result, ok, err, ◌≡◌, refl,
}
use red_eye_engine_gateway.Json.{Value}
use red_eye_engine_gateway.Errors.{GatewayError}
use red_eye_engine_gateway.Proxy.Redaction.{call_compliance_redact}
use red_eye_engine_gateway.Proxy.Pipeline.{
  Env, Request, Event, asked_compliance, charged, checked_loop, checked_burn, sent, Schedule,
  bucket_first, loop_first, bucket_wins, loop_wins, answered, Run, screen, redact_body, redact,
  serialise, cached, guarded, preflight, preflight_label, bucket_then_loop, loop_then_bucket,
  unless_refused, burn, lazy_parsed, send, forward,
}
use red_eye_engine_gateway.Proxy.Cleared.{
  Holds, Holds-bind, IsScreened, clean, redacted, IsDocument, kept, parsed_now, IsCleared, IsSound,
  IsSoundOutcome,
}

module _ {Bytes Prepared Response : Type 0} (env : Env Bytes Prepared Response)
    (request : Request Bytes) where
  serialise-Holds :
      (parsed document : Value)
      → env.is_pii ≡ ok true
      → env.from_slice request.body ≡ some parsed
      → call_compliance_redact env.decimal (env.compliance parsed) ≡ ok document
      → (o : Option Bytes) → env.to_vec document ≡ o
      → Holds
          (IsSound env request)
          (λ (bytes, d). IsScreened env request bytes d)
          (serialise env request document)
  unfolding Holds
  serialise-Holds parsed document pii read done none e = rw (e, serialise, Holds) (tt, tt)
  serialise-Holds parsed document pii read done (some bytes) e =
      rw (e, serialise, Holds) (tt, redacted bytes parsed document pii read done e)

  asked-Holds :
      (parsed : Value) (r : Result GatewayError Value)
      → Holds (IsSound env request) (λ d. r ≡ ok d) (r, asked_compliance parsed ∷ [])
  unfolding Holds
  asked-Holds parsed (ok d) = ((tt, tt), refl)
  asked-Holds parsed (err e) = ((tt, tt), tt)

  redact-Holds :
      (parsed : Value)
      → env.is_pii ≡ ok true
      → env.from_slice request.body ≡ some parsed
      → (r : Result GatewayError Value)
      → call_compliance_redact env.decimal (env.compliance parsed) ≡ r
      → Holds
          (IsSound env request)
          (λ (bytes, d). IsScreened env request bytes d)
          (redact env request parsed)
  redact-Holds parsed pii read r e =
      Holds-bind (IsSound env request)
        (λ d. call_compliance_redact env.decimal (env.compliance parsed) ≡ ok d)
        (λ (bytes, d). IsScreened env request bytes d)
        (call_compliance_redact env.decimal (env.compliance parsed), asked_compliance parsed ∷ [])
        (serialise env request)
        (asked-Holds parsed (call_compliance_redact env.decimal (env.compliance parsed)))
        (λ d done. serialise-Holds parsed d pii read done (env.to_vec d) refl)

  redact_body-Holds :
      env.is_pii ≡ ok true
      → (o : Option Value) → env.from_slice request.body ≡ o
      → Holds
          (IsSound env request)
          (λ (bytes, d). IsScreened env request bytes d)
          (redact_body env request)
  unfolding Holds
  redact_body-Holds pii none e = rw (e, redact_body, Holds) (tt, tt)
  redact_body-Holds pii (some parsed) e =
      rw (e, redact_body)
        (redact-Holds parsed pii e (call_compliance_redact env.decimal (env.compliance parsed))
          refl)

  screen-clean : env.is_pii ≡ ok false → screen env request ≡ (ok (request.body, none), [])
  screen-clean h = rw (h, screen) refl

  pub screen-pii : env.is_pii ≡ ok true → screen env request ≡ redact_body env request
  screen-pii h = rw (h, screen) refl

  pub screen-Holds :
      (r : Result String Bool)
      → env.is_pii ≡ r
      → Holds
          (IsSound env request)
          (λ (bytes, d). IsScreened env request bytes d)
          (screen env request)
  unfolding Holds
  screen-Holds (err e) h = rw (h, screen, Holds) (tt, tt)
  screen-Holds (ok false) h = rw (screen-clean h) (tt, clean h)
  screen-Holds (ok true) h =
      rw (screen-pii h) (redact_body-Holds h (env.from_slice request.body) refl)

  guarded-Holds :
      (label : GatewayError → String) (event : Event Bytes Prepared)
      (r : Result GatewayError (Unit {0}))
      → (IsSound env request) event
      → Holds (IsSound env request) (λ _. r ≡ ok tt) (guarded env request label event r)
  unfolding Holds
  guarded-Holds label event (ok tt) h = ((h, tt), refl)
  guarded-Holds label event (err e) h = ((h, (tt, tt)), tt)

  pub Holds-weaken :
      {A : Type 0} (Q R : A → Type 0) (m : Run Bytes Prepared A)
      → ((a : A) → Q a → R a)
      → Holds (IsSound env request) Q m
      → Holds (IsSound env request) R m
  unfolding Holds
  Holds-weaken Q R (ok a, events) k (h, q) = (h, k a q)
  Holds-weaken Q R (err e, events) k (h, q) = (h, tt)

  -- Both guards let the request pass.
  abbrev Passed : Value → Type 0
  Passed document = (env.token_bucket ≡ ok tt) × (env.loop_detection document ≡ ok tt)

  bucket_then_loop-Holds :
      (document : Value)
      → Holds (IsSound env request) (λ _. Passed document) (bucket_then_loop env request document)
  bucket_then_loop-Holds document =
      Holds-bind (IsSound env request) (λ _. env.token_bucket ≡ ok tt) (λ _. Passed document)
        (guarded env request (preflight_label env request) charged env.token_bucket) _
        (guarded-Holds (preflight_label env request) charged env.token_bucket tt)
        (λ _ paid.
          Holds-weaken (λ _. env.loop_detection document ≡ ok tt) (λ _. Passed document) _
            (λ _ fresh. (paid, fresh))
            (guarded-Holds (preflight_label env request) (checked_loop document)
              (env.loop_detection document) tt))

  loop_then_bucket-Holds :
      (document : Value)
      → Holds (IsSound env request) (λ _. Passed document) (loop_then_bucket env request document)
  loop_then_bucket-Holds document =
      Holds-bind (IsSound env request) (λ _. env.loop_detection document ≡ ok tt)
        (λ _. Passed document)
        (guarded env request (preflight_label env request) (checked_loop document)
          (env.loop_detection document))
        _
        (guarded-Holds (preflight_label env request) (checked_loop document)
          (env.loop_detection document) tt)
        (λ _ fresh.
          Holds-weaken (λ _. env.token_bucket ≡ ok tt) (λ _. Passed document) _
            (λ _ paid. (paid, fresh))
            (guarded-Holds (preflight_label env request) charged env.token_bucket tt))

  unless_refused-Holds :
      (document : Value) (run : Run Bytes Prepared (Unit {0})) (r : Result GatewayError (Unit {0}))
      → Holds (IsSound env request) (λ _. Passed document) run
      → Holds
          (IsSound env request)
          (λ _. Passed document)
          (unless_refused env request document run r)
  unfolding Holds
  unless_refused-Holds document run (ok _) h = h
  unless_refused-Holds document run (err e) h = ((tt, (tt, (tt, tt))), tt)

  preflight-Holds :
      (schedule : Schedule) (document : Value)
      → Holds (IsSound env request) (λ _. Passed document) (preflight env request schedule document)
  preflight-Holds bucket_first document = bucket_then_loop-Holds document
  preflight-Holds loop_first document = loop_then_bucket-Holds document
  preflight-Holds bucket_wins document =
      unless_refused-Holds document (bucket_then_loop env request document) env.token_bucket
        (bucket_then_loop-Holds document)
  preflight-Holds loop_wins document =
      unless_refused-Holds document (loop_then_bucket env request document)
        (env.loop_detection document) (loop_then_bucket-Holds document)

  lazy_parsed-Holds :
      (bytes : Bytes) (parsed o : Option Value)
      → env.from_slice bytes ≡ o
      → Holds
          (IsSound env request)
          (IsDocument env request bytes parsed)
          (lazy_parsed env request bytes parsed)
  unfolding Holds
  lazy_parsed-Holds bytes (some document) o h = (tt, kept document)
  lazy_parsed-Holds bytes none none h = rw (h, lazy_parsed, Holds) (tt, tt)
  lazy_parsed-Holds bytes none (some document) h =
      rw (h, lazy_parsed, Holds) (tt, parsed_now document h)

  send-step :
      (p : Prepared) (bytes : Bytes) (r : Result GatewayError Response)
      → env.upstream p bytes ≡ r
      → send env request p bytes ≡ elim r [
        | ok response ↦ (ok (answered response), sent p bytes ∷ [])
        | err e ↦ (err e, sent p bytes ∷ [])
      ]
  send-step p bytes r h = rw (h, send) refl

  send-Holds :
      (p : Prepared) (bytes : Bytes) (r : Result GatewayError Response)
      → env.upstream p bytes ≡ r
      → IsCleared env request p bytes
      → Holds (IsSound env request) (IsSoundOutcome env request) (send env request p bytes)
  unfolding Holds
  send-Holds p bytes (ok response) h c =
      rw (send-step p bytes (ok response) h) ((c, tt), (p, bytes, c, h))
  send-Holds p bytes (err e) h c = rw (send-step p bytes (err e) h) ((c, tt), tt)

  pub forward-Holds :
      (schedule : Schedule) (bytes : Bytes) (parsed : Option Value) (p : Prepared)
      → IsScreened env request bytes parsed
      → cached env request ≡ none
      → env.prep bytes ≡ ok p
      → Holds
          (IsSound env request)
          (IsSoundOutcome env request)
          (forward env request schedule bytes parsed p)
  forward-Holds schedule bytes parsed p screened missed built =
      Holds-bind (IsSound env request) (IsDocument env request bytes parsed)
        (IsSoundOutcome env request) (lazy_parsed env request bytes parsed) _
        (lazy_parsed-Holds bytes parsed (env.from_slice bytes) refl)
        (λ document read.
          Holds-bind (IsSound env request) (λ _. Passed document) (IsSoundOutcome env request)
            (preflight env request schedule document) _ (preflight-Holds schedule document)
            (λ _ passed.
              Holds-bind (IsSound env request) (λ _. env.burn_rate ≡ ok tt)
                (IsSoundOutcome env request) (burn env request) _
                (guarded-Holds (λ _. "__burn_rate_blocked") checked_burn env.burn_rate tt)
                (λ _ within. send-Holds p bytes (env.upstream p bytes) refl (record {
                  built = built;
                  parsed = parsed;
                  document = document;
                  screened = screened;
                  read = read;
                  missed = missed;
                  within_bucket = passed.0;
                  no_loop = passed.1;
                  within_burn_rate = within;
                }))))
