-- ===== src/Proxy/Cleared.antt =====
-- What a request has passed when its body goes upstream.
use red_eye_engine_gateway.Common.{
  true, false, Option, none, some, ok, err, ◌≡◌, All, All-append, OnOk,
}
use red_eye_engine_gateway.Json.{Value}
use red_eye_engine_gateway.Proxy.Redaction.{call_compliance_redact}
use red_eye_engine_gateway.Proxy.Pipeline.{
  Env, Request, Event, prepared, sent, Outcome, cache_hit, answered, Run, ◌>>>◌, cached,
}

-- The rule of a stage and the next: what holds of every event, and of the result that goes on.
unfoldable pub Holds :
    {Bytes Prepared A : Type 0} (P : Event Bytes Prepared → Type 0) (Q : A → Type 0)
    → Run Bytes Prepared A
    → Type 0
Holds P Q (r, events) = All P events × OnOk Q r

pub Holds-bind :
    {Bytes Prepared A B : Type 0} (P : Event Bytes Prepared → Type 0) (Q : A → Type 0)
    (R : B → Type 0) (m : Run Bytes Prepared A) (next : A → Run Bytes Prepared B)
    → Holds P Q m
    → ((a : A) → Q a → Holds P R (next a))
    → Holds P R (m >>> next)
unfolding Holds
Holds-bind P Q R (err e, events) next (h, _) k = (h, tt)
Holds-bind P Q R (ok a, events) next (h, q) k =
    let (hs, r) = k a q in (All-append P events (next a).1 h hs, r)

module _ {Bytes Prepared Response : Type 0} (env : Env Bytes Prepared Response)
    (request : Request Bytes) where
  -- The body has passed the screen: no PII was found in the prompt, or it is the compliance
  -- service's version of the request's body.
  pub data IsScreened : Bytes → Option Value → Type 0 where
    clean : env.is_pii ≡ ok false → IsScreened request.body none
    redacted :
        (bytes : Bytes) (parsed document : Value)
        → env.is_pii ≡ ok true
        → env.from_slice request.body ≡ some parsed
        → call_compliance_redact env.decimal (env.compliance parsed) ≡ ok document
        → env.to_vec document ≡ some bytes
        → IsScreened bytes (some document)

  -- The document that the loop detection is given: the redacted one, or the body's own.
  pub data IsDocument (bytes : Bytes) : Option Value → Value → Type 0 where
    kept : (document : Value) → IsDocument bytes (some document) document
    parsed_now :
        (document : Value) → env.from_slice bytes ≡ some document → IsDocument bytes none document

  -- Everything that a request sent upstream has behind it: it was prepared from the screened body,
  -- and that is the body that its fallbacks are built from.
  pub record IsCleared (p : Prepared) (bytes : Bytes) : Type 0 where
    pub built : env.prep bytes ≡ ok p
    pub parsed : Option Value
    pub document : Value
    pub screened : IsScreened bytes parsed
    pub read : IsDocument bytes parsed document
    pub missed : cached env request ≡ none
    pub within_bucket : env.token_bucket ≡ ok tt
    pub no_loop : env.loop_detection document ≡ ok tt
    pub within_burn_rate : env.burn_rate ≡ ok tt

  -- What is asked of an event: of what is prepared and of what is sent.
  abbrev pub IsSound : Event Bytes Prepared → Type 0
  IsSound (prepared bytes) = (parsed : Option Value) × IsScreened bytes parsed
  IsSound (sent p bytes) = IsCleared p bytes
  IsSound _ = Unit {0}

  -- What is asked of a result: an answer is the upstream's to a request that is cleared, and a hit is
  -- what a cache has.
  abbrev pub IsSoundOutcome : Outcome Response → Type 0
  IsSoundOutcome (answered response) =
      (p : Prepared) × (bytes : Bytes) × IsCleared p bytes × (env.upstream p bytes ≡ ok response)
  IsSoundOutcome (cache_hit content) = cached env request ≡ some content
