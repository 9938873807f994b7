-- ===== src/Router/Fallback/Plan.antt =====
-- What a run of the fallbacks is to do: the requests that may be sent, which of them are given up,
-- and how the run ends.
use red_eye_engine_gateway.Common.{
  ℕ, Bool, true, false, List, [], ◌∷◌, ◌++◌, String, ◌≡◌, ◌==◌, any, Result, ok, err, map, arith,
}
use red_eye_engine_gateway.Errors.{GatewayError, response_build}
use red_eye_engine_gateway.Router.Keys.{KeyConfig, CircuitBreaker}
use red_eye_engine_gateway.Router.Request.{Bytes, HttpRequest, Codec, build_provider_request}
use red_eye_engine_gateway.Router.Upstream.{
  Response, Outcome, response, unreachable, Upstream, Prepared, is_retryable_error, World, failure,
}

-- The statuses after which another key is tried.
abbrev pub retryable : List ℕ
retryable = 429 ∷ 500 ∷ 502 ∷ 503 ∷ 504 ∷ []

abbrev pub is_retryable : Response → Bool
is_retryable r = any (λ s. r.status == s) retryable

pub is_retryable_error-any :
    (status : ℕ) → any (λ s. status == s) retryable ≡ is_retryable_error status
is_retryable_error-any status = ground arith

module _ (codec : Codec) (breaker : CircuitBreaker) (upstream : Upstream) where
  open breaker use {Store, trip}
  open upstream use {Net, send, clock}

  -- A key that may be tried, and its request, if that can be built.
  abbrev pub Candidate : Type 0
  Candidate = String × Result GatewayError HttpRequest

  abbrev pub candidate : Prepared → Bytes → KeyConfig → Candidate
  candidate prep body key = (
    key.key_alias,
    build_provider_request codec prep.provider_config prep.base_url key prep.model body
        prep.accept_header,
  )

  -- The primary key with the request prepared, and the fallback keys, each with its own.
  abbrev pub plan : Prepared → Bytes → List Candidate
  plan prep body =
      (prep.primary_key_alias, ok prep.primary_request)
      ∷ map (candidate prep body) prep.fallback_keys

  abbrev pub Attempt : Type 0
  Attempt = String × HttpRequest

  abbrev pub planned : Attempt → Candidate
  planned (a, request) = (a, ok request)

  -- The world after these requests were sent, one after the other.
  abbrev pub after : Net → List Attempt → Net
  after net [] = net
  after net ((a, request) ∷ tried) = after (send request net).1 tried

  abbrev pub IsGivenUp : Outcome → Type 0
  IsGivenUp (response r) = is_retryable r ≡ true
  IsGivenUp (unreachable _) = Unit

  -- None of these requests, sent one after the other, got an answer that counts.
  abbrev pub AreGivenUp : Net → List Attempt → Type 0
  AreGivenUp net [] = Unit
  AreGivenUp net ((a, request) ∷ tried) =
      IsGivenUp (send request net).0 × AreGivenUp (send request net).1 tried

  -- The breaker of each key put in when its request has come back.
  abbrev pub trip_all : Store → Net → List Attempt → Store
  trip_all store net [] = store
  trip_all store net ((a, request) ∷ tried) =
      let net' = (send request net).1 in trip_all (trip store (clock net') a) net' tried

  -- The error to report when these were given up, and the one before them was `last`.
  abbrev pub blamed : GatewayError → Net → List Attempt → GatewayError
  blamed last net [] = last
  blamed last net ((a, request) ∷ tried) =
      blamed (failure codec breaker upstream (send request net).0) (send request net).1 tried

  abbrev pub primary_failed : GatewayError
  primary_failed = response_build "Primary provider failed"

  -- A failure of the primary key's request is reported without its reason.
  abbrev pub blamed_first : Net → List Attempt → GatewayError
  blamed_first net [] = primary_failed
  blamed_first net ((a, request) ∷ tried) = blamed primary_failed (send request net).1 tried

  -- How a run ends before the candidates that are left: without any, with one whose request cannot
  -- be built, or with the answer to the request of the first of them.
  abbrev pub IsEnd :
      GatewayError
      → Net
      → List Candidate
      → Result GatewayError Response × World codec breaker upstream
      → Type 0
  IsEnd last net [] run = (run.0 ≡ err last) × (run.1.1 ≡ net)
  IsEnd last net ((a, err e) ∷ rest) run = (run.0 ≡ err e) × (run.1.1 ≡ net)
  IsEnd last net ((a, ok request) ∷ rest) run =
      (r : Response) × ((send request net).0 ≡ response r)
      × (is_retryable r ≡ false)
      × (run.0 ≡ ok r)
      × (run.1.1 ≡ (send request net).1)

  pub record IsRun (blame : Net → List Attempt → GatewayError) (candidates : List Candidate)
      (store : Store) (net : Net)
      (run : Result GatewayError Response × World codec breaker upstream) : Type 0 where
    pub tried : List Attempt
    pub rest : List Candidate
    pub split : candidates ≡ map planned tried ++ rest
    pub given_up : AreGivenUp net tried
    pub tripped : run.1.0 ≡ trip_all store net tried
    pub ended : IsEnd (blame net tried) (after net tried) rest run
