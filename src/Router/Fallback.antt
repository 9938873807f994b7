-- ===== src/Router/Fallback.antt =====
-- What a request with fallbacks sends, what it answers, and which keys it takes out of service.
pub mod Plan
use red_eye_engine_gateway.Common.{
  ℕ, Bool, true, false, List, [], ◌∷◌, ◌++◌, String, ◌≡◌, refl, sym, ap, ◌∙◌, ◌==◌, any, Bool-cases,
  inl, inr, Result, ok, err, map, Result-cases, arith,
}
use red_eye_engine_gateway.Errors.{GatewayError, response_build}
use red_eye_engine_gateway.Router.Keys.{KeyConfig, CircuitBreaker}
use red_eye_engine_gateway.Router.Request.{Bytes, HttpRequest, Codec, build_provider_request}
use red_eye_engine_gateway.Router.Upstream.{
  Response, Outcome, response, unreachable, Upstream, Prepared, is_retryable_error, World, failure,
  is_final, settled, try_fallbacks, execute_upstream_request,
}
use red_eye_engine_gateway.Router.Fallback.Plan.{
  retryable, is_retryable, is_retryable_error-any, Candidate, candidate, plan, Attempt, planned,
  after, IsGivenUp, AreGivenUp, trip_all, blamed, primary_failed, blamed_first, IsEnd, IsRun,
}

module _ (codec : Codec) (breaker : CircuitBreaker) (upstream : Upstream) where
  open breaker use {Store, trip}
  open upstream use {Net, send, clock}

  final-served :
      (request : HttpRequest) (net : Net) (e : GatewayError) (store : Store) (o : Outcome)
      → (send request net).0 ≡ o
      → is_final codec breaker upstream o ≡ true
      → (r : Response) × ((send request net).0 ≡ response r)
        × (is_retryable r ≡ false)
        × (settled codec breaker upstream (send request net).0 e ≡ ok r)
        × ((send request net).1 ≡ (send request net).1)
  final-served request net e store (unreachable t) sent f = cc
  final-served request net e store (response r) sent f =
      elim (Bool-cases (is_retryable_error r.status)) [
        | inl again ↦ cc (rw (again, is_final) at f)
        | inr enough ↦ (
          r,
          sent,
          is_retryable_error-any r.status ∙ enough,
          ap (λ o. settled codec breaker upstream o e) sent,
          refl,
        )
      ]

  again-IsGivenUp :
      (o : Outcome) → is_final codec breaker upstream o ≡ false → IsGivenUp codec breaker upstream o
  again-IsGivenUp (unreachable t) f = tt
  again-IsGivenUp (response r) f = elim (Bool-cases (is_retryable_error r.status)) [
    | inl again ↦ is_retryable_error-any r.status ∙ again
    | inr enough ↦ cc (rw (enough, is_final) at f)
  ]

  IsRun-served :
      (blame : Net → List (Attempt codec breaker upstream) → GatewayError) (a : String)
      (request : HttpRequest) (rest : List (Candidate codec breaker upstream)) (store : Store)
      (net : Net) (e : GatewayError)
      → is_final codec breaker upstream (send request net).0 ≡ true
      → IsRun codec breaker upstream blame
          ((a, ok request) ∷ rest)
          store
          net
          (settled codec breaker upstream (send request net).0 e, (store, (send request net).1))
  IsRun-served blame a request rest store net e f = record {
    tried = [];
    rest = (a, ok request) ∷ rest;
    split = refl;
    given_up = tt;
    tripped = refl;
    ended = final-served request net e store (send request net).0 refl f;
  }

  IsRun-next :
      (before blame : Net → List (Attempt codec breaker upstream) → GatewayError) (a : String)
      (request : HttpRequest) (rest : List (Candidate codec breaker upstream)) (store : Store)
      (net : Net) (run : Result GatewayError Response × World codec breaker upstream)
      → is_final codec breaker upstream (send request net).0 ≡ false
      → ((tried : List (Attempt codec breaker upstream))
          → blame (send request net).1 tried ≡ before net ((a, request) ∷ tried))
      → IsRun codec breaker upstream blame rest
          (trip store (clock (send request net).1) a)
          (send request net).1
          run
      → IsRun codec breaker upstream before ((a, ok request) ∷ rest) store net run
  IsRun-next before blame a request rest store net run f same h = record {
    tried = (a, request) ∷ h.tried;
    rest = h.rest;
    split = ap (λ (l : List (Candidate codec breaker upstream)). (a, ok request) ∷ l) h.split;
    given_up = (again-IsGivenUp (send request net).0 f, h.given_up);
    tripped = h.tripped;
    ended = rw (← same h.tried) h.ended;
  }

  module _ (prep : Prepared) (body : Bytes) where
    try_fallbacks-IsRun :
        (last : GatewayError) (keys : List KeyConfig) (store : Store) (net : Net)
        → IsRun codec breaker upstream
            (blamed codec breaker upstream last)
            (map (candidate codec breaker upstream prep body) keys)
            store
            net
            (try_fallbacks codec breaker upstream prep body last keys (store, net))
    unfolding try_fallbacks
    try_fallbacks-IsRun last [] store net = record {
      tried = [];
      rest = [];
      split = refl;
      given_up = tt;
      tripped = refl;
      ended = (refl, refl);
    }
    try_fallbacks-IsRun last (key ∷ keys) store net =
        elim (Result-cases (
          build_provider_request codec prep.provider_config prep.base_url key prep.model body
            prep.accept_header)) [
              | inr (e, broken) ↦
                  rw (broken, try_fallbacks)
                    (record {
                      tried = [];
                      rest =
                          (key.key_alias, err e)
                          ∷ map (candidate codec breaker upstream prep body) keys;
                      split = refl;
                      given_up = tt;
                      tripped = refl;
                      ended = (refl, refl);
                    })
              | inl (request, built) ↦
                  elim (Bool-cases (is_final codec breaker upstream (send request net).0)) [
                    | inl final ↦
                        rw (built, try_fallbacks)
                          (rw (final, try_fallbacks)
                            (IsRun-served (blamed codec breaker upstream last) key.key_alias request
                              (map (candidate codec breaker upstream prep body) keys) store net last
                              final))
                    | inr again ↦
                        rw (built, try_fallbacks)
                          (rw (again, try_fallbacks)
                            (IsRun-next (blamed codec breaker upstream last)
                              (blamed codec breaker upstream
                                (failure codec breaker upstream (send request net).0))
                              key.key_alias request
                              (map (candidate codec breaker upstream prep body) keys) store net _
                              again (λ tried. refl)
                              (try_fallbacks-IsRun
                                (failure codec breaker upstream (send request net).0) keys
                                (trip store (clock (send request net).1) key.key_alias)
                                (send request net).1)))
                  ]
            ]

-- Running a prepared request sends the primary key's request and then the request built for each
-- fallback key, in order, until an answer comes whose status is not 429, 500, 502, 503 or 504: that
-- is the answer of the run. It ends with an error when a fallback's request cannot be built, which
-- is that error, or when all were sent, which is the failure of the last fallback. The breaker of
-- each key given up is tripped when its request has come back, in that order, and no other, and
-- nothing else is sent.
pub execute_upstream_request-IsRun :
    (codec : Codec) (breaker : CircuitBreaker) (upstream : Upstream) (prep : Prepared)
    (body : Bytes) (store : breaker.Store) (net : upstream.Net)
    → IsRun codec breaker upstream
        (blamed_first codec breaker upstream)
        (plan codec breaker upstream prep body)
        store
        net
        (execute_upstream_request codec breaker upstream prep body (store, net))
unfolding execute_upstream_request
execute_upstream_request-IsRun codec breaker upstream prep body store net =
    let (outcome, net') = upstream.send prep.primary_request net in
    let failed = primary_failed codec breaker upstream in
    let others = map (candidate codec breaker upstream prep body) prep.fallback_keys in
    elim (Bool-cases (is_final codec breaker upstream outcome)) [
      | inl final ↦
          rw (final, execute_upstream_request)
            (IsRun-served codec breaker upstream (blamed_first codec breaker upstream)
              prep.primary_key_alias prep.primary_request others store net failed final)
      | inr again ↦
          rw (again, execute_upstream_request)
            (IsRun-next codec breaker upstream (blamed_first codec breaker upstream)
              (blamed codec breaker upstream failed) prep.primary_key_alias prep.primary_request
              others store net _ again (λ tried. refl)
              (try_fallbacks-IsRun codec breaker upstream prep body failed prep.fallback_keys
                (breaker.trip store (upstream.clock net') prep.primary_key_alias) net'))
    ]
