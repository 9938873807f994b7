-- ===== src/Router/Exhaustion.antt =====
-- After a request that failed on every key, the next request for that model is refused at once.
pub mod Breakers
use mathlib.Core.List.{append-nil}
use red_eye_engine_gateway.Common.{
  ℕ, ◌+◌, ◌<◌, lt→ltb, map, Result-cases, Bool, true, false, some, List, [], ◌∷◌, ◌++◌, String,
  str_eq, eq_refl, ◌≡◌, ◌≢◌, refl, sym, ◌∙◌, ap, arith, Bool-cases, inl, inr, Result, ok, err, All,
  is_empty,
}
use red_eye_engine_gateway.Errors.{GatewayError, no_active_keys}
use red_eye_engine_gateway.Router.Keys.{
  KeyConfig, ModelConfig, RoutingMap, lookup, CircuitBreaker, time_to_live_ms, is_open, sort_keys,
  healthy,
}
use red_eye_engine_gateway.Router.Request.{
  Bytes, HttpRequest, Codec, ProviderConfig, openai, endpoint, provider_body,
  build_provider_request,
}
use red_eye_engine_gateway.Router.Strategy.{RoutingStrategy}
use red_eye_engine_gateway.Router.Upstream.{
  Response, Upstream, Prepared, World, prepare, prep_model, prep_upstream_request,
  execute_upstream_request,
}
use red_eye_engine_gateway.Router.Selection.{prep_upstream_request-IsSelected}
use red_eye_engine_gateway.Router.Fallback.{execute_upstream_request-IsRun}
use red_eye_engine_gateway.Router.Fallback.Plan.{
  retryable, is_retryable, is_retryable_error-any, Candidate, candidate, plan, Attempt, planned,
  after, IsGivenUp, AreGivenUp, trip_all, blamed, primary_failed, blamed_first, IsEnd, IsRun,
}
use red_eye_engine_gateway.Router.Exhaustion.Breakers.{
  tripped, is_open-trip, is_open-keeps, is_open-tripped, tripped-All, aliases, candidate-aliases,
}

module _ (codec : Codec) (breaker : CircuitBreaker) (upstream : Upstream) where
  open breaker use {Store, trip}
  open upstream use {Net, send, clock}

  -- Once the healthy keys are open too, no key is healthy.
  healthy-nil :
      (s t : String → Bool) (ks : List KeyConfig)
      → ((a : String) → s a ≡ true → t a ≡ true)
      → All (λ a. t a ≡ true) (aliases codec breaker upstream (healthy s ks))
      → healthy t ks ≡ []
  unfolding healthy
  healthy-nil s t [] keeps h = refl
  healthy-nil s t (k ∷ ks) keeps h = elim (Bool-cases (s k.key_alias)) [
    | inl e ↦ rw (keeps k.key_alias e, healthy) (healthy-nil s t ks keeps (rw (e, healthy) at h))
    | inr e ↦
        let h' : (t k.key_alias ≡ true)
            × All (λ a. t a ≡ true) (aliases codec breaker upstream (healthy s ks)) =
          rw (e, healthy) at h in
        rw (h'.0, healthy) (healthy-nil s t ks keeps h'.1)
  ]

  -- A request in the OpenAI format is passed through, so it can always be built.
  build-openai :
      (config : ProviderConfig) (base_url : String) (key : KeyConfig) (model : String)
      (body : Bytes) (accept : String) {e : GatewayError}
      → config.schema_format ≡ openai
      → build_provider_request codec config base_url key model body accept ≢ err e
  unfolding build_provider_request endpoint provider_body
  build-openai config base_url key model body accept h b = ground arith

  prep_model_exhausted :
      (routing : RoutingMap) (is_open' : String → Bool) (body : Bytes) (accept model : String)
      {config : ModelConfig}
      → lookup model routing ≡ some config
      → healthy is_open' (sort_keys config.keys) ≡ []
      → prep_model codec routing is_open' body accept model ≡ err no_active_keys
  unfolding prep_model prepare
  prep_model_exhausted routing is_open' body accept model {config} found e =
      rw found (elim (Bool-cases (is_empty config.keys)) [ inl f ↦ rw f | inr f ↦ rw f (rw e) ])

  prep_exhausted :
      (routing : RoutingMap) (is_open' : String → Bool) (body : Bytes) (accept model : String)
      (strategy : RoutingStrategy) {config : ModelConfig}
      → codec.extract_model body ≡ some (some model)
      → lookup model routing ≡ some config
      → healthy is_open' (sort_keys config.keys) ≡ []
      → prep_upstream_request codec routing is_open' body accept strategy ≡ err no_active_keys
  unfolding prep_upstream_request
  prep_exhausted routing is_open' body accept model strategy asked found e =
      rw asked (prep_model_exhausted routing is_open' body accept model found e)

  abbrev is_built : Candidate codec breaker upstream → Bool
  is_built (a, ok request) = true
  is_built (a, err e) = false

  abbrev AreBuilt : List (Candidate codec breaker upstream) → Type 0
  AreBuilt candidates = All (λ c. is_built c ≡ true) candidates

  candidates-AreBuilt :
      (prep : Prepared) (body : Bytes) (keys : List KeyConfig)
      → prep.provider_config.schema_format ≡ openai
      → AreBuilt (map (candidate codec breaker upstream prep body) keys)
  candidates-AreBuilt prep body [] format = tt
  candidates-AreBuilt prep body (k ∷ keys) format =
      elim (Result-cases (
        build_provider_request codec prep.provider_config prep.base_url k prep.model body
          prep.accept_header)) [
            | inl (request, built) ↦ (rw built refl, candidates-AreBuilt prep body keys format)
            | inr (e, broken) ↦ absurd (
                build-openai prep.provider_config prep.base_url k prep.model body prep.accept_header
                  format broken)
          ]

  All-rest :
      (P : Candidate codec breaker upstream → Type 0)
      (xs ys : List (Candidate codec breaker upstream))
      → All P (xs ++ ys)
      → All P ys
  All-rest P [] ys h = h
  All-rest P (x ∷ xs) ys (_, h) = All-rest P xs ys h

  none_left :
      (last : GatewayError) (net : Net) (rest : List (Candidate codec breaker upstream))
      (run : Result GatewayError Response × World codec breaker upstream) {e : GatewayError}
      → run.0 ≡ err e
      → AreBuilt rest
      → IsEnd codec breaker upstream last net rest run
      → rest ≡ []
  none_left last net [] run failed built end = refl
  none_left last net ((a, err d) ∷ rest) run failed (built, _) end = cc
  none_left last net ((a, ok request) ∷ rest) run {e} failed built (r, _, _, served, _) =
      let clash : err e ≡ ok r = sym failed ∙ served in cc

  -- A run that fails in the OpenAI format has tripped codec breaker upstream every key.
  all_tripped :
      (prep : Prepared) (body : Bytes) (store : Store) (net : Net)
      (run : Result GatewayError Response × World codec breaker upstream) {e : GatewayError}
      → prep.provider_config.schema_format ≡ openai
      → run.0 ≡ err e
      → IsRun codec breaker upstream
          (blamed_first codec breaker upstream)
          (plan codec breaker upstream prep body)
          store
          net
          run
      → (tried : List (String × HttpRequest)) × (run.1.0
          ≡ tripped codec breaker upstream store net tried)
        × (plan codec breaker upstream prep body ≡ map (planned codec breaker upstream) tried)
  all_tripped prep body store net run {e} format failed r =
      let built : AreBuilt (map (planned codec breaker upstream) r.tried ++ r.rest) =
        rw (← r.split) (refl, candidates-AreBuilt prep body prep.fallback_keys format) in
      let gone = none_left _ _ r.rest run failed (All-rest _ _ r.rest built) r.ended in
      (
        r.tried,
        r.tripped,
        r.split
            ∙ ap (λ l. map (planned codec breaker upstream) r.tried ++ l) gone
            ∙ append-nil (map (planned codec breaker upstream) r.tried),
      )

module _ (codec : Codec) (breaker : CircuitBreaker) (upstream : Upstream) (prep : Prepared)
    (body : Bytes) where
  open breaker use {Store, trip}
  open upstream use {Net, send, clock}

  abbrev first_request : List (Candidate codec breaker upstream) → HttpRequest
  first_request ((a, ok request) ∷ rest) = request
  first_request _ = prep.primary_request

  abbrev names_of : List (Candidate codec breaker upstream) → List String
  names_of candidates = map (λ (c : Candidate codec breaker upstream). c.0) candidates

  abbrev IsShut : (String → Bool) → (String → Bool) → List String → Type 0
  IsShut before now names =
      ((a : String) → before a ≡ true → now a ≡ true) × All (λ a. now a ≡ true) names

  -- Before the primary key's breaker closes, those of all that were tried are open.
  plan-IsShut :
      (store : Store) (net : Net) (now : ℕ) (tried : List (String × HttpRequest))
      → now < clock (send prep.primary_request net).1 + time_to_live_ms
      → plan codec breaker upstream prep body ≡ map (planned codec breaker upstream) tried
      → IsShut
          (is_open breaker store now)
          (is_open breaker (trip_all codec breaker upstream store net tried) now)
          (names_of (map (planned codec breaker upstream) tried))
  plan-IsShut store net now [] early e = cc
  plan-IsShut store net now ((a, request) ∷ tried) early e =
      let same : prep.primary_request ≡ request = ap first_request e in
      let net' = (send request net).1 in
      let soon : now < clock net' + time_to_live_ms =
        rw (← ap (λ r. clock (send r net).1) same) early in
      let store' = trip store (clock net') a in
      (
        λ b h.
            is_open-tripped codec breaker upstream store' net' tried now b soon
              (is_open-keeps codec breaker upstream store (clock net') now a b soon h),
        (
          is_open-tripped codec breaker upstream store' net' tried now a soon
              (is_open-trip codec breaker upstream store (clock net') now a soon),
          tripped-All codec breaker upstream store' net' tried now soon,
        ),
      )

  plan-names :
      names_of (plan codec breaker upstream prep body)
      ≡ prep.primary_key_alias ∷ aliases codec breaker upstream prep.fallback_keys
  plan-names =
      ap (λ (l : List String). prep.primary_key_alias ∷ l)
        (candidate-aliases codec breaker upstream prep body prep.fallback_keys)

-- A request in the OpenAI format that failed has taken every key of its model out of service: at a
-- time when the breaker of its primary key has not closed again, 60 s after its own failure, and no
-- breaker that was open when it was prepared has closed, preparing the same request answers that no
-- key is active.
pub execute_upstream_request_exhausts :
    (codec : Codec) (breaker : CircuitBreaker) (upstream : Upstream) (routing : RoutingMap)
    (body : Bytes) (accept : String) (strategy : RoutingStrategy) (store : breaker.Store)
    (net : upstream.Net) (now : ℕ) {prep : Prepared} {e : GatewayError}
    → prep_upstream_request codec routing
        (is_open breaker store (upstream.clock net))
        body
        accept
        strategy
      ≡ ok prep
    → prep.provider_config.schema_format ≡ openai
    → (execute_upstream_request codec breaker upstream prep body (store, net)).0 ≡ err e
    → now < upstream.clock (upstream.send prep.primary_request net).1 + time_to_live_ms
    → ((a : String)
        → is_open breaker store (upstream.clock net) a ≡ true
        → is_open breaker store now a ≡ true)
    → let store' = (execute_upstream_request codec breaker upstream prep body (store, net)).1.0 in
      prep_upstream_request codec routing (is_open breaker store' now) body accept strategy
      ≡ err no_active_keys
execute_upstream_request_exhausts codec breaker upstream routing body accept strategy store net now
      {prep} prepared format failed early kept =
    let c =
      prep_upstream_request-IsSelected codec routing (is_open breaker store (upstream.clock net))
        body accept strategy prepared in
    let run = execute_upstream_request codec breaker upstream prep body (store, net) in
    let (tried, gone, all) =
      all_tripped codec breaker upstream prep body store net run format failed
        (execute_upstream_request-IsRun codec breaker upstream prep body store net) in
    let (still, shut) =
      plan-IsShut codec breaker upstream prep body store net now tried early all in
    let same : names_of codec breaker upstream prep body
          (map (planned codec breaker upstream) tried)
        ≡ aliases codec breaker upstream
            (healthy (is_open breaker store (upstream.clock net)) (sort_keys c.config.keys)) =
      ap (names_of codec breaker upstream prep body) (sym all)
      ∙ plan-names codec breaker upstream prep body
      ∙ ap (λ (a : String). a ∷ aliases codec breaker upstream prep.fallback_keys)
          (sym c.primary_alias)
      ∙ ap (aliases codec breaker upstream) c.in_order in
    rw gone (
      prep_exhausted codec breaker upstream routing
        (is_open breaker (trip_all codec breaker upstream store net tried) now) body accept
        prep.model strategy c.requested c.configured
        (healthy-nil codec breaker upstream (is_open breaker store (upstream.clock net))
          (is_open breaker (trip_all codec breaker upstream store net tried) now)
          (sort_keys c.config.keys) (λ a h. still a (kept a h)) (rw (← same) shut)))
