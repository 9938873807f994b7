-- ===== src/Router/Exhaustion/Breakers.antt =====
-- The breakers after a run, at a time before they close.
use red_eye_engine_gateway.Common.{
  ℕ, ◌+◌, ◌<◌, lt→ltb, map, true, List, [], ◌∷◌, String, str_eq, eq_refl, ◌≡◌, refl, ap, arith,
  Bool-cases, inl, inr, All,
}
use red_eye_engine_gateway.Router.Keys.{KeyConfig, CircuitBreaker, time_to_live_ms, is_open}
use red_eye_engine_gateway.Router.Request.{Bytes, HttpRequest, Codec}
use red_eye_engine_gateway.Router.Upstream.{Upstream, Prepared}
use red_eye_engine_gateway.Router.Fallback.Plan.{Candidate, candidate, planned, trip_all}

module _ (codec : Codec) (breaker : CircuitBreaker) (upstream : Upstream) where
  open breaker use {Store, trip, opened-trip}
  open upstream use {Net, send, clock, clock_mono}

  abbrev pub tripped : Store → Net → List (String × HttpRequest) → Store
  tripped = trip_all codec breaker upstream

  -- A breaker is open until 60 s after it was tripped.
  pub is_open-trip :
      (s : Store) (t now : ℕ) (a : String)
      → now < t + time_to_live_ms
      → is_open breaker (trip s t a) now a ≡ true
  is_open-trip s t now a b =
      rw (opened-trip s t a a, eq_refl a) (lt→ltb now (t + time_to_live_ms) b)

  pub is_open-keeps :
      (s : Store) (t now : ℕ) (a b : String)
      → now < t + time_to_live_ms
      → is_open breaker s now b ≡ true
      → is_open breaker (trip s t a) now b ≡ true
  is_open-keeps s t now a b early h = elim (Bool-cases (str_eq a b)) [
    | inl e ↦ rw (opened-trip s t a b, e) (lt→ltb now (t + time_to_live_ms) early)
    | inr e ↦ rw (opened-trip s t a b, e) h
  ]

  pub is_open-tripped :
      (s : Store) (net : Net) (tried : List (String × HttpRequest)) (now : ℕ) (b : String)
      → now < clock net + time_to_live_ms
      → is_open breaker s now b ≡ true
      → is_open breaker (tripped s net tried) now b ≡ true
  is_open-tripped s net [] now b early h = h
  is_open-tripped s net ((a, request) ∷ tried) now b early h =
      let net' = (send request net).1 in
      let still : now < clock net' + time_to_live_ms =
        omega (arith, early, clock_mono request net) in
      is_open-tripped (trip s (clock net') a) net' tried now b still
        (is_open-keeps s (clock net') now a b still h)

  pub tripped-All :
      (s : Store) (net : Net) (tried : List (String × HttpRequest)) (now : ℕ)
      → now < clock net + time_to_live_ms
      → All
          (λ a. is_open breaker (tripped s net tried) now a ≡ true)
          (map
            (λ (c : Candidate codec breaker upstream). c.0)
            (map (planned codec breaker upstream) tried))
  tripped-All s net [] now early = tt
  tripped-All s net ((a, request) ∷ tried) now early =
      let net' = (send request net).1 in
      let still : now < clock net' + time_to_live_ms =
        omega (arith, early, clock_mono request net) in
      (
        is_open-tripped (trip s (clock net') a) net' tried now a still
            (is_open-trip s (clock net') now a still),
        tripped-All (trip s (clock net') a) net' tried now still,
      )

  abbrev pub aliases : List KeyConfig → List String
  aliases keys = map (λ k. k.key_alias) keys

  pub candidate-aliases :
      (prep : Prepared) (body : Bytes) (keys : List KeyConfig)
      → map
          (λ (c : Candidate codec breaker upstream). c.0)
          (map (candidate codec breaker upstream prep body) keys)
        ≡ aliases keys
  candidate-aliases prep body [] = refl
  candidate-aliases prep body (k ∷ keys) =
      ap (λ (l : List String). k.key_alias ∷ l) (candidate-aliases prep body keys)
