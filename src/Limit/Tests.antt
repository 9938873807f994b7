-- ===== src/Limit/Tests.antt =====
-- A concrete Redis, and runs of the limits on it.
use red_eye_engine_gateway.Common.{
  ℕ, ◌+◌, true, false, Option, none, some, [], ◌∷◌, ◌≡◌, refl, arith, ◌≤◌,
}
use red_eye_engine_gateway.Limit.{Entry, Redis, live, add, until, after}
use red_eye_engine_gateway.Limit.RateLimit.{limit_requests, rate_limit_middleware}
use red_eye_engine_gateway.Limit.RateLimit.Window as Window
use red_eye_engine_gateway.Limit.TokenBucket.{estimate, enforce_token_bucket, sync_token_bucket}
use red_eye_engine_gateway.Limit.TokenBucket.Metering.{bucket, granted_if}
use red_eye_engine_gateway.Limit.TokenBucket.Runs as Runs

-- One key is all that a run needs: the store holds the same entry under every key.
abbrev redis : Redis
redis = record {
  Store = Option Entry;
  entry = λ s k. s;
  incrby = λ s now k d. some (add d (live now s));
  expire = λ s now k secs. until (after now secs) (live now s);
  set_ex = λ s now k v secs. some (record { value = v; deadline = some (after now secs) });
  answers = λ s now. true;
  lost = λ s now. s;
  incrby_lem = λ s now k d. refl;
  expire_lem = λ s now k secs. refl;
  set_ex_lem = λ s now k v secs. refl;
}

-- Anonymous requests are limited by their address.
anonymous_key :
    (rate_limit_middleware redis 2 60 none none none "10.0.0.1" none 0).1
    ≡ (limit_requests redis 2 60 none none 0 "rl:10.0.0.1:u:anon_user").1
unfolding rate_limit_middleware
anonymous_key = refl

-- Two requests a minute: the third is refused.
limit_requests_counts_example :
    let before = Window.run redis 2 60 0 ((20, none) ∷ []) none "rl:t:u:a" in
    let answer = (limit_requests redis 2 60 none before 30 "rl:t:u:a").0 in
    (answer.passed ≡ false)
    × (answer.remaining ≡ 0)
    × ((late : ℕ) → 60000 ≤ late → live late before ≡ none)
limit_requests_counts_example =
    Window.limit_requests_counts redis 2 60 0 ((20, none) ∷ []) none "rl:t:u:a" 30 none
      (λ s now. refl) refl (omega arith, tt) (omega arith)

-- A first prompt of 800000 bytes takes twice the capacity; the answer used 60000 tokens.
enforce_token_bucket_meters_example :
    let ((put, taken), s') =
      Runs.run redis 0 800000 (Runs.corrected 3 200000 60000 ∷ Runs.asked 2 40 ∷ []) none "t" in
    (enforce_token_bucket redis s' 5 "t" 40).0 ≡ granted_if put (taken + estimate 40)
enforce_token_bucket_meters_example =
    Runs.enforce_token_bucket_meters redis 0 800000
      (Runs.corrected 3 200000 60000 ∷ Runs.asked 2 40 ∷ []) none "t" 5 40 (λ s now. refl) refl
      (omega arith, (omega arith, tt)) (omega arith)

sync_token_bucket_settles_example :
    sync_token_bucket redis (some (bucket 30 1000)) 5 "t" 10 4 ≡ some (bucket 24 1000)
sync_token_bucket_settles_example =
    Runs.sync_token_bucket_settles redis (some (bucket 30 1000)) 5 20 1000 10 4 "t" (λ s now. refl)
      refl (omega arith)
