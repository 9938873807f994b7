-- ===== src/Limit/TokenBucket/Runs.antt =====
-- A tenant's requests over the life of its bucket, and the correction of an estimate.
use red_eye_engine_gateway.Common.{
  ℕ, zero, suc, ◌+◌, ◌<◌, true, none, some, List, [], ◌∷◌, String, ◌≡◌, refl, ap, ◌∙◌, arith, All,
  ℤ, pos, negsuc, pos_part, neg_part, sub_ℕ, ◌+ℤ◌, Bool-cases, inl, inr,
}
use red_eye_engine_gateway.Limit.{Redis, live, add, after}
use red_eye_engine_gateway.Limit.TokenBucket.{
  token_bucket_capacity, token_bucket_ttl_secs, bucket_key, estimate, is_zero, enforce_token_bucket,
  sync_token_bucket,
}
use red_eye_engine_gateway.Limit.TokenBucket.Metering.{
  account, bucket, live-account, granted_if, taken_after, Answers, first_request, later_request,
  sub_ℕ_eq, pos_part-sub_ℕ, neg_part-sub_ℕ,
}

is_zero_path : (z : ℤ) → is_zero z ≡ true → z ≡ pos 0
is_zero_path (pos zero) h = refl
is_zero_path (pos (suc n)) h = cc
is_zero_path (negsuc n) h = cc

is_zero-sub_ℕ : (a b : ℕ) → is_zero (sub_ℕ a b) ≡ true → a ≡ b
is_zero-sub_ℕ a b h =
    let z = is_zero_path (sub_ℕ a b) h in
    omega (arith, pos_part-sub_ℕ a b, neg_part-sub_ℕ a b, ap pos_part z, ap neg_part z)

sub_ℕ-plus :
    (put taken estimated actual : ℕ)
    → sub_ℕ put taken +ℤ sub_ℕ estimated actual ≡ sub_ℕ (put + estimated) (taken + actual)
sub_ℕ-plus put taken estimated actual = sub_ℕ_eq _ _ (put + estimated) (taken + actual) (
    omega (
      arith,
      pos_part-sub_ℕ put taken,
      neg_part-sub_ℕ put taken,
      pos_part-sub_ℕ estimated actual,
      neg_part-sub_ℕ estimated actual,
    ))

-- A call during the life of a bucket: a request at a time with the length of its prompt, or the
-- correction of an estimate by the actual count.
pub data Call : Type 0 where
  asked : ℕ → ℕ → Call
  corrected : ℕ → ℕ → ℕ → Call

abbrev pub time_of : Call → ℕ
time_of (asked t prompt_len) = t
time_of (corrected t estimated actual) = t

module _ (redis : Redis) where
  open redis use {Store, entry, answers, incrby, incrby_lem}

  sync-account :
      (s : Store) (now put taken deadline estimated actual : ℕ) (tenant_id : String)
      → Answers redis
      → entry s (bucket_key tenant_id) ≡ some (account put taken deadline)
      → now < deadline
      → entry (sync_token_bucket redis s now tenant_id estimated actual) (bucket_key tenant_id)
        ≡ some (account (put + estimated) (taken + actual) deadline)
  unfolding sync_token_bucket
  sync-account s now put taken deadline estimated actual tenant_id answered e b =
      let delta = sub_ℕ estimated actual in
      elim (Bool-cases (is_zero delta)) [
        | inl none_ ↦
            rw (sync_token_bucket, none_)
              (e
                ∙ ap (λ v. some (record { value = v; deadline = some deadline }))
                    (sub_ℕ_eq put taken (put + estimated) (taken + actual)
                      (omega (arith, is_zero-sub_ℕ estimated actual none_))))
        | inr some_ ↦
            rw (sync_token_bucket, some_, answered s now)
              (incrby_lem s now (bucket_key tenant_id) delta
                ∙ ap (λ o. some (add delta (live now o))) e
                ∙ ap (λ o. some (add delta o)) (live-account now put taken deadline b)
                ∙ ap (λ v. some (record { value = v; deadline = some deadline }))
                    (sub_ℕ-plus put taken estimated actual))
      ]

  -- The tokens put into the bucket, those taken from it, and the store, after a first request and
  -- later calls, the latest first.
  abbrev pub run : ℕ → ℕ → List Call → Store → String → (ℕ × ℕ) × Store
  run start prompt_len [] s tenant_id = (
    (token_bucket_capacity, estimate prompt_len),
    (enforce_token_bucket redis s start tenant_id prompt_len).1,
  )
  run start prompt_len (asked t len ∷ calls) s tenant_id =
      let ((put, taken), before) = run start prompt_len calls s tenant_id in
      let (result, s') = enforce_token_bucket redis before t tenant_id len in
      ((put, taken_after result taken (estimate len)), s')
  run start prompt_len (corrected t estimated actual ∷ calls) s tenant_id =
      let ((put, taken), before) = run start prompt_len calls s tenant_id in
      (
        (put + estimated, taken + actual),
        sync_token_bucket redis before t tenant_id estimated actual,
      )

  run-account :
      (start prompt_len : ℕ) (calls : List Call) (s : Store) (tenant_id : String)
      → Answers redis
      → live start (entry s (bucket_key tenant_id)) ≡ none
      → All (λ c. time_of c < after start token_bucket_ttl_secs) calls
      → let ((put, taken), s') = run start prompt_len calls s tenant_id in
        entry s' (bucket_key tenant_id)
        ≡ some (account put taken (after start token_bucket_ttl_secs))
  run-account start prompt_len [] s tenant_id answered fresh _ =
      first_request redis s start tenant_id prompt_len answered fresh
  run-account start prompt_len (asked t len ∷ calls) s tenant_id answered fresh (b, bs) =
      let ((put, taken), before) = run start prompt_len calls s tenant_id in
      (later_request redis before t put taken (after start token_bucket_ttl_secs) tenant_id len
        answered (run-account start prompt_len calls s tenant_id answered fresh bs) b).1
  run-account start prompt_len (corrected t estimated actual ∷ calls) s tenant_id answered fresh
        (b, bs) =
      let ((put, taken), before) = run start prompt_len calls s tenant_id in
      sync-account before t put taken (after start token_bucket_ttl_secs) estimated actual tenant_id
        answered (run-account start prompt_len calls s tenant_id answered fresh bs) b

  -- While Redis answers, over the life of a bucket that a tenant's first request opens, with the
  -- corrections of estimates in between: a later request is let through exactly if its estimate and
  -- all that was taken, the estimates granted and the actual counts, the first request's included,
  -- sum up to at most the capacity and the estimates that corrections gave back.
  pub enforce_token_bucket_meters :
      (start prompt_len : ℕ) (calls : List Call) (s : Store) (tenant_id : String) (t len : ℕ)
      → Answers redis
      → live start (entry s (bucket_key tenant_id)) ≡ none
      → All (λ c. time_of c < after start token_bucket_ttl_secs) calls
      → t < after start token_bucket_ttl_secs
      → let ((put, taken), s') = run start prompt_len calls s tenant_id in
        (enforce_token_bucket redis s' t tenant_id len).0 ≡ granted_if put (taken + estimate len)
  enforce_token_bucket_meters start prompt_len calls s tenant_id t len answered fresh bs b =
      let ((put, taken), before) = run start prompt_len calls s tenant_id in
      (later_request redis before t put taken (after start token_bucket_ttl_secs) tenant_id len
        answered (run-account start prompt_len calls s tenant_id answered fresh bs) b).0

  -- The correction after an answered request: the bucket that was charged the estimate, and others
  -- before, is left charged the actual usage instead.
  pub sync_token_bucket_settles :
      (s : Store) (now taken deadline estimated actual : ℕ) (tenant_id : String)
      → Answers redis
      → entry s (bucket_key tenant_id) ≡ some (bucket (taken + estimated) deadline)
      → now < deadline
      → entry (sync_token_bucket redis s now tenant_id estimated actual) (bucket_key tenant_id)
        ≡ some (bucket (taken + actual) deadline)
  sync_token_bucket_settles s now taken deadline estimated actual tenant_id answered e b =
      sync-account s now token_bucket_capacity (taken + estimated) deadline estimated actual
        tenant_id answered e b
      ∙ ap (λ v. some (record { value = v; deadline = some deadline }))
          (sub_ℕ_eq (token_bucket_capacity + estimated) (taken + estimated + actual)
            token_bucket_capacity (taken + actual) (omega arith))
