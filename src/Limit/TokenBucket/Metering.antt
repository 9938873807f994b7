-- ===== src/Limit/TokenBucket/Metering.antt =====
-- What a bucket grants over its life.
use red_eye_engine_gateway.Common.{
  ℕ, ◌+◌, ◌-◌, ◌<◌, Bool, true, false, none, some, String, ltb, leb, if◌then◌else◌, ◌≡◌, refl, ap,
  ◌∙◌, arith, lt→leb, le→leb, leb→le, leb→lt, pos_part, neg_part, Bool-cases, inl, inr, pos, negsuc,
  ◌+ℤ◌, sub_ℕ, ltb_ℤ, Result, ok, err,
}
use red_eye_engine_gateway.Errors.{GatewayError, rate_limit_exceeded}
use red_eye_engine_gateway.Limit.{Redis, Entry, live, add, after}
use red_eye_engine_gateway.Limit.TokenBucket.{
  token_bucket_capacity, token_bucket_ttl_secs, bucket_key, estimate, minus, take_tokens,
  enforce_token_bucket,
}

pub sub_ℕ_eq : (a b c d : ℕ) → a + d ≡ c + b → sub_ℕ a b ≡ sub_ℕ c d
sub_ℕ_eq a b c d e = elim (Bool-cases (leb b a)) [
  | inl h ↦
      rw (h, le→leb d c (omega (arith, e, leb→le b a h)))
        (ap pos {x = a - b} {y = c - d} (omega (arith, e, leb→le b a h)))
  | inr h ↦
      rw (h, lt→leb c d (omega (arith, e, leb→lt a b h)))
        (ap negsuc {x = b - a - 1} {y = d - c - 1} (omega (arith, e, leb→lt a b h)))
]

pub pos_part-sub_ℕ : (a b : ℕ) → pos_part (sub_ℕ a b) ≡ a - b
pos_part-sub_ℕ a b = ground arith

pub neg_part-sub_ℕ : (a b : ℕ) → neg_part (sub_ℕ a b) ≡ b - a
neg_part-sub_ℕ a b = ground arith

sub_ℕ-minus : (c g n : ℕ) → sub_ℕ c g +ℤ minus n ≡ sub_ℕ c (g + n)
sub_ℕ-minus c g n =
    sub_ℕ_eq _ _ c (g + n) (
      omega (arith, pos_part-sub_ℕ c g, neg_part-sub_ℕ c g, pos_part-sub_ℕ 0 n, neg_part-sub_ℕ 0 n))

ltb_ℤ-sub : (c g n : ℕ) → ltb_ℤ (sub_ℕ c g) (pos n) ≡ ltb c (g + n)
ltb_ℤ-sub c g n = ground arith

-- A bucket into which tokens were put, and from which tokens were taken.
abbrev pub account : ℕ → ℕ → ℕ → Entry
account put taken deadline = record { value = sub_ℕ put taken; deadline = some deadline }

-- A bucket that was filled and from which a number of tokens was taken.
abbrev pub bucket : ℕ → ℕ → Entry
bucket taken deadline = account token_bucket_capacity taken deadline

pub live-account :
    (now put taken deadline : ℕ)
    → now < deadline
    → live now (some (account put taken deadline)) ≡ some (account put taken deadline)
live-account now put taken deadline b = rw (lt→leb now deadline b) refl

-- What a request answers when it takes what was taken to a total.
abbrev pub granted_if : ℕ → ℕ → Result GatewayError (Unit {0})
granted_if put total =
    if ltb put total
    then err (rate_limit_exceeded "Token limit exceeded for this billing cycle.")
    else ok tt

abbrev pub taken_after : Result GatewayError (Unit {0}) → ℕ → ℕ → ℕ
taken_after (ok _) taken n = taken + n
taken_after (err _) taken n = taken

module _ (redis : Redis) where
  open redis use {Store, entry, answers, incrby, set_ex, incrby_lem, set_ex_lem}

  abbrev pub Answers : Type 0
  Answers = (s : Store) (now : ℕ) → answers s now ≡ true

  take_tokens_refused :
      (s : Store) (now put taken deadline n : ℕ) (key : String)
      → entry s key ≡ some (account put taken deadline)
      → now < deadline
      → ltb put (taken + n) ≡ true
      → take_tokens redis s now key n ≡ (false, s)
  unfolding take_tokens
  take_tokens_refused s now put taken deadline n key e b over =
      rw (e, live-account now put taken deadline b, ltb_ℤ-sub put taken n, over) refl

  take_tokens_granted :
      (s : Store) (now put taken deadline n : ℕ) (key : String)
      → entry s key ≡ some (account put taken deadline)
      → now < deadline
      → ltb put (taken + n) ≡ false
      → take_tokens redis s now key n ≡ (true, incrby s now key (minus n))
  unfolding take_tokens
  take_tokens_granted s now put taken deadline n key e b under =
      rw (e, live-account now put taken deadline b, ltb_ℤ-sub put taken n, under) refl

  take_tokens_fresh :
      (s : Store) (now n : ℕ) (key : String)
      → live now (entry s key) ≡ none
      → take_tokens redis s now key n ≡ (
        true,
        incrby
            (set_ex s now key (pos token_bucket_capacity) token_bucket_ttl_secs)
            now
            key
            (minus n),
      )
  unfolding take_tokens
  take_tokens_fresh s now n key fresh = rw fresh refl

  entry-taken :
      (s : Store) (now put taken deadline n : ℕ) (key : String)
      → entry s key ≡ some (account put taken deadline)
      → now < deadline
      → entry (incrby s now key (minus n)) key ≡ some (account put (taken + n) deadline)
  entry-taken s now put taken deadline n key e b =
      incrby_lem s now key (minus n)
      ∙ ap (λ o. some (add (minus n) (live now o))) e
      ∙ ap (λ o. some (add (minus n) o)) (live-account now put taken deadline b)
      ∙ ap (λ v. some (record { value = v; deadline = some deadline })) (sub_ℕ-minus put taken n)

  enforce_token_bucket-take_tokens :
      (s s' : Store) (now : ℕ) (tenant_id : String) (prompt_len : ℕ) (allowed : Bool)
      → Answers
      → take_tokens redis s now (bucket_key tenant_id) (estimate prompt_len) ≡ (allowed, s')
      → enforce_token_bucket redis s now tenant_id prompt_len ≡ (
        if allowed
            then ok tt
            else err (rate_limit_exceeded "Token limit exceeded for this billing cycle."),
        s',
      )
  unfolding enforce_token_bucket
  enforce_token_bucket-take_tokens s s' now tenant_id prompt_len allowed answered e =
      rw (answered s now, enforce_token_bucket, e) refl

  pub first_request :
      (s : Store) (now : ℕ) (tenant_id : String) (prompt_len : ℕ)
      → Answers
      → live now (entry s (bucket_key tenant_id)) ≡ none
      → entry (enforce_token_bucket redis s now tenant_id prompt_len).1 (bucket_key tenant_id)
        ≡ some (bucket (estimate prompt_len) (after now token_bucket_ttl_secs))
  first_request s now tenant_id prompt_len answered fresh =
      let key = bucket_key tenant_id in
      let n = estimate prompt_len in
      let full = set_ex s now key (pos token_bucket_capacity) token_bucket_ttl_secs in
      ap (λ r. entry r.1 key)
        (enforce_token_bucket-take_tokens s _ now tenant_id prompt_len true answered
          (take_tokens_fresh s now n key fresh))
      ∙ entry-taken full now token_bucket_capacity 0 (after now token_bucket_ttl_secs) n key
          (set_ex_lem s now key (pos token_bucket_capacity) token_bucket_ttl_secs) (omega arith)
      ∙ ap (λ k. some (bucket k (after now token_bucket_ttl_secs))) {x = 0 + n} {y = n}
          (omega arith)

  pub later_request :
      (s : Store) (now put taken deadline : ℕ) (tenant_id : String) (prompt_len : ℕ)
      → Answers
      → entry s (bucket_key tenant_id) ≡ some (account put taken deadline)
      → now < deadline
      → let (result, s') = enforce_token_bucket redis s now tenant_id prompt_len in
        (result ≡ granted_if put (taken + estimate prompt_len))
        × (entry s' (bucket_key tenant_id)
            ≡ some (account put (taken_after result taken (estimate prompt_len)) deadline))
  later_request s now put taken deadline tenant_id prompt_len answered e b =
      let key = bucket_key tenant_id in
      let n = estimate prompt_len in
      elim (Bool-cases (ltb put (taken + n))) [
        | inl over ↦
            rw
              (
                enforce_token_bucket-take_tokens s s now tenant_id prompt_len false answered
                    (take_tokens_refused s now put taken deadline n key e b over),
                over,
              )
              (refl, e)
        | inr under ↦
            rw
              (
                enforce_token_bucket-take_tokens s _ now tenant_id prompt_len true answered
                    (take_tokens_granted s now put taken deadline n key e b under),
                under,
              )
              (refl, entry-taken s now put taken deadline n key e b)
      ]
