-- ===== src/Limit/TokenBucket.antt =====
-- `enforce_token_bucket` and `sync_token_bucket` of redeye_gateway/src/usecases/proxy.rs: the
-- tokens that a tenant may use before its bucket expires.
pub mod Metering
pub mod Runs
use Prim.Native.String
use red_eye_engine_gateway.Common.{
  ℕ, ◌-◌, ◌/◌, max, Bool, true, false, Option, none, some, String, if◌then◌else◌, ℤ, pos, negsuc,
  sub_ℕ, ltb_ℤ, ◌+ℤ◌, Result, ok, err,
}
use red_eye_engine_gateway.Errors.{GatewayError, rate_limit_exceeded}
use red_eye_engine_gateway.Limit.{Redis, live, Entry}

abbrev pub chars_per_token : ℕ
chars_per_token = 4

abbrev pub token_bucket_capacity : ℕ
token_bucket_capacity = 100000

abbrev pub token_bucket_ttl_secs : ℕ
token_bucket_ttl_secs = 86400

unfoldable pub bucket_key : String → String
bucket_key tenant_id = String.◌++◌ "tb:tokens:" tenant_id

-- The estimate for a prompt of a length in bytes.
unfoldable pub estimate : ℕ → ℕ
estimate prompt_len = max (prompt_len / chars_per_token) 1

-- An integer's negative, as the argument of DECRBY.
abbrev pub minus : ℕ → ℤ
minus n = sub_ℕ 0 n

abbrev pub is_zero : ℤ → Bool
is_zero (pos ℕ.zero) = true
is_zero _ = false

module _ (redis : Redis) where
  open redis use {Store, entry, incrby, set_ex, answers, lost}

  -- The script, on what the bucket holds.
  abbrev pub take_from : Option Entry → Store → ℕ → String → ℕ → Bool × Store
  take_from (some e) s now key n =
      if ltb_ℤ e.value (pos n) then (false, s) else (true, incrby s now key (minus n))
  take_from none s now key n = (
    true,
    incrby (set_ex s now key (pos token_bucket_capacity) token_bucket_ttl_secs) now key (minus n),
  )

  unfoldable pub take_tokens : Store → ℕ → String → ℕ → Bool × Store
  take_tokens s now key n = take_from (live now (entry s key)) s now key n

  unfoldable pub enforce_token_bucket :
      Store → ℕ → String → ℕ → Result GatewayError (Unit {0}) × Store
  unfolding take_tokens bucket_key estimate
  enforce_token_bucket s now tenant_id prompt_len =
      if answers s now
      then (let (allowed, s') = take_tokens s now (bucket_key tenant_id) (estimate prompt_len) in
          (
            if allowed
                then ok tt
                else err (rate_limit_exceeded "Token limit exceeded for this billing cycle."),
            s',
          ))
      else (ok tt, lost s now)

  -- The difference of two `u32` counts is added to the bucket.
  unfoldable pub sync_token_bucket : Store → ℕ → String → ℕ → ℕ → Store
  unfolding bucket_key
  sync_token_bucket s now tenant_id estimated actual =
      let delta = sub_ℕ estimated actual in
      if is_zero delta
      then s
      else if answers s now
      then incrby s now (bucket_key tenant_id) delta
      else lost s now
