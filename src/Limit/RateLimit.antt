-- ===== src/Limit/RateLimit.antt =====
-- `rate_limit_middleware`: a fixed window of requests per tenant and user.
pub mod Window
use Prim.Native.String
use red_eye_engine_gateway.Common.{
  ℕ, ◌-◌, Bool, true, false, Option, none, some, String, if◌then◌else◌, unwrap_or, ℤ, pos, negsuc,
  pos_part, sub_ℕ, ltb_ℤ, ◌+◌, ◌==◌, leb_ℤ, ◌+ℤ◌,
}
use red_eye_engine_gateway.Limit.{Redis, held}

-- The headers x-tenant-id and x-user-id, where they are text, and the client's address.
unfoldable pub extract_identifiers : Option String → Option String → String → String × String
extract_identifiers tenant_id user_id ip = (unwrap_or tenant_id ip, unwrap_or user_id "anon_user")

unfoldable pub rate_limit_key : String → String → String
rate_limit_key tenant_id user_id =
    String.◌++◌ "rl:" (String.◌++◌ tenant_id (String.◌++◌ ":u:" user_id))

-- The answer: 429, or that of the handler, and the three x-ratelimit headers.
pub record Verdict : Type 0 where
  pub passed : Bool
  pub limit : ℕ
  pub remaining : ℕ
  pub reset : ℤ

abbrev pub is_one : ℤ → Bool
is_one (pos n) = n == 1
is_one (negsuc n) = false

-- `max(0, limit - requests)`
abbrev pub remaining_of : ℕ → ℤ → ℕ
remaining_of limit (pos n) = limit - n
remaining_of limit (negsuc n) = pos_part (pos limit +ℤ pos (n + 1))

-- `ttl` is what TTL answers, if it does; it is asked for unless the request is the first.
unfoldable pub verdict : ℕ → ℕ → ℤ → Option ℤ → Verdict
verdict limit window_secs current ttl =
    let reset = if is_one current then pos window_secs else unwrap_or ttl (pos window_secs) in
    if ltb_ℤ (pos limit) current
    then record { passed = false; limit = limit; remaining = 0; reset = reset }
    else record {
      passed = true;
      limit = limit;
      remaining = remaining_of limit current;
      reset = reset;
    }

module _ (redis : Redis) where
  open redis use {Store, incrby, expire, answers, lost}

  -- RATE_LIMIT_LUA
  unfoldable pub count_request : Store → ℕ → String → ℕ → ℤ × Store
  count_request s now key window_secs =
      let s' = incrby s now key (pos 1) in
      let current = held redis s' now key in
      (current, if is_one current then expire s' now key window_secs else s')

  -- Where Redis does not answer, the count is taken to be 0.
  unfoldable pub limit_requests : ℕ → ℕ → Option ℤ → Store → ℕ → String → Verdict × Store
  unfolding count_request verdict
  limit_requests limit window_secs ttl s now key =
      if answers s now
      then (let (current, s') = count_request s now key window_secs in
          (verdict limit window_secs current ttl, s'))
      else (verdict limit window_secs (pos 0) ttl, lost s now)

  -- The headers and the address choose the key.
  unfoldable pub rate_limit_middleware :
      ℕ → ℕ → Option ℤ → Option String → Option String → String → Store → ℕ → Verdict × Store
  unfolding extract_identifiers rate_limit_key limit_requests
  rate_limit_middleware limit window_secs ttl tenant_header user_header ip s now =
      let (tenant_id, user_id) = extract_identifiers tenant_header user_header ip in
      limit_requests limit window_secs ttl s now (rate_limit_key tenant_id user_id)
