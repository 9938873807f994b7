-- ===== src/Errors/Statuses.antt =====
-- Which HTTP statuses the gateway's errors answer with.
use red_eye_engine_gateway.Common.{◌≤◌, ◌<◌, Bool, true, false, arith, ◌≡◌, ◌↔◌, is_some}
use red_eye_engine_gateway.Errors.{
  GatewayError, loop_detected, agent_loop_budget_exceeded, burn_rate_exceeded, rate_limit_exceeded,
  into_response, unauthorized, upstream_unreachable,
}

-- The errors of the guards that limit a client: the request may be sent again later.
abbrev pub is_limit : GatewayError → Bool
is_limit (rate_limit_exceeded _) = true
is_limit (loop_detected _) = true
is_limit (agent_loop_budget_exceeded _) = true
is_limit (burn_rate_exceeded _) = true
is_limit _ = false

-- Every error answers with a client or server error status; 429 is answered for the four limits
-- and for nothing else; and a Retry-After header is sent only with 429.
pub into_response_status :
    (e : GatewayError)
    → (400 ≤ (into_response e).status)
      × ((into_response e).status < 600)
      × (((into_response e).status ≡ 429) ↔ (is_limit e ≡ true))
      × (is_some (into_response e).retry_after ≡ true → (into_response e).status ≡ 429)
unfolding into_response
into_response_status (upstream_unreachable true) = ground arith
into_response_status (upstream_unreachable false) = ground arith
into_response_status unauthorized = ground arith
into_response_status _ = ground arith
