-- ===== src/Guard/Budget.antt =====
-- `enforce_agentic_loop_budget`: at most fifteen calls of a session in five minutes, counted in a
-- Redis sorted set, or at most five, counted in the process, while Redis does not answer.
pub mod Window
use Prim.Native.String
use red_eye_engine_gateway.Common.{
  ℕ, suc, ◌+◌, ◌-◌, ◌%◌, ◌^◌, Bool, true, false, Option, none, some, List, ◌∷◌, String, str_eq, ltb,
  if◌then◌else◌, ◌≡◌, length, keep, Result, ok, err,
}
use red_eye_engine_gateway.Errors.{GatewayError, agent_loop_budget_exceeded}

-- A Redis server's sorted sets. `scores` is what a set holds, the latest member first; `slide` is
-- the atomic pipeline ZREMRANGEBYSCORE up to a score, ZADD of a new member with a score, ZCOUNT,
-- EXPIRE, and what it counted, if it is answered. The members are new ones: they end in a UUID.
-- The expiry takes nothing away that the next slide would keep.
pub record SortedSets : Type 1 where
  pub Store : Type 0
  pub scores : Store → String → List ℕ
  pub slide : Store → String → ℕ → ℕ → Store × Option ℕ
  pub slide_scores :
      (s : Store) (k : String) (window_start now count : ℕ)
      → (slide s k window_start now).1 ≡ some count
      → scores (slide s k window_start now).0 k ≡ now ∷ keep (ltb window_start) (scores s k)
  pub slide_count :
      (s : Store) (k : String) (window_start now count : ℕ)
      → (slide s k window_start now).1 ≡ some count
      → count ≡ length (scores (slide s k window_start now).0 k)

abbrev pub window_ms : ℕ
window_ms = 300000

abbrev pub redis_limit : ℕ
redis_limit = 15

abbrev pub fallback_limit : ℕ
fallback_limit = 5

unfoldable pub loops_key : String → String
loops_key session_id = String.◌++◌ "session:" (String.◌++◌ session_id ":agent_loops")

abbrev pub fallback_ttl_ms : ℕ
fallback_ttl_ms = 300000

-- A counter and when it was put in the cache, in milliseconds.
pub record Counter : Type 0 where
  pub count : ℕ
  pub created : ℕ

-- `loop_fallback_cache`, of the `moka` library: a counter lives for five minutes since it was put
-- in, which counting does not put off.
abbrev pub Counters : Type 0
Counters = String → Option Counter

-- `get_with` at a time: the counter that is there, or a new one.
abbrev pub get_with : ℕ → Option Counter → Counter
get_with now none = record { count = 0; created = now }
get_with now (some c) =
    if ltb now (c.created + fallback_ttl_ms) then c else record { count = 0; created = now }

abbrev pub set_counter : Counters → String → Counter → Counters
set_counter counters session_id c j = if str_eq j session_id then some c else counters j

abbrev pub exceeded : GatewayError
exceeded = agent_loop_budget_exceeded "Agent loop budget exceeded"

abbrev pub within : ℕ → ℕ → Result GatewayError ℕ
within limit count = if ltb limit count then err exceeded else ok count

-- The count in the process, a `u64`.
abbrev pub count_fallback : Counters → ℕ → String → Result GatewayError ℕ × Counters
count_fallback counters now session_id =
    let counter = get_with now (counters session_id) in
    let count = suc counter.count % 2 ^ 64 in
    (
      within fallback_limit count,
      set_counter counters session_id (record { count = count; created = counter.created }),
    )

module _ (redis : SortedSets) where
  open redis use {Store, slide}

  -- `now` is the clock in milliseconds, `none` before the epoch.
  unfoldable pub enforce_agentic_loop_budget :
      Store → Counters → Option ℕ → String → Result GatewayError ℕ × Store × Counters
  unfolding loops_key
  enforce_agentic_loop_budget s counters none session_id =
      (err (agent_loop_budget_exceeded "System time drift"), s, counters)
  enforce_agentic_loop_budget s counters (some now) session_id =
      let (s', answer) = slide s (loops_key session_id) (now - window_ms) now in
      elim answer [
        | some count ↦ (within redis_limit count, s', counters)
        | none ↦
            let (result, counters') = count_fallback counters now session_id in
            (result, s', counters')
      ]
