-- ===== src/Tracer.antt =====
-- redeye_tracer/src/infrastructure/latency_worker.rs: a tick of the worker that ranks the providers
-- by latency. The arithmetic of `f64`, ClickHouse's answer and Redis are parameters.
pub mod Smoothing
mod Tests
use red_eye_engine_gateway.Common.{
  ℕ, Bool, true, false, Option, none, some, List, [], ◌∷◌, ◌++◌, map, String, str_eq, is_empty,
  Result, ok, err, if◌then◌else◌, ◌>>=?◌,
}
use red_eye_engine_gateway.Json.{Value, Number, str, num, as_array, get, get_str}
use red_eye_engine_gateway.Mcp.Warming.{lookup, insert}

pub record F64 : Type 1 where
  pub Float : Type 0
  pub nought : Float
  pub one : Float
  pub default_alpha : Float
  pub plus : Float → Float → Float
  pub minus : Float → Float → Float
  pub times : Float → Float → Float
  pub more : Float → Float → Bool
  pub parse : String → Option Float
  pub as_f64 : Number → Option Float

module _ (F : F64) where
  abbrev pub compute_ema : Option F.Float → F.Float → F.Float → F.Float
  compute_ema none raw alpha = raw
  compute_ema (some prev) raw alpha =
      F.plus (F.times alpha raw) (F.times (F.minus F.one alpha) prev)

  -- A hash map, in the order in which it is iterated.
  abbrev pub Latencies : Type 0
  Latencies = List (String × F.Float)

  abbrev pub or_nought : Option F.Float → F.Float
  or_nought none = F.nought
  or_nought (some x) = x

  abbrev pub p95_of : Option Value → Option F.Float
  p95_of (some (str s)) = some (or_nought (F.parse s))
  p95_of (some (num n)) = some (or_nought (F.as_f64 n))
  p95_of _ = none

  abbrev pub provider_of : Option String → Option String
  provider_of none = none
  provider_of (some p) = if str_eq p "" then none else some p

  abbrev pub add_row : Option String → Option F.Float → Latencies → Latencies
  add_row (some provider) (some p95) result =
      if F.more p95 F.nought then insert provider p95 result else result
  add_row _ _ result = result

  abbrev pub add_rows : List Value → Latencies → Latencies
  add_rows [] result = result
  add_rows (row ∷ rows) result =
      add_rows rows
        (add_row (provider_of (get_str "executed_provider" row)) (p95_of (get "p95" row)) result)

  abbrev pub read_rows : Option (List Value) → Latencies
  read_rows none = []
  read_rows (some rows) = add_rows rows []

  -- The latencies in the answer of ClickHouse.
  unfoldable pub query_p95_latencies : Result String Value → Result String Latencies
  query_p95_latencies (err e) = err e
  query_p95_latencies (ok resp) = ok (read_rows (get "data" resp >>=? as_array))

  abbrev pub smooth : Latencies → Latencies → Latencies
  smooth [] ema_state = ema_state
  smooth ((provider, raw_p95) ∷ raw) ema_state =
      smooth raw (
        insert provider (compute_ema (lookup provider ema_state) raw_p95 F.default_alpha) ema_state)

  pub data Command : Type 0 where
    del : String → Command
    zadd : String → String → F.Float → Command
    expire : String → ℕ → Command

  abbrev pub redis_key : String
  redis_key = "redeye:latency:rankings"

  abbrev pub zadd_entry : String × F.Float → Command
  zadd_entry (provider, ema) = zadd redis_key provider ema

  -- The pipeline that replaces the ranking.
  abbrev pub pipeline : Latencies → List Command
  pipeline entries = del redis_key ∷ (map zadd_entry entries ++ expire redis_key 30 ∷ [])

  -- The state after a tick, the pipeline that it sends, and its result.
  pub record Ticked : Type 0 where
    pub ema_state : Latencies
    pub sent : List Command
    pub result : Result String (Unit {0})

  -- `pipe.query_async` with its error in the message
  abbrev pub replied : Result String (Unit {0}) → Result String (Unit {0})
  replied (ok u) = ok u
  replied (err e) = err "Redis pipeline failed"

  abbrev pub push : Result String (Unit {0}) → Latencies → Ticked
  push reply entries =
      if is_empty entries
      then record { ema_state = entries; sent = []; result = ok tt }
      else record { ema_state = entries; sent = pipeline entries; result = replied reply }

  abbrev pub tick_with : Result String (Unit {0}) → Latencies → Result String Latencies → Ticked
  tick_with reply ema_state (err e) = record { ema_state = ema_state; sent = []; result = err e }
  tick_with reply ema_state (ok raw) =
      if is_empty raw
      then record { ema_state = ema_state; sent = []; result = ok tt }
      else push reply (smooth raw ema_state)

  unfoldable pub tick : Result String Value → Result String (Unit {0}) → Latencies → Ticked
  tick resp reply ema_state = tick_with reply ema_state (query_p95_latencies resp)
