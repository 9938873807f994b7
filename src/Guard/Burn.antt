-- ===== src/Guard/Burn.antt =====
-- `enforce_burn_rate` and `record_session_spend`: what a session may spend within a calendar
-- minute.
pub mod Spending
use Prim.Native.String
use red_eye_engine_gateway.Common.{
  ℕ, ◌/◌, Bool, true, false, Option, none, some, String, if◌then◌else◌, ◌≡◌, unwrap_or, Result, ok,
  err,
}
use red_eye_engine_gateway.Errors.{GatewayError, burn_rate_exceeded}

-- `f64` as the guard uses it, with the reading of texts.
pub record Floats : Type 1 where
  pub Float : Type 0
  pub literal : String → Float
  pub of_u32 : ℕ → Float
  pub div : Float → Float → Float
  pub mul : Float → Float → Float
  pub equals : Float → Float → Bool
  pub at_least : Float → Float → Bool
  pub parse : String → Option Float

-- A Redis server's floating-point counters. `spent` is the text that a key holds, `none` if it is
-- missing. GET answers that or nothing; an answered INCRBYFLOAT replaces it by its sum with the
-- argument, as Redis adds and prints numbers, where a missing key counts as 0. No key expires
-- within the minute that it is for.
pub record Spends (floats : Floats) : Type 1 where
  pub Store : Type 0
  pub spent : Store → String → Option String
  pub increase : String → floats.Float → String
  pub get : Store → String → Option (Option String)
  pub incrbyfloat : Store → String → floats.Float → ℕ → Store × Bool
  pub get_lem : (s : Store) (k : String) (o : Option String) → get s k ≡ some o → o ≡ spent s k
  pub incrbyfloat_lem :
      (s : Store) (k : String) (d : floats.Float) (ttl : ℕ)
      → (incrbyfloat s k d ttl).1 ≡ true
      → spent (incrbyfloat s k d ttl).0 k ≡ some (increase (unwrap_or (spent s k) "0") d)

abbrev pub burn_key_ttl_secs : ℕ
burn_key_ttl_secs = 120

-- The minute of a clock in seconds.
unfoldable pub current_epoch_minute : ℕ → ℕ
current_epoch_minute secs = secs / 60

-- `print` writes a number.
unfoldable pub burn_key : (ℕ → String) → String → ℕ → String
burn_key print session_id minute =
    String.◌++◌ "session:" (String.◌++◌ session_id (String.◌++◌ ":burn:" (print minute)))

abbrev corrupted : GatewayError
corrupted = burn_rate_exceeded "Burn rate limit enforcement failed due to corrupted tracking data"

abbrev pub exceeded : GatewayError
exceeded = burn_rate_exceeded "Session burn rate exceeded. Paused to prevent runaway costs."

module _ (floats : Floats) (redis : Spends floats) (print : ℕ → String) where
  open floats use {Float, literal, of_u32, div, mul, equals, at_least, parse}
  open redis use {Store, get, incrbyfloat}

  abbrev pub max_burn_rate_per_minute : Float
  max_burn_rate_per_minute = literal "0.005"

  abbrev pub zero_spend : Float
  zero_spend = literal "0.0"

  abbrev pub within_rate : Float → Result GatewayError (Unit {0})
  within_rate spend = if at_least spend max_burn_rate_per_minute then err exceeded else ok tt

  abbrev pub of_text : Option Float → Result GatewayError (Unit {0})
  of_text none = err corrupted
  of_text (some spend) = within_rate spend

  -- What GET answers decides: no answer lets the request through, an unreadable number does not.
  abbrev pub of_answer : Option (Option String) → Result GatewayError (Unit {0})
  of_answer none = ok tt
  of_answer (some none) = within_rate zero_spend
  of_answer (some (some v)) = of_text (parse v)

  unfoldable pub enforce_burn_rate : Store → ℕ → String → Result GatewayError (Unit {0})
  unfolding current_epoch_minute burn_key
  enforce_burn_rate s now session_id =
      of_answer (get s (burn_key print session_id (current_epoch_minute now)))

  unfoldable pub cost_of : ℕ → Float
  cost_of tokens = mul (div (of_u32 tokens) (literal "1000.0")) (literal "0.002")

  unfoldable pub record_session_spend : Store → ℕ → String → ℕ → Store
  unfolding cost_of current_epoch_minute burn_key
  record_session_spend s now session_id tokens =
      if equals (cost_of tokens) zero_spend
      then s
      else (incrbyfloat s (burn_key print session_id (current_epoch_minute now)) (cost_of tokens)
          burn_key_ttl_secs).0
