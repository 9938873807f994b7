-- ===== src/Tracer/Tests.antt =====
-- Ticks of the worker, with latencies as whole milliseconds.
use red_eye_engine_gateway.Common.{ℕ, ◌+◌, ◌-◌, ◌*◌, ◌/◌, ◌≡◌, refl, none, [], ◌∷◌, ltb, ok, err}
use red_eye_engine_gateway.Json.{
  Value, pos_int, str, num, obj, arr, end, field, nil, cons, number_u64,
}
use red_eye_engine_gateway.Tracer.{F64, Latencies, query_p95_latencies, tick}
use red_eye_engine_gateway.Tracer.Smoothing.{IsTicked, tick-IsTicked}

-- Whole tenths: `times` by a number of tenths.
abbrev tenths : F64
tenths = record {
  Float = ℕ;
  nought = 0;
  one = 10;
  default_alpha = 3;
  plus = λ a b. a + b;
  minus = λ a b. a - b;
  times = λ a b. (a * b) / 10;
  more = λ a b. ltb b a;
  parse = λ s. none;
  as_f64 = number_u64;
}

abbrev answer : Value
answer = obj (
    field "data"
      (arr (
        cons (obj (field "executed_provider" (str "openai") (field "p95" (num (pos_int 100)) end)))
          nil))
      end)

abbrev old : Latencies tenths
old = ("gemini", 400) ∷ ("openai", 200) ∷ []

tick-IsTicked_example :
    IsTicked tenths (ok answer) old "openai" (tick tenths (ok answer) (ok tt) old)
tick-IsTicked_example = tick-IsTicked tenths (ok answer) (ok tt) old "openai"

tick-smooths :
    (tick tenths (ok answer) (ok tt) old).ema_state ≡ ("gemini", 400) ∷ ("openai", 170) ∷ []
unfolding tick query_p95_latencies
tick-smooths = refl

-- A failure of Redis leaves the smoothed state behind.
tick_fails :
    (tick tenths (ok answer) (err "timeout") old).ema_state ≡ ("gemini", 400) ∷ ("openai", 170) ∷ []
unfolding tick query_p95_latencies
tick_fails = refl
