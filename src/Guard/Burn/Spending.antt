-- ===== src/Guard/Burn/Spending.antt =====
-- What a session has spent in a minute, and when it is stopped.
use red_eye_engine_gateway.Common.{
  ℕ, true, Option, none, some, List, [], ◌∷◌, String, if◌then◌else◌, ◌≡◌, ◌≢◌, unwrap_or,
}
use red_eye_engine_gateway.Guard.Burn.{Floats, Spends, zero_spend, cost_of, record_session_spend}

module _ (floats : Floats) (redis : Spends floats) (print : ℕ → String) where
  open floats use {Float, equals, parse}
  open redis use {Store, spent, get, increase, incrbyfloat, get_lem, incrbyfloat_lem}

  -- The store after requests of a session with their token counts, the latest first, at the times
  -- of one minute.
  abbrev pub run : List (ℕ × ℕ) → Store → String → Store
  run [] s id = s
  run ((now, tokens) ∷ rs) s id =
      record_session_spend floats redis print (run rs s id) now id tokens

  -- The total of the costs as Redis adds them, costs of zero left out.
  abbrev pub total : List (ℕ × ℕ) → Option String
  total [] = none
  total ((now, tokens) ∷ rs) =
      let rest = total rs in
      if equals (cost_of floats redis print tokens) (zero_spend floats redis print)
      then rest
      else some (increase (unwrap_or rest "0") (cost_of floats redis print tokens))

  abbrev pub Reads : Type 0
  Reads = (s : Store) (k : String) → get s k ≢ none

  abbrev pub Writes : Type 0
  Writes = (s : Store) (k : String) (d : Float) (ttl : ℕ) → (incrbyfloat s k d ttl).1 ≡ true
