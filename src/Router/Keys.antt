-- ===== src/Router/Keys.antt =====
-- Keys, the routing map, the circuit breaker, and the healthy keys of a model in priority order.
use red_eye_engine_gateway.Common.{
  ℕ, ◌+◌, ltb, Bool, true, false, Option, none, some, List, [], ◌∷◌, String, str_eq, if◌then◌else◌,
  ℤ, leb_ℤ, ◌≡◌,
}

pub record KeyConfig : Type 0 where
  pub key_alias : String
  pub api_key : String
  pub priority : ℤ
  pub weight : ℤ

pub record ModelConfig : Type 0 where
  pub base_url : String
  pub schema_format : String
  pub keys : List KeyConfig

-- `HashMap<String, ModelConfig>`: one entry for each model.
abbrev pub RoutingMap : Type 0
RoutingMap = List (String × ModelConfig)

unfoldable pub lookup : String → RoutingMap → Option ModelConfig
lookup model [] = none
lookup model ((m, config) ∷ rest) = if str_eq m model then some config else lookup model rest

-- The breaker is a cache of the `moka` library, keyed by alias, whose entries live for 60 s. The
-- router relies on this: a key that is put in is there until its time to live has passed since the
-- last time it was put in, and putting a key in removes no other and adds no other, which holds of
-- fewer aliases than the capacity of 10000. `opened` is when a key was last put in; times are in
-- milliseconds.
pub record CircuitBreaker : Type 1 where
  pub Store : Type 0
  pub opened : Store → String → Option ℕ
  pub trip : Store → ℕ → String → Store
  pub opened-trip :
      (s : Store) (now : ℕ) (k j : String)
      → opened (trip s now k) j ≡ (if str_eq k j then some now else opened s j)

abbrev pub time_to_live_ms : ℕ
time_to_live_ms = 60000

abbrev pub is_live : ℕ → Option ℕ → Bool
is_live now none = false
is_live now (some t) = ltb now (t + time_to_live_ms)

-- `contains_key` at a time
abbrev pub is_open : (breaker : CircuitBreaker) → breaker.Store → ℕ → String → Bool
is_open breaker s now k = is_live now (breaker.opened s k)

-- `sort_by_key` is stable; so is this insertion sort.
abbrev pub insert_key : KeyConfig → List KeyConfig → List KeyConfig
insert_key k [] = k ∷ []
insert_key k (j ∷ js) = if leb_ℤ k.priority j.priority then k ∷ j ∷ js else j ∷ insert_key k js

unfoldable pub sort_keys : List KeyConfig → List KeyConfig
sort_keys [] = []
sort_keys (k ∷ ks) = insert_key k (sort_keys ks)

-- The keys whose breaker is not open.
unfoldable pub healthy : (String → Bool) → List KeyConfig → List KeyConfig
healthy is_open [] = []
healthy is_open (k ∷ ks) = elim (is_open k.key_alias) [
  | true ↦ healthy is_open ks
  | false ↦ k ∷ healthy is_open ks
]
