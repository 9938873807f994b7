-- ===== src/Limit.antt =====
-- The limits on what a tenant may ask for, over counters in Redis: the fixed window of
-- redeye_gateway/src/api/middleware/rate_limit.rs in RateLimit, and the token bucket of
-- redeye_gateway/src/usecases/proxy.rs in TokenBucket. The scripts are the sources'; the commands
-- that they call are Redis's, and this module says what is used of them.
pub mod RateLimit
pub mod TokenBucket
mod Tests
use red_eye_engine_gateway.Common.{
  ℕ, ◌+◌, ◌*◌, Bool, true, false, Option, none, some, String, leb, if◌then◌else◌, ◌≡◌, ◌≢◌, ℤ, pos,
  ◌+ℤ◌,
}

-- What a key holds: a number, and the time in milliseconds at which it expires, if it does.
pub record Entry : Type 0 where
  pub value : ℤ
  pub deadline : Option ℕ

abbrev pub expired : ℕ → Option ℕ → Bool
expired now none = false
expired now (some t) = leb t now

-- What is left of a key at a time.
abbrev pub live : ℕ → Option Entry → Option Entry
live now none = none
live now (some e) = if expired now e.deadline then none else some e

-- INCRBY: a missing key counts from 0 and gets no expiry.
abbrev pub add : ℤ → Option Entry → Entry
add d none = record { value = d; deadline = none }
add d (some e) = record { value = e.value +ℤ d; deadline = e.deadline }

abbrev pub until : ℕ → Option Entry → Option Entry
until t none = none
until t (some e) = some (record { value = e.value; deadline = some t })

abbrev pub after : ℕ → ℕ → ℕ
after now secs = now + secs * 1000

-- A Redis server's counters. `entry` is what a key was last left with; the laws are the documented
-- effects of INCRBY (INCR, DECRBY), EXPIRE and SET with EX at a time. `answers` tells whether a
-- script's call is answered, and `lost` is what one that is not answered leaves.
pub record Redis : Type 1 where
  pub Store : Type 0
  pub entry : Store → String → Option Entry
  pub incrby : Store → ℕ → String → ℤ → Store
  pub expire : Store → ℕ → String → ℕ → Store
  pub set_ex : Store → ℕ → String → ℤ → ℕ → Store
  pub answers : Store → ℕ → Bool
  pub lost : Store → ℕ → Store
  pub incrby_lem :
      (s : Store) (now : ℕ) (k : String) (d : ℤ)
      → entry (incrby s now k d) k ≡ some (add d (live now (entry s k)))
  pub expire_lem :
      (s : Store) (now : ℕ) (k : String) (secs : ℕ)
      → entry (expire s now k secs) k ≡ until (after now secs) (live now (entry s k))
  pub set_ex_lem :
      (s : Store) (now : ℕ) (k : String) (v : ℤ) (secs : ℕ)
      → entry (set_ex s now k v secs) k
        ≡ some (record { value = v; deadline = some (after now secs) })

module _ (redis : Redis) where
  open redis use {Store, entry}

  -- The number that a key holds, 0 where it is missing.
  abbrev value_of : Option Entry → ℤ
  value_of none = pos 0
  value_of (some e) = e.value

  abbrev pub held : Store → ℕ → String → ℤ
  held s now k = value_of (live now (entry s k))
