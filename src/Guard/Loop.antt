-- ===== src/Guard/Loop.antt =====
-- `compute_body_hash` and `enforce_loop_detection`: a session that repeats one request is blocked.
pub mod Window
pub mod Repetition
use Prim.Native.String
use red_eye_engine_gateway.Common.{
  ℕ, suc, ◌+◌, ◌-◌, ◌*◌, Bool, true, false, Option, none, some, List, [], ◌∷◌, ◌++◌, String, str_eq,
  ◌==◌, leb, ◌&&◌, if◌then◌else◌, ◌≡◌, ◌≢◌, ◌⊎◌, length, take, all, Result, ok, err,
}
use red_eye_engine_gateway.Json.{Value, get}
use red_eye_engine_gateway.Errors.{GatewayError, loop_detected}

-- The JSON printer and SHA-256 with hex digits. Updating a hasher piece by piece hashes the
-- pieces' concatenation.
pub record Hashing : Type 0 where
  pub to_string : Value → List ℕ
  pub sha256_hex : List ℕ → String

-- What a key holds, the latest hash first, and the time in milliseconds at which it expires.
pub record Hashes : Type 0 where
  pub hashes : List String
  pub deadline : ℕ

-- What is left of a key at a time.
abbrev pub live : ℕ → Option Hashes → List String
live now none = []
live now (some e) = if leb e.deadline now then [] else e.hashes

-- LPUSH, LTRIM and EXPIRE.
abbrev pub pushed : ℕ → Option Hashes → String → ℕ → ℕ → Hashes
pushed now o h stop ttl = record {
  hashes = take (suc stop) (h ∷ live now o);
  deadline = now + ttl * 1000;
}

-- A Redis server's lists. `entry` is what a key was last left with; the laws are the documented
-- effects, at a time, of LRANGE and of the atomic pipeline LPUSH, LTRIM, EXPIRE, on the calls that
-- are answered; a call that is not answered may or may not have been carried out.
pub record Lists : Type 1 where
  pub Store : Type 0
  pub entry : Store → String → Option Hashes
  pub lrange : Store → ℕ → String → ℕ → Option (List String)
  pub push_trim : Store → ℕ → String → String → ℕ → ℕ → Store × Bool
  pub lrange_lem :
      (s : Store) (now : ℕ) (k : String) (stop : ℕ) {l : List String}
      → lrange s now k stop ≡ some l
      → l ≡ take (suc stop) (live now (entry s k))
  pub push_trim_answered :
      (s : Store) (now : ℕ) (k h : String) (stop ttl : ℕ)
      → (push_trim s now k h stop ttl).1 ≡ true
      → entry (push_trim s now k h stop ttl).0 k ≡ some (pushed now (entry s k) h stop ttl)
  pub push_trim_any :
      (s : Store) (now : ℕ) (k h : String) (stop ttl : ℕ)
      → (entry (push_trim s now k h stop ttl).0 k ≡ entry s k)
        ⊎ (entry (push_trim s now k h stop ttl).0 k ≡ some (pushed now (entry s k) h stop ttl))
  pub push_trim_other :
      (s : Store) (now : ℕ) (k j h : String) (stop ttl : ℕ)
      → j ≢ k
      → entry (push_trim s now k h stop ttl).0 j ≡ entry s j

abbrev pub loop_window : ℕ
loop_window = 3

abbrev pub max_history : ℕ
max_history = 5

abbrev pub session_hash_ttl_secs : ℕ
session_hash_ttl_secs = 3600

abbrev printed : Hashing → Option Value → List ℕ
printed hashing none = []
printed hashing (some v) = hashing.to_string v

-- The fields that are hashed: `messages` and `tools`, or the whole body if it has neither.
abbrev hash_input : Hashing → Value → Option Value → Option Value → List ℕ
hash_input hashing body none none = hashing.to_string body
hash_input hashing body messages tools = printed hashing messages ++ printed hashing tools

unfoldable pub compute_body_hash : Hashing → Value → String
compute_body_hash hashing body =
    hashing.sha256_hex (hash_input hashing body (get "messages" body) (get "tools" body))

unfoldable pub hashes_key : String → String
hashes_key session_id = String.◌++◌ "session:" (String.◌++◌ session_id ":hashes")

-- The test of the guard: a full window of hashes, all equal to the current one.
abbrev pub is_loop : List String → String → Bool
is_loop recent current = leb loop_window (length recent) && all (λ h. str_eq h current) recent

module _ (redis : Lists) where
  open redis use {Store, lrange, push_trim}

  -- The guard on a hash, at a time in milliseconds. Where Redis does not answer, the request is let through.
  unfoldable pub enforce_hash : Store → ℕ → String → String → Result GatewayError (Unit {0}) × Store
  unfolding hashes_key
  enforce_hash s now session_id current =
      let key = hashes_key session_id in
      elim (lrange s now key (loop_window - 1)) [
        | none ↦ (ok tt, s)
        | some recent ↦
            if is_loop recent current
            then (
              err (
                  loop_detected
                    "Agent recursive loop detected. Session blocked to prevent runaway costs."),
              s,
            )
            else (ok tt, (push_trim s now key current (max_history - 1) session_hash_ttl_secs).0)
      ]

  unfoldable pub enforce_loop_detection :
      Hashing → Store → ℕ → String → Value → Result GatewayError (Unit {0}) × Store
  unfolding enforce_hash compute_body_hash
  enforce_loop_detection hashing s now session_id body =
      enforce_hash s now session_id (compute_body_hash hashing body)
