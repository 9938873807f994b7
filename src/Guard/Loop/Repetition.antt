-- ===== src/Guard/Loop/Repetition.antt =====
-- A session that repeats one request.
use red_eye_engine_gateway.Common.{
  ℕ, ◌+◌, List, ◌≤◌, ◌<◌, true, none, [], ◌∷◌, String, ◌≡◌, ◌≢◌, replicate,
}
use red_eye_engine_gateway.Json.{Value}
use red_eye_engine_gateway.Guard.Loop.{Lists, live, Hashing, hashes_key, enforce_loop_detection}

module _ (redis : Lists) where
  open redis use {Store, entry, lrange, push_trim, lrange_lem, push_trim_answered}

  abbrev pub Reads : Type 0
  Reads = (s : Store) (now : ℕ) (k : String) (stop : ℕ) → lrange s now k stop ≢ none

  abbrev pub Writes : Type 0
  Writes =
      (s : Store) (now : ℕ) (k h : String) (stop ttl : ℕ) → (push_trim s now k h stop ttl).1 ≡ true

  -- The state after requests with one body at these times, the latest first.
  abbrev pub repeat : Hashing → List ℕ → Store → String → Value → Store
  repeat hashing [] s id body = s
  repeat hashing (t ∷ ts) s id body =
      (enforce_loop_detection redis hashing (repeat hashing ts s id body) t id body).1

  -- From a time on, and for an hour, the session's list holds one hash so many times.
  abbrev Holds : ℕ → Store → String → String → ℕ → Type 0
  Holds start s id h j =
      (u : ℕ) → start ≤ u → u < start + 3600000 → live u (entry s (hashes_key id)) ≡ replicate j h
