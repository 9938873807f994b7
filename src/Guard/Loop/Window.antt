-- ===== src/Guard/Loop/Window.antt =====
-- When the loop guard blocks, and what it leaves in Redis.
use red_eye_engine_gateway.Common.{
  ℕ, Option, ◌-◌, ◌≤◌, Bool, true, false, none, some, List, [], ◌∷◌, String, str_eq, eq_iff, ◌≡◌,
  ◌≢◌, refl, sym, ◌∙◌, &&-true, arith, length, take, replicate, length-take, Result, ok, err, inl,
  inr, Bool-cases, Option-cases,
}
use red_eye_engine_gateway.Errors.{GatewayError, loop_detected}
use red_eye_engine_gateway.Guard.Loop.{
  Hashes, Lists, live, hashes_key, max_history, session_hash_ttl_secs, is_loop, enforce_hash,
}

abbrev pub is_blocked : Result GatewayError (Unit {0}) → Bool
is_blocked (ok _) = false
is_blocked (err e) = true

loop_is_three :
    (recent : List String) (h : String)
    → length recent ≤ 3
    → is_loop recent h ≡ true
    → recent ≡ replicate 3 h
loop_is_three [] h b e = cc
loop_is_three (x ∷ []) h b e = cc
loop_is_three (x ∷ y ∷ []) h b e = cc
loop_is_three (x ∷ y ∷ z ∷ []) h b e =
    let (ex, rest) = &&-true (str_eq x h) _ e in
    let (ey, last) = &&-true (str_eq y h) _ rest in
    let (ez, _) = &&-true (str_eq z h) _ last in
    rw ((eq_iff x h).0 ex, (eq_iff y h).0 ey, (eq_iff z h).0 ez) refl
loop_is_three (x ∷ y ∷ z ∷ w ∷ l) h b e = absurd (omega (arith, b))

module _ (redis : Lists) where
  open redis use {
    Store, entry, lrange, push_trim, lrange_lem, push_trim_answered, push_trim_any, push_trim_other,
  }

  pub enforce_hash-blocked :
      (s : Store) (now : ℕ) (id h : String) {recent : List String}
      → lrange s now (hashes_key id) 2 ≡ some recent
      → is_loop recent h ≡ true
      → enforce_hash redis s now id h ≡ (
        err (
            loop_detected
              "Agent recursive loop detected. Session blocked to prevent runaway costs."),
        s,
      )
  unfolding enforce_hash
  enforce_hash-blocked s now id h e loop = rw (e, enforce_hash, loop) refl

  pub enforce_hash-recorded :
      (s : Store) (now : ℕ) (id h : String) {recent : List String}
      → lrange s now (hashes_key id) 2 ≡ some recent
      → is_loop recent h ≡ false
      → enforce_hash redis s now id h
        ≡ (ok tt, (push_trim s now (hashes_key id) h (max_history - 1) session_hash_ttl_secs).0)
  unfolding enforce_hash
  enforce_hash-recorded s now id h e fresh = rw (e, enforce_hash, fresh) refl

  pub enforce_hash-unanswered :
      (s : Store) (now : ℕ) (id h : String)
      → lrange s now (hashes_key id) 2 ≡ none
      → enforce_hash redis s now id h ≡ (ok tt, s)
  unfolding enforce_hash
  enforce_hash-unanswered s now id h e = rw (e, enforce_hash) refl

  -- The hashes that a key was last left with.
  abbrev pub stored : Option Hashes → List String
  stored none = []
  stored (some e) = e.hashes

  -- What one request does to a session's hashes.
  --   blocked: the last three requests had the current hash, and nothing is written.
  abbrev pub IsGuarded : Store → ℕ → String → String → Type 0
  IsGuarded s now id h =
      (is_blocked (enforce_hash redis s now id h).0 ≡ true
        → (take 3 (live now (entry s (hashes_key id))) ≡ replicate 3 h)
          × ((enforce_hash redis s now id h).1 ≡ s))
      × (length (stored (entry s (hashes_key id))) ≤ max_history
          → length (stored (entry (enforce_hash redis s now id h).1 (hashes_key id))) ≤ max_history)
      × ((j : String) → j ≢ hashes_key id → entry (enforce_hash redis s now id h).1 j ≡ entry s j)

  bound_pushed :
      (s : Store) (now : ℕ) (k h : String)
      → length (stored (entry s k)) ≤ max_history
      → length (stored (entry (push_trim s now k h (max_history - 1) session_hash_ttl_secs).0 k))
        ≤ max_history
  bound_pushed s now k h b = elim (push_trim_any s now k h 4 3600) [
    | inl e ↦ rw e b
    | inr e ↦ rw e (rw (length-take 5 (h ∷ live now (entry s k))) (omega arith))
  ]

  recent_full :
      (s : Store) (now : ℕ) (id h : String) {recent : List String}
      → lrange s now (hashes_key id) 2 ≡ some recent
      → is_loop recent h ≡ true
      → take 3 (live now (entry s (hashes_key id))) ≡ replicate 3 h
  recent_full s now id h {recent} e loop =
      let read : recent ≡ take 3 (live now (entry s (hashes_key id))) =
        lrange_lem s now (hashes_key id) 2 e in
      let short : length recent ≤ 3 =
        rw (read, length-take 3 (live now (entry s (hashes_key id)))) (omega arith) in
      sym read ∙ loop_is_three recent h short loop

  guard_answered :
      (s : Store) (now : ℕ) (id h : String) {recent : List String}
      → lrange s now (hashes_key id) 2 ≡ some recent
      → IsGuarded s now id h
  guard_answered s now id h {recent} e = elim (Bool-cases (is_loop recent h)) [
    | inl loop ↦
        rw (enforce_hash-blocked s now id h e loop)
          ((λ _. (recent_full s now id h e loop, refl)), (λ b. b), λ j d. refl)
    | inr fresh ↦ rw (enforce_hash-recorded s now id h e fresh) (
      (λ b. cc),
      bound_pushed s now (hashes_key id) h,
      λ j d. push_trim_other s now (hashes_key id) j h 4 3600 d,
    )
  ]

  -- Whatever Redis answers: a request is blocked only if the last three requests recorded for
  -- its session, in a list that has not expired, have its hash, and then nothing is written; a list
  -- of at most five hashes stays one; no other key's list changes.
  pub enforce_hash-IsGuarded : (s : Store) (now : ℕ) (id h : String) → IsGuarded s now id h
  enforce_hash-IsGuarded s now id h = elim (Option-cases (lrange s now (hashes_key id) 2)) [
    | inl e ↦ rw (enforce_hash-unanswered s now id h e) ((λ b. cc), (λ b. b), λ j d. refl)
    | inr (recent, e) ↦ guard_answered s now id h e
  ]
