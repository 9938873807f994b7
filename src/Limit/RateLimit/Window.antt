-- ===== src/Limit/RateLimit/Window.antt =====
-- How many requests a window lets through.
use red_eye_engine_gateway.Common.{
  ℕ, suc, ◌+◌, ◌-◌, ◌≤◌, ◌<◌, true, false, Option, none, some, List, [], ◌∷◌, String, leb, ◌≡◌,
  refl, ap, ◌∙◌, arith, length, All, lt→leb, le→leb, ℤ, pos, ◌+ℤ◌,
}
use red_eye_engine_gateway.Limit.{Redis, Entry, live, add, until, after}
use red_eye_engine_gateway.Limit.RateLimit.{is_one, verdict, count_request, limit_requests}

abbrev counter : ℕ → ℕ → Entry
counter n deadline = record { value = pos n; deadline = some deadline }

live_before :
    (now n deadline : ℕ)
    → now < deadline
    → live now (some (counter n deadline)) ≡ some (counter n deadline)
live_before now n deadline b = rw (lt→leb now deadline b) refl

live_after : (now n deadline : ℕ) → deadline ≤ now → live now (some (counter n deadline)) ≡ none
live_after now n deadline b = rw (le→leb deadline now b) refl

verdict_counts :
    (limit window_secs n : ℕ) (ttl : Option ℤ)
    → ((verdict limit window_secs (pos n) ttl).passed ≡ leb n limit)
      × ((verdict limit window_secs (pos n) ttl).remaining ≡ limit - n)
unfolding verdict
verdict_counts limit window_secs n ttl = ground arith

pos_add : (n : ℕ) → pos n +ℤ pos 1 ≡ pos (suc n)
pos_add n = rw (le→leb 0 (n + 1) (omega arith)) (ap pos {x = n + 1 - 0} {y = suc n} (omega arith))

is_one_late : (n : ℕ) → is_one (pos (suc (suc n))) ≡ false
is_one_late n = ground arith

module _ (redis : Redis) (limit window_secs : ℕ) where
  open redis use {Store, entry, answers, incrby_lem, expire_lem}

  abbrev pub Answers : Type 0
  Answers = (s : Store) (now : ℕ) → answers s now ≡ true

  -- The state after a first request at a time and later requests of the same key, the latest first.
  abbrev pub run : ℕ → List (ℕ × Option ℤ) → Store → String → Store
  run start [] s key = (limit_requests redis limit window_secs none s start key).1
  run start ((t, ttl) ∷ ts) s key =
      (limit_requests redis limit window_secs ttl (run start ts s key) t key).1

  middleware_answered :
      (s : Store) (now : ℕ) (key : String) (ttl : Option ℤ)
      → Answers
      → limit_requests redis limit window_secs ttl s now key ≡ (
        verdict limit window_secs (count_request redis s now key window_secs).0 ttl,
        (count_request redis s now key window_secs).1,
      )
  unfolding limit_requests
  middleware_answered s now key ttl answered = rw answered refl

  count_request_first :
      (s : Store) (now : ℕ) (key : String)
      → live now (entry s key) ≡ none
      → (count_request redis s now key window_secs).0 ≡ pos 1
        × entry (count_request redis s now key window_secs).1 key
          ≡ some (counter 1 (after now window_secs))
  unfolding count_request
  count_request_first s now key fresh =
      let counted : entry (redis.incrby s now key (pos 1)) key ≡ some (add (pos 1) none) =
        incrby_lem s now key (pos 1) ∙ ap (λ o. some (add (pos 1) o)) fresh in
      rw (counted, count_request)
        (
          refl,
          expire_lem (redis.incrby s now key (pos 1)) now key window_secs
              ∙ ap (λ o. until (after now window_secs) (live now o)) counted,
        )

  count_request_next :
      (s : Store) (now n deadline : ℕ) (key : String)
      → entry s key ≡ some (counter (suc n) deadline)
      → now < deadline
      → (count_request redis s now key window_secs).0 ≡ pos (suc (suc n))
        × entry (count_request redis s now key window_secs).1 key
          ≡ some (counter (suc (suc n)) deadline)
  unfolding count_request
  count_request_next s now n deadline key e b =
      let counted : entry (redis.incrby s now key (pos 1)) key
          ≡ some (counter (suc (suc n)) deadline) =
        incrby_lem s now key (pos 1)
        ∙ ap (λ o. some (add (pos 1) (live now o))) e
        ∙ ap (λ o. some (add (pos 1) o)) (live_before now (suc n) deadline b)
        ∙ ap (λ v. some (record { value = v; deadline = some deadline })) (pos_add (suc n)) in
      rw (counted, count_request, live_before now (suc (suc n)) deadline b, is_one_late n)
        (refl, counted)

  -- What the counter holds after the first request of a window and later ones in it.
  run-counter :
      (start : ℕ) (ts : List (ℕ × Option ℤ)) (s : Store) (key : String)
      → Answers
      → live start (entry s key) ≡ none
      → All (λ r. r.0 < after start window_secs) ts
      → entry (run start ts s key) key ≡ some (counter (suc (length ts)) (after start window_secs))
  run-counter start [] s key answered fresh _ =
      ap (λ r. entry r.1 key) (middleware_answered s start key none answered)
      ∙ (count_request_first s start key fresh).1
  run-counter start ((t, ttl) ∷ ts) s key answered fresh (b, bs) =
      let before = run start ts s key in
      ap (λ r. entry r.1 key) (middleware_answered before t key ttl answered)
      ∙ (count_request_next before t (length ts) (after start window_secs) key
          (run-counter start ts s key answered fresh bs) b).1

  -- While Redis answers: after a request for a key that holds nothing, and any later requests
  -- for it before its window ends, the next such request passes exactly if the number of requests
  -- of the window, this one included, is at most the limit, and the header of remaining requests
  -- tells the limit less that number; and at the end of the window the key holds nothing again.
  pub limit_requests_counts :
      (start : ℕ) (ts : List (ℕ × Option ℤ)) (s : Store) (key : String) (t : ℕ) (ttl : Option ℤ)
      → Answers
      → live start (entry s key) ≡ none
      → All (λ r. r.0 < after start window_secs) ts
      → t < after start window_secs
      → let answer = (limit_requests redis limit window_secs ttl (run start ts s key) t key).0 in
        let requests = suc (suc (length ts)) in
        (answer.passed ≡ leb requests limit)
        × (answer.remaining ≡ limit - requests)
        × ((late : ℕ)
            → after start window_secs ≤ late
            → live late (entry (run start ts s key) key) ≡ none)
  limit_requests_counts start ts s key t ttl answered fresh bs b =
      let before = run start ts s key in
      let counted = run-counter start ts s key answered fresh bs in
      let answer : (limit_requests redis limit window_secs ttl before t key).0
          ≡ verdict limit window_secs (pos (suc (suc (length ts)))) ttl =
        ap (λ r. r.0) (middleware_answered before t key ttl answered)
        ∙ ap (λ c. verdict limit window_secs c ttl)
            (count_request_next before t (length ts) (after start window_secs) key counted b).0 in
      let (passes, remains) = verdict_counts limit window_secs (suc (suc (length ts))) ttl in
      (
        ap (λ v. v.passed) answer ∙ passes,
        ap (λ v. v.remaining) answer ∙ remains,
        λ late h.
            ap (live late) counted ∙ live_after late (suc (length ts)) (after start window_secs) h,
      )
