-- ===== src/Guard/Budget/Window.antt =====
-- What the budget guard counts over a sequence of requests.
use red_eye_engine_gateway.Common.{
  ℕ, suc, ◌+◌, ◌++◌, Option, if◌then◌else◌, lt→ltb, ◌-◌, ◌%◌, ◌^◌, ◌≤◌, ◌<◌, Bool, true, false,
  none, some, List, [], ◌∷◌, String, eq_refl, ltb, ◌≡◌, ◌≢◌, refl, ap, ◌∙◌, arith, length, keep,
  All, Bool-cases, Option-cases, inl, inr,
}
use red_eye_engine_gateway.Guard.Budget.{
  SortedSets, Counter, Counters, get_with, fallback_ttl_ms, window_ms, redis_limit, fallback_limit,
  loops_key, within, enforce_agentic_loop_budget,
}

-- A narrower test sees nothing that a wider one dropped.
keep-keep {ℓ} :
    {A : Type ℓ} (p q : A → Bool) (xs : List A)
    → ((x : A) → p x ≡ false → q x ≡ false)
    → keep q (keep p xs) ≡ keep q xs
keep-keep p q [] h = refl
keep-keep p q (x ∷ xs) h = elim (Bool-cases (p x)) [
  | inl e ↦ rw (e, keep) (ap (λ l. elim (q x) [ true ↦ x ∷ l | false ↦ l ]) (keep-keep p q xs h))
  | inr e ↦ rw (e, keep, h x e) (keep-keep p q xs h)
]

ltb_mono : (w v x : ℕ) → w ≤ v → ltb w x ≡ false → ltb v x ≡ false
ltb_mono w v x b h = ground arith

-- Times of requests, the latest first.
abbrev pub IsDescending : List ℕ → Type 0
IsDescending [] = Unit
IsDescending (t ∷ ts) = All (λ u. u ≤ t) ts × IsDescending ts

module _ (redis : SortedSets) where
  open redis use {Store, scores, slide, slide_scores, slide_count}

  -- The store and the counters after requests of one session, the latest first.
  abbrev pub run : List ℕ → Store → Counters → String → Store × Counters
  run [] s counters id = (s, counters)
  run (t ∷ ts) s counters id =
      let before = run ts s counters id in
      let after = enforce_agentic_loop_budget redis before.0 before.1 (some t) id in
      (after.1, after.2)

  abbrev pub Answers : Type 0
  Answers = (s : Store) (k : String) (w now : ℕ) → (slide s k w now).1 ≢ none

  abbrev pub Fails : Type 0
  Fails = (s : Store) (k : String) (w now : ℕ) → (slide s k w now).1 ≡ none

  -- One request that Redis answers.
  slide_once :
      (s : Store) (counters : Counters) (now : ℕ) (id : String)
      → Answers
      → ((enforce_agentic_loop_budget redis s counters (some now) id).0
          ≡ within redis_limit
              (suc (length (keep (ltb (now - window_ms)) (scores s (loops_key id))))))
        × (scores (enforce_agentic_loop_budget redis s counters (some now) id).1 (loops_key id)
            ≡ now ∷ keep (ltb (now - window_ms)) (scores s (loops_key id)))
  unfolding enforce_agentic_loop_budget
  slide_once s counters now id answers =
      elim (Option-cases (slide s (loops_key id) (now - window_ms) now).1) [
        | inl e ↦ absurd (answers _ _ _ _ e)
        | inr (count, e) ↦
            let kept = slide_scores s (loops_key id) (now - window_ms) now count e in
            let counted = slide_count s (loops_key id) (now - window_ms) now count e in
            rw (e, enforce_agentic_loop_budget)
              (ap (within redis_limit) (counted ∙ ap length kept), kept)
      ]

  -- After a request at time t, the set holds at least the requests of every window that ends at t
  -- or later, and no others.
  run-scores :
      (s : Store) (counters : Counters) (id : String) (t : ℕ) (ts : List ℕ) (w : ℕ)
      → Answers
      → scores s (loops_key id) ≡ []
      → IsDescending (t ∷ ts)
      → t - window_ms ≤ w
      → keep (ltb w) (scores (run ts s counters id).0 (loops_key id)) ≡ keep (ltb w) ts
  run-scores s counters id t [] w answers fresh d b = rw fresh refl
  run-scores s counters id t (u ∷ ts) w answers fresh ((u_le, _), d) b =
      let before = run ts s counters id in
      let v = u - window_ms in
      let wide : v ≤ w = omega (arith, u_le, b) in
      let earlier = run-scores s counters id u ts v answers fresh d (omega arith) in
      ap (keep (ltb w)) ((slide_once before.0 before.1 u id answers).1 ∙ ap (u ∷◌) earlier)
      ∙ ap (λ l. elim (ltb w u) [ true ↦ u ∷ l | false ↦ l ])
          (keep-keep (ltb v) (ltb w) ts (λ x h. ltb_mono v w x wide h))

  -- While Redis answers, a session that starts with no history and asks at non-decreasing times,
  -- the last of them t, gets at t the number of its requests, rejected ones included, at times
  -- later than t - 300000 (0 if t is less), or an error if that number is above fifteen.
  pub enforce_agentic_loop_budget_counts :
      (s : Store) (counters : Counters) (id : String) (t : ℕ) (ts : List ℕ)
      → Answers
      → scores s (loops_key id) ≡ []
      → IsDescending (t ∷ ts)
      → let before = run ts s counters id in
        (enforce_agentic_loop_budget redis before.0 before.1 (some t) id).0
        ≡ within redis_limit (suc (length (keep (ltb (t - window_ms)) ts)))
  enforce_agentic_loop_budget_counts s counters id t ts answers fresh d =
      let before = run ts s counters id in
      (slide_once before.0 before.1 t id answers).0
      ∙ ap (λ l. within redis_limit (suc (length l)))
          (run-scores s counters id t ts (t - window_ms) answers fresh d (omega arith))

  fallback_once :
      (s : Store) (counters : Counters) (now : ℕ) (id : String)
      → Fails
      → let counter = get_with now (counters id) in
        ((enforce_agentic_loop_budget redis s counters (some now) id).0
          ≡ within fallback_limit (suc counter.count % 2 ^ 64))
        × ((enforce_agentic_loop_budget redis s counters (some now) id).2 id
            ≡ some (record { count = suc counter.count % 2 ^ 64; created = counter.created }))
  unfolding enforce_agentic_loop_budget
  fallback_once s counters now id fails =
      rw (fails s (loops_key id) (now - window_ms) now, enforce_agentic_loop_budget, eq_refl id)
        (refl, refl)

  abbrev IsFresh : Counters → ℕ → String → Type 0
  IsFresh counters start id = get_with start (counters id) ≡ record { count = 0; created = start }

  run-counters :
      (s : Store) (counters : Counters) (id : String) (start : ℕ) (ts : List ℕ)
      → Fails
      → IsFresh counters start id
      → All (λ u. u < start + fallback_ttl_ms) ts
      → suc (length ts) < 2 ^ 64
      → (run (ts ++ start ∷ []) s counters id).1 id
        ≡ some (record { count = suc (length ts); created = start })
  run-counters s counters id start [] fails fresh _ b =
      (fallback_once s counters start id fails).1
      ∙ ap (λ (c : Counter). some (record { count = suc c.count % 2 ^ 64; created = c.created }))
          fresh
  run-counters s counters id start (t ∷ ts) fails fresh (early, times) b =
      let before = run (ts ++ start ∷ []) s counters id in
      (fallback_once before.0 before.1 t id fails).1
      ∙ ap
          (λ (o : Option Counter).
            let c = get_with t o in
            some (record { count = suc c.count % 2 ^ 64; created = c.created }))
          (run-counters s counters id start ts fails fresh times (omega (arith, b)))
      ∙ rw (lt→ltb t (start + fallback_ttl_ms) early) (
          ap (λ n. some (record { count = n; created = start }))
            {x = suc (suc (length ts)) % 2 ^ 64} {y = suc (suc (length ts))} (omega (arith, b)))

  -- While Redis fails, the requests of a session from a first one on, for which there is no counter,
  -- are counted for five minutes: a request within them gets the number of requests so far, this one
  -- included, or an error if that number is above five, and one after them is the first again.
  pub enforce_agentic_loop_budget_falls_back :
      (s : Store) (counters : Counters) (id : String) (start : ℕ) (ts : List ℕ) (t : ℕ)
      → Fails
      → get_with start (counters id) ≡ record { count = 0; created = start }
      → All (λ u. u < start + fallback_ttl_ms) ts
      → suc (suc (length ts)) < 2 ^ 64
      → let before = run (ts ++ start ∷ []) s counters id in
        (enforce_agentic_loop_budget redis before.0 before.1 (some t) id).0
        ≡ within fallback_limit
            (if ltb t (start + fallback_ttl_ms) then suc (suc (length ts)) else 1)
  enforce_agentic_loop_budget_falls_back s counters id start ts t fails fresh times b =
      let before = run (ts ++ start ∷ []) s counters id in
      (fallback_once before.0 before.1 t id fails).0
      ∙ ap (λ (o : Option Counter). within fallback_limit (suc (get_with t o).count % 2 ^ 64))
          (run-counters s counters id start ts fails fresh times (omega (arith, b)))
      ∙ (elim (Bool-cases (ltb t (start + fallback_ttl_ms))) [
        | inl early ↦ rw early (
            ap (within fallback_limit) {x = suc (suc (length ts)) % 2 ^ 64}
              {y = suc (suc (length ts))} (omega (arith, b)))
        | inr late ↦ rw late refl
      ])
