-- ===== src/L1Cache/Recent.antt =====
-- What the ring buffer holds after any run of insertions.
use red_eye_engine_gateway.Common.{
  ℕ, zero, suc, ◌-◌, ◌≤◌, ◌≡◌, refl, sym, ap, ◌∙◌, List, [], ◌∷◌, ◌++◌, String, leb, length,
  length-append, Result, ok, err, arith, Bool-cases, Result-cases, inl, inr, leb→le, leb→lt,
}
use mathlib.Core.List.{append_assoc, append-nil}
use red_eye_engine_gateway.Errors.{GatewayError}
use red_eye_engine_gateway.ToolRouter.Embedding.{F32}
use red_eye_engine_gateway.L1Cache.{
  ExactCache, capacity, pop_front, push_recent, L1Cache, embedding_of, insert,
}

module _ {ℓ} {A : Type ℓ} where
  abbrev pub drop : ℕ → List A → List A
  drop zero xs = xs
  drop (suc n) [] = []
  drop (suc n) (x ∷ xs) = drop n xs

  -- The last so many elements, or all.
  abbrev pub last : ℕ → List A → List A
  last n xs = drop (length xs - n) xs

  length-drop : (n : ℕ) (xs : List A) → length (drop n xs) ≡ length xs - n
  length-drop zero xs = omega arith
  length-drop (suc n) [] = omega arith
  length-drop (suc n) (x ∷ xs) = omega (arith, length-drop n xs)

  drop-append :
      (n : ℕ) (xs : List A) (y : A) → n ≤ length xs → drop n (xs ++ y ∷ []) ≡ drop n xs ++ y ∷ []
  drop-append zero xs y h = refl
  drop-append (suc n) [] y h = absurd (omega arith)
  drop-append (suc n) (x ∷ xs) y h = drop-append n xs y (omega arith)

  drop-suc : (n : ℕ) (xs : List A) → drop (suc n) xs ≡ pop_front (drop n xs)
  drop-suc zero [] = refl
  drop-suc zero (x ∷ xs) = refl
  drop-suc (suc n) [] = refl
  drop-suc (suc n) (x ∷ xs) = drop-suc n xs

  push_recent-last :
      (xs : List A) (y : A) → push_recent y (last capacity xs) ≡ last capacity (xs ++ y ∷ [])
  push_recent-last xs y = elim (Bool-cases (leb capacity (length (last capacity xs)))) [
    | inl full ↦
        let k = length xs - capacity in
        let size = length-drop k xs in
        let some_kept = leb→le capacity (length (last capacity xs)) full in
        let more : length (xs ++ y ∷ []) - capacity ≡ suc k =
          omega (arith, length-append xs (y ∷ [])) in
        rw (full, push_recent, more)
          (ap (λ q. q ++ y ∷ []) (sym (drop-suc k xs))
            ∙ sym (drop-append (suc k) xs y (omega arith)))
    | inr room ↦
        let k = length xs - capacity in
        let size = length-drop k xs in
        let few = leb→lt (length (last capacity xs)) capacity room in
        let none_lost : k ≡ 0 = omega arith in
        let same : length (xs ++ y ∷ []) - capacity ≡ 0 =
          omega (arith, length-append xs (y ∷ [])) in
        rw (room, push_recent, same) (ap (λ n. drop n xs ++ y ∷ []) none_lost)
  ]

module _ (f : F32) (exact : ExactCache) (sha256 : String → String)
    (embed : String → Result String (List (List f.Float))) (threshold : f.Float) where
  abbrev pub Cache : Type 0
  Cache = L1Cache f exact sha256 embed threshold

  abbrev pub insert_all : Cache → List (String × String) → Cache
  insert_all cache [] = cache
  insert_all cache ((prompt, response) ∷ more) =
      insert_all (insert f exact sha256 embed threshold cache prompt response).1 more

  -- The answers whose prompts can be embedded, with the embeddings.
  abbrev pub embedded : List (String × String) → List (List f.Float × String)
  embedded [] = []
  embedded ((prompt, response) ∷ more) =
      let rest = embedded more in
      elim (embedding_of f exact sha256 embed threshold prompt) [
        | err e ↦ rest
        | ok vector ↦ (vector, response) ∷ rest
      ]

  insert-err :
      (cache : Cache) (prompt response : String) (e : GatewayError)
      → embedding_of f exact sha256 embed threshold prompt ≡ err e
      → (insert f exact sha256 embed threshold cache prompt response).1.semantic_cache
        ≡ cache.semantic_cache
  unfolding insert
  insert-err cache prompt response e h = rw (h, insert) refl

  insert-ok :
      (cache : Cache) (prompt response : String) (vector : List f.Float)
      → embedding_of f exact sha256 embed threshold prompt ≡ ok vector
      → (insert f exact sha256 embed threshold cache prompt response).1.semantic_cache
        ≡ push_recent (vector, response) cache.semantic_cache
  unfolding insert
  insert-ok cache prompt response vector h = rw (h, insert) refl

  embedded-err :
      (prompt response : String) (more : List (String × String)) (e : GatewayError)
      → embedding_of f exact sha256 embed threshold prompt ≡ err e
      → embedded ((prompt, response) ∷ more) ≡ embedded more
  embedded-err prompt response more e h = rw (h, embedded) refl

  embedded-ok :
      (prompt response : String) (more : List (String × String)) (vector : List f.Float)
      → embedding_of f exact sha256 embed threshold prompt ≡ ok vector
      → embedded ((prompt, response) ∷ more) ≡ (vector, response) ∷ embedded more
  embedded-ok prompt response more vector h = rw (h, embedded) refl

  insert_all-last :
      (cache : Cache) (before : List (List f.Float × String)) (entries : List (String × String))
      → cache.semantic_cache ≡ last capacity before
      → (insert_all cache entries).semantic_cache ≡ last capacity (before ++ embedded entries)
  insert_all-last cache before [] h = h ∙ ap (last capacity) (sym (append-nil before))
  insert_all-last cache before ((prompt, response) ∷ more) h =
      elim (Result-cases (embedding_of f exact sha256 embed threshold prompt)) [
        | inr (e, failed) ↦ rw (embedded-err prompt response more e failed) (
            insert_all-last (insert f exact sha256 embed threshold cache prompt response).1 before
              more (insert-err cache prompt response e failed ∙ h))
        | inl (vector, done) ↦
            let x : List f.Float × String = (vector, response) in
            rw (embedded-ok prompt response more vector done) (
              insert_all-last (insert f exact sha256 embed threshold cache prompt response).1
                (before ++ x ∷ []) more
                (insert-ok cache prompt response vector done
                  ∙ ap (push_recent x) h
                  ∙ push_recent-last before x)
              ∙ ap (last capacity) (append_assoc before (x ∷ []) (embedded more)))
      ]

  -- After any insertions into a cache with an empty buffer, the buffer holds the last 5000 of the
  -- answers whose prompts can be embedded, in order, and no more.
  pub insert_all_bounds :
      (cache : Cache) (entries : List (String × String))
      → cache.semantic_cache ≡ []
      → ((insert_all cache entries).semantic_cache ≡ last capacity (embedded entries))
        × (length (insert_all cache entries).semantic_cache ≤ capacity)
  insert_all_bounds cache entries h =
      let eq = insert_all-last cache [] entries h in
      (
        eq,
        rw eq
            (omega (arith, length-drop (length (embedded entries) - capacity) (embedded entries))),
      )
