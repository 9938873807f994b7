-- ===== src/L1Cache.antt =====
-- redeye_gateway/src/infrastructure/l1_cache.rs: the exact layer and the ring buffer of embeddings.
-- The exact cache, SHA-256, the embedding model and the arithmetic of `f32` are parameters.
pub mod Recent
mod Tests
use Prim.Native.String
use red_eye_engine_gateway.Common.{
  ℕ, Bool, true, false, Option, none, some, List, [], ◌∷◌, ◌++◌, String, leb, length, first,
  if◌then◌else◌, ◌||◌, ◌>>=?◌, Result, ok, err, ok_or, ◌>>=◌,
}
use red_eye_engine_gateway.Errors.{GatewayError, response_build}
use red_eye_engine_gateway.ToolRouter.Embedding.{F32}

-- moka's `Cache<String, String>`, which may forget.
pub record ExactCache : Type 1 where
  pub Store : Type 0
  pub get : Store → String → Option String
  pub insert : Store → String → String → Store

abbrev pub capacity : ℕ
capacity = 5000

-- `pop_front`
abbrev pub pop_front {ℓ} : {A : Type ℓ} → List A → List A
pop_front [] = []
pop_front (x ∷ xs) = xs

abbrev pub push_recent {ℓ} : {A : Type ℓ} → A → List A → List A
push_recent x queue = (if leb capacity (length queue) then pop_front queue else queue) ++ x ∷ []

module _ (f : F32) where
  open f use {Float, nought, one, plus, minus, times, divide, sqrt, less, equal, max}

  pub record Sums : Type 0 where
    pub dot : Float
    pub norm_a : Float
    pub norm_b : Float

  -- The loop over the indices of the first vector; a shorter second vector is a panic.
  abbrev pub accumulate : List Float → List Float → Sums → Option Sums
  accumulate [] ys s = some s
  accumulate (x ∷ xs) [] s = none
  accumulate (x ∷ xs) (y ∷ ys) s = accumulate xs ys (record {
    dot = plus s.dot (times x y);
    norm_a = plus s.norm_a (times x x);
    norm_b = plus s.norm_b (times y y);
  })

  abbrev pub distance_of : Sums → Float
  distance_of s =
      if equal s.norm_a nought || equal s.norm_b nought
      then one
      else minus one (divide s.dot (times (sqrt s.norm_a) (sqrt s.norm_b)))

  unfoldable pub cosine_distance : List Float → List Float → Option Float
  cosine_distance a b =
      accumulate a b (record { dot = nought; norm_a = nought; norm_b = nought }) >>=? λ s.
      some (distance_of s)

  -- The nearest entry so far and its distance.
  abbrev pub nearest :
      List Float
      → List (List Float × String)
      → Float
      → Option String
      → Option (Float × Option String)
  nearest vector [] best_dist best = some (best_dist, best)
  nearest vector ((cached, response) ∷ queue) best_dist best =
      cosine_distance vector cached >>=? λ dist.
      nearest vector queue (if less dist best_dist then dist else best_dist)
        (if less dist best_dist then some response else best)

  module _ (exact : ExactCache) (sha256 : String → String)
      (embed : String → Result String (List (List Float))) (threshold : Float) where
    pub record L1Cache : Type 0 where
      pub exact_cache : exact.Store
      pub semantic_cache : List (List Float × String)

    unfoldable pub get_exact : L1Cache → String → Option String
    get_exact cache prompt = exact.get cache.exact_cache (sha256 prompt)

    -- The outer `none` is a panic.
    abbrev pub search : L1Cache → List Float → Option (Option String)
    search cache vector = nearest vector cache.semantic_cache max none >>=? λ (dist, response).
        some (if less dist threshold then response else none)

    unfoldable pub get_semantic : L1Cache → String → Option (Option String)
    get_semantic cache prompt = elim (embed prompt) [
      | err _ ↦ some none
      | ok embeddings ↦ elim (first embeddings) [
        | none ↦ some none
        | some vector ↦ search cache vector
      ]
    ]

    abbrev pub embedding_of : String → Result GatewayError (List Float)
    embedding_of prompt = elim (embed prompt) [
      | err e ↦ err (response_build (String.◌++◌ "L1 Embed failed: " e))
      | ok embeddings ↦ ok_or (first embeddings) (response_build "L1 Embed returned empty")
    ]

    -- The exact layer is written first, and stays written if the prompt cannot be embedded.
    unfoldable pub insert : L1Cache → String → String → Result GatewayError (Unit {0}) × L1Cache
    insert cache prompt response =
        let written = exact.insert cache.exact_cache (sha256 prompt) response in
        elim (embedding_of prompt) [
          | err e ↦ (err e, record { exact_cache = written; semantic_cache = cache.semantic_cache })
          | ok vector ↦ (
            ok tt,
            record {
              exact_cache = written;
              semantic_cache = push_recent (vector, response) cache.semantic_cache;
            },
          )
        ]
