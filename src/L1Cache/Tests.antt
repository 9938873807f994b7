-- ===== src/L1Cache/Tests.antt =====
-- The cache over numbers in place of floats.
use red_eye_engine_gateway.Common.{
  ℕ, ◌+◌, ◌-◌, ◌*◌, ◌/◌, ◌≤◌, ◌≡◌, refl, none, some, List, [], ◌∷◌, String, length, leb, ltb, ◌==◌,
  Result, ok, err,
}
use red_eye_engine_gateway.ToolRouter.Embedding.{F32}
use red_eye_engine_gateway.L1Cache.{
  ExactCache, capacity, L1Cache, cosine_distance, get_semantic, insert,
}
use red_eye_engine_gateway.L1Cache.Recent.{last, insert_all, embedded, insert_all_bounds}

abbrev numbers : F32
numbers = record {
  Float = ℕ;
  nought = 0;
  one = 100;
  plus = λ a b. a + b;
  times = λ a b. a * b;
  divide = λ a b. a * 100 / b;
  sqrt = λ a. a;
  minus = λ a b. a - b;
  max = 1000;
  less = ltb;
  equal = λ a b. a == b;
  at_least = λ a b. leb b a;
}

abbrev forgetful : ExactCache
forgetful = record { Store = ℕ; get = λ s k. none; insert = λ s k v. s + 1 }

abbrev same : String → String
same text = text

abbrev embed : String → Result String (List (List ℕ))
embed String.[] = err "empty"
embed (String.◌∷◌ c s) = ok ((1 ∷ []) ∷ [])

abbrev fresh : L1Cache numbers forgetful same embed 10
fresh = record { exact_cache = 0; semantic_cache = [] }

abbrev entries : List (String × String)
entries = ("a", "one") ∷ ("", "lost") ∷ ("b", "two") ∷ []

insert_all_bounds_example :
    ((insert_all numbers forgetful same embed 10 fresh entries).semantic_cache
      ≡ last capacity (embedded numbers forgetful same embed 10 entries))
    × (length (insert_all numbers forgetful same embed 10 fresh entries).semantic_cache ≤ capacity)
insert_all_bounds_example = insert_all_bounds numbers forgetful same embed 10 fresh entries refl

get_semantic_hits :
    get_semantic numbers forgetful same embed 10
      (insert_all numbers forgetful same embed 10 fresh entries)
      "c"
    ≡ some (some "one")
unfolding get_semantic cosine_distance insert
get_semantic_hits = refl
