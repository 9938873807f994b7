-- ===== src/ToolRouter/Embedding.antt =====
-- The embedding of a text over 128 dimensions. The arithmetic of `f32`, the alphabetic characters
-- and the bytes of a text are parameters.
use Prim.Native.String
use Prim.Native.Nat.{bit_xor}
use Prim.Native.Char.{Char}
use red_eye_engine_gateway.Common.{
  ℕ, zero, suc, ◌*◌, ◌%◌, ◌^◌, Bool, List, [], ◌∷◌, map, replicate, lower, String, is_empty,
  if◌then◌else◌,
}

pub record F32 : Type 1 where
  pub Float : Type 0
  pub nought : Float
  pub one : Float
  pub plus : Float → Float → Float
  pub times : Float → Float → Float
  pub divide : Float → Float → Float
  pub sqrt : Float → Float
  pub minus : Float → Float → Float
  pub max : Float
  pub less : Float → Float → Bool
  pub equal : Float → Float → Bool
  pub at_least : Float → Float → Bool

abbrev pub emb_dim : ℕ
emb_dim = 128

abbrev pub fnv_step : ℕ → ℕ → ℕ
fnv_step h b = bit_xor h b * 1099511628211 % 2 ^ 64

abbrev pub fnv_from : ℕ → List ℕ → ℕ
fnv_from h [] = h
fnv_from h (b ∷ bs) = fnv_from (fnv_step h b) bs

unfoldable pub fnv1a : List ℕ → ℕ
fnv1a bytes = fnv_from 14695981039346656037 bytes

-- `text.split(..)` at the characters that are not alphabetic: the pieces, from the one begun.
abbrev pub split_words : (Char → Bool) → String → String → List String
split_words is_alphabetic word String.[] = word ∷ []
split_words is_alphabetic word (String.◌∷◌ c s) =
    let more = split_words is_alphabetic (String.◌++◌ word (String.◌∷◌ c String.[])) s in
    let next = split_words is_alphabetic String.[] s in
    if is_alphabetic c then more else word ∷ next

module _ (f : F32) where
  open f use {Float, nought, plus, times}

  -- `iter().sum()`
  abbrev pub sum_from : Float → List Float → Float
  sum_from acc [] = acc
  sum_from acc (x ∷ xs) = sum_from (plus acc x) xs

  abbrev pub products : List Float → List Float → List Float
  products [] ys = []
  products (x ∷ xs) [] = []
  products (x ∷ xs) (y ∷ ys) = times x y ∷ products xs ys

  unfoldable pub dot : List Float → List Float → Float
  dot a b = sum_from nought (products a b)

module _ (f : F32) (is_alphabetic : Char → Bool) (bytes : String → List ℕ) where
  open f use {Float, nought, one, plus, times, divide, sqrt, less}

  abbrev pub add_one : ℕ → List Float → List Float
  add_one i [] = []
  add_one zero (x ∷ xs) = plus x one ∷ xs
  add_one (suc i) (x ∷ xs) = x ∷ add_one i xs

  abbrev pub add_word : String → List Float → List Float
  add_word word v =
      let token = bytes word in
      if is_empty token then v else add_one (fnv1a (map lower token) % emb_dim) v

  abbrev pub add_words : List String → List Float → List Float
  add_words [] v = v
  add_words (w ∷ ws) v = add_words ws (add_word w v)

  abbrev pub normalise : List Float → List Float
  normalise v =
      let norm = sqrt (sum_from f nought (map (λ x. times x x) v)) in
      if less nought norm then map (λ x. divide x norm) v else v

  unfoldable pub compute_embedding : String → List Float
  unfolding fnv1a
  compute_embedding text =
      normalise (add_words (split_words is_alphabetic "" text) (replicate emb_dim nought))
