-- ===== src/Proxy/Usage.antt =====
-- What a response used: the count that a provider reports, in a stream or in a body, and the estimate
-- where it reports none.
use red_eye_engine_gateway.Common.{
  ℕ, ◌+◌, ◌-◌, ◌*◌, ◌%◌, ◌^◌, Bool, not, ◌&&◌, Option, none, some, List, [], ◌∷◌, String, codes,
  is_prefix, contains, leb, ltb, ◌==◌, is_empty, length, unwrap_or, if◌then◌else◌, ◌>>=?◌,
}
use red_eye_engine_gateway.Json.{Value, get, get_index, get_str, as_u64}
use red_eye_engine_gateway.Limit.TokenBucket.{estimate}

abbrev pub is_digit : ℕ → Bool
is_digit c = leb b'0' c && leb c b'9'

-- `find`, and what stands behind the match.
abbrev pub skip : ℕ → List ℕ → List ℕ
skip ℕ.zero s = s
skip (ℕ.suc n) [] = []
skip (ℕ.suc n) (c ∷ s) = skip n s

abbrev pub behind : List ℕ → List ℕ → Option (List ℕ)
behind p [] = if is_prefix p [] then some [] else none
behind p (c ∷ s) =
    let later = behind p s in if is_prefix p (c ∷ s) then some (skip (length p) (c ∷ s)) else later

abbrev pub leading_digits : List ℕ → List ℕ
leading_digits [] = []
leading_digits (c ∷ s) = let rest = leading_digits s in if is_digit c then c ∷ rest else []

abbrev pub decimal_from : ℕ → List ℕ → ℕ
decimal_from n [] = n
decimal_from n (c ∷ s) = decimal_from (n * 10 + (c - b'0')) s

-- `parse::<u32>` on digits: no digits and too large a number are errors.
abbrev pub parse_u32 : List ℕ → Option ℕ
parse_u32 digits =
    if not (is_empty digits) && ltb (decimal_from 0 digits) (2 ^ 32)
    then some (decimal_from 0 digits)
    else none

-- The count that one chunk of a stream reports.
unfoldable pub reported_total : List ℕ → Option ℕ
reported_total text =
    if contains (codes "\"usage\"") text
    then (behind (codes "\"total_tokens\":") text >>=? λ sub. parse_u32 (leading_digits sub))
    else none

abbrev pub bytes_of : List (List ℕ) → ℕ
bytes_of [] = 0
bytes_of (chunk ∷ chunks) = length chunk + bytes_of chunks

-- A chunk that is no UTF-8 of its own reports nothing, and counts its bytes.
module _ (is_utf8 : List ℕ → Bool) where
  abbrev pub totals : List (List ℕ) → ℕ → ℕ
  totals [] total = total
  totals (chunk ∷ chunks) total =
      totals chunks (if is_utf8 chunk then unwrap_or (reported_total chunk) total else total)

  unfoldable pub stream_tokens : ℕ → List (List ℕ) → ℕ
  stream_tokens prompt_len chunks =
      if totals chunks 0 == 0
      then (estimate prompt_len % 2 ^ 32 + estimate (bytes_of chunks) % 2 ^ 32) % 2 ^ 32
      else totals chunks 0

abbrev pub total_of : Value → Option ℕ
total_of document = get "usage" document >>=? get "total_tokens" >>=? as_u64

-- The count of a buffered body of a length, as it parses.
unfoldable pub actual_tokens : ℕ → Option Value → ℕ → ℕ
actual_tokens prompt_len document body_len = elim (document >>=? total_of) [
  | some total ↦ total % 2 ^ 32
  | none ↦ (estimate prompt_len % 2 ^ 32 + estimate body_len % 2 ^ 32) % 2 ^ 32
]

unfoldable pub extract_response_content : Option Value → String
extract_response_content document =
    unwrap_or
      (document >>=? get "choices" >>=? get_index 0 >>=? get "message" >>=? get_str "content") ""
