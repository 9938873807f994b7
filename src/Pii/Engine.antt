-- ===== src/Pii/Engine.antt =====
-- The engine of pii_engine.rs: its tables, and the scan with its two tiers. A text position counts
-- bytes, as in Rust.
use Prim.Native.String
use Prim.Native.String.{len}
use text.Mathlib.Text.{get?}
use red_eye_engine_gateway.Common.{
  ℕ, zero, suc, ◌+◌, ◌%◌, ◌^◌, Bool, true, false, not, ◌&&◌, ◌||◌, Option, none, some, List, [],
  ◌∷◌, map, String, str_eq, if◌then◌else◌, codes, ◌>>=?◌, ltb, leb, any, is_empty, Result, ok, err,
}
use red_eye_engine_gateway.Json.{Value, null}
use red_eye_engine_gateway.Pii.Failures.{AppError}
use red_eye_engine_gateway.Pii.Replace.{apply_token_replacements}
use red_eye_engine_gateway.Pii.Texts.{extract_all_text, contains_digit_sequence}

-- The score's bits.
pub record PresidioEntity : Type 0 where
  pub entity_type : String
  pub start : ℕ
  pub finish : ℕ
  pub score : ℕ

pub record RedactionResult : Type 0 where
  pub sanitized_payload : Value
  pub token_map : List (String × String)
  pub redacted_count : ℕ
  pub indian_pii_detected : Bool

pub data PiiCategory : Type 0 where
  indian_id financial us_id contact : PiiCategory

abbrev pub keywords : List String
keywords =
    "aadhaar" ∷ "aadhar" ∷ "pan card" ∷ "pan number" ∷ "ifsc" ∷ "credit card" ∷ "debit card"
    ∷ "card number" ∷ "bank account" ∷ "account number" ∷ "ssn" ∷ "social security" ∷ "@" ∷ []

abbrev pub categories : List PiiCategory
categories =
    indian_id ∷ indian_id ∷ indian_id ∷ indian_id ∷ indian_id ∷ financial ∷ financial ∷ financial
    ∷ financial ∷ financial ∷ us_id ∷ us_id ∷ contact ∷ []

abbrev pub nth_category : ℕ → List PiiCategory → Option PiiCategory
nth_category i [] = none
nth_category zero (c ∷ cs) = some c
nth_category (suc i) (c ∷ cs) = nth_category i cs

abbrev pub is_indian : PiiCategory → Bool
is_indian indian_id = true
is_indian _ = false

abbrev pub untouched : Value → Bool → RedactionResult
untouched payload indian = record {
  sanitized_payload = payload;
  token_map = [];
  redacted_count = 0;
  indian_pii_detected = indian;
}

-- `HashMap::insert`
abbrev pub insert_token : String → String → List (String × String) → List (String × String)
insert_token token original [] = (token, original) ∷ []
insert_token token original ((k, v) ∷ m) =
    if str_eq k token then (k, original) ∷ m else (k, v) ∷ insert_token token original m

abbrev pub swap : String × String → String × String
swap (token, original) = (original, token)

abbrev pub confirms_indian : PresidioEntity → Bool
confirms_indian e =
    str_eq e.entity_type "AADHAAR" || (str_eq e.entity_type "PAN" || str_eq e.entity_type "IFSC")

abbrev pub in_bounds : String → PresidioEntity → Bool
in_bounds text e = ltb e.start (len text) && leb e.finish (len text)

abbrev pub categories_of : List ℕ → List PiiCategory
categories_of [] = []
categories_of (i ∷ is) = elim (nth_category i categories) [
  | some c ↦ c ∷ categories_of is
  | none ↦ categories_of is
]

-- `Uuid::new_v4`, as the text of the n-th one drawn.
module _ (uuid : ℕ → String) where
  abbrev pub token_of : PresidioEntity → ℕ → String
  token_of e drawn =
      String.◌++◌ "<" (String.◌++◌ e.entity_type (String.◌++◌ "_REDACTED>_" (uuid drawn)))

  -- The loop over the entities: the map, the counter (a `u32`) and the number of draws. There is
  -- no result where slicing the text panics.
  unfoldable pub redact_entities :
      String
      → List PresidioEntity
      → List (String × String)
      → ℕ
      → ℕ
      → Option (List (String × String) × ℕ)
  redact_entities text [] m count drawn = some (m, count)
  redact_entities text (e ∷ es) m count drawn = elim (in_bounds text e) [
    | false ↦ redact_entities text es m count drawn
    | true ↦ elim (get? text e.start e.finish) [
      | none ↦ none
      | some original ↦
          redact_entities text es (insert_token (token_of e drawn) original m)
            ((count + 1) % 2 ^ 32) (suc drawn)
    ]
  ]

  -- The Aho-Corasick automaton answers the indices of the keywords that it finds; `analyze` is
  -- the injected analyzer; `iterate` puts the entries of a HashMap in its order.
  module _ (find_iter : List String → String → List ℕ)
      (analyze : String → Result AppError (List PresidioEntity))
      (iterate : List (String × String) → List (String × String)) where
    abbrev pub redact :
        Value → String → Bool → List PresidioEntity → Option (Result AppError RedactionResult)
    redact payload text indian es = redact_entities text es [] 0 0 >>=? λ (m, count). some (
        ok (record {
          sanitized_payload = apply_token_replacements (map swap (iterate m)) payload;
          token_map = m;
          redacted_count = count;
          indian_pii_detected = indian || any confirms_indian es;
        }))

    abbrev pub deep_scan : Value → String → Bool → Option (Result AppError RedactionResult)
    deep_scan payload text indian = elim (analyze text) [
      | err e ↦ some (err e)
      | ok es ↦
          if is_empty es
          then some (ok (untouched payload indian))
          else redact payload text indian es
    ]

    unfoldable pub scan : Value → Option (Result AppError RedactionResult)
    unfolding extract_all_text contains_digit_sequence
    scan payload =
        let text = extract_all_text payload in
        let hits = categories_of (find_iter keywords text) in
        if str_eq text ""
        then some (ok (untouched payload false))
        else if is_empty hits && not (contains_digit_sequence (codes text) 9)
        then some (ok (untouched payload false))
        else deep_scan payload text (any is_indian hits)

    unfoldable pub redact_payload : Value → Option RedactionResult
    unfolding scan
    redact_payload payload = scan payload >>=? λ r. elim r [
      | ok result ↦ some result
      | err e ↦ some (untouched null false)
    ]
