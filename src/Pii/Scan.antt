-- ===== src/Pii/Scan.antt =====
-- The scan as a whole: what a result always says of the payload.
use red_eye_engine_gateway.Common.{
  ℕ, ◌%◌, ◌^◌, ◌≡◌, refl, ap, ◌∙◌, Bool, false, not, ◌&&◌, Option, none, some, List, [], map, codes,
  String, str_eq, if◌then◌else◌, ◌>>=?◌, is_empty, any, length, Result, ok, err, inl, inr, if-both,
  Result-cases, OnOk, OnOk-of, ◌≤◌, arith,
}
use red_eye_engine_gateway.Json.{Value}
use red_eye_engine_gateway.Pii.Failures.{AppError}
use red_eye_engine_gateway.Pii.Replace.{apply_token_replacements}
use red_eye_engine_gateway.Pii.Texts.{extract_all_text, contains_digit_sequence}
use red_eye_engine_gateway.Pii.Engine.{
  PresidioEntity, RedactionResult, untouched, keywords, categories_of, redact, deep_scan, scan,
  is_indian, swap,
}
use red_eye_engine_gateway.Pii.Shape.{
  skeleton, skeleton-apply_token_replacements, apply_token_replacements-nothing,
}
use red_eye_engine_gateway.Pii.Tokens.{AreDistinct, entries, redact_entities_lem}

-- What a result says of the payload that it is for.
pub record IsConsistent (payload : Value) (r : RedactionResult) : Type 0 where
  pub same_shape : skeleton r.sanitized_payload ≡ skeleton payload
  pub counted : r.redacted_count ≡ length r.token_map % 2 ^ 32
  pub kept : r.token_map ≡ [] → r.sanitized_payload ≡ payload

-- A scan that ends in a result ends in such a one.
abbrev pub Answers : Value → Option (Result AppError RedactionResult) → Type 0
Answers payload none = Unit {0}
Answers payload (some (err e)) = Unit {0}
Answers payload (some (ok r)) = IsConsistent payload r

untouched-IsConsistent : (payload : Value) (b : Bool) → IsConsistent payload (untouched payload b)
untouched-IsConsistent payload b = record {
  same_shape = refl;
  counted = omega arith;
  kept = λ _. refl;
}

module _ (limit : ℕ) (uuid : ℕ → String) (u : AreDistinct limit uuid)
    (find_iter : List String → String → List ℕ)
    (analyze : String → Result AppError (List PresidioEntity))
    (iterate : List (String × String) → List (String × String)) where
  abbrev is_bypassed : String → Bool
  is_bypassed text =
      is_empty (categories_of (find_iter keywords text))
      && not (contains_digit_sequence (codes text) 9)

  redacted : (payload : Value) (indian : Bool) → List (String × String) × ℕ → RedactionResult
  redacted payload indian (m, count) = record {
    sanitized_payload = apply_token_replacements (map swap (iterate m)) payload;
    token_map = m;
    redacted_count = count;
    indian_pii_detected = indian;
  }

  redacted-IsConsistent :
      iterate [] ≡ []
      → (payload : Value) (indian : Bool) (o : Option (List (String × String)))
      → Answers payload (
          o >>=? (λ m. some (m, length m % 2 ^ 32)) >>=? λ r. some (ok (redacted payload indian r)))
  unfolding redacted
  redacted-IsConsistent h payload indian none = tt
  redacted-IsConsistent h payload indian (some m) = record {
    same_shape = skeleton-apply_token_replacements (map swap (iterate m)) payload;
    counted = refl;
    kept = λ e.
        ap (λ x. apply_token_replacements (map swap (iterate x)) payload) e
        ∙ ap (λ x. apply_token_replacements (map swap x) payload) h
        ∙ apply_token_replacements-nothing payload;
  }

  redact-IsConsistent :
      iterate [] ≡ []
      → (payload : Value) (text : String) (indian : Bool) (es : List PresidioEntity)
      → length es ≤ limit
      → Answers payload (redact uuid find_iter analyze iterate payload text indian es)
  unfolding redacted
  redact-IsConsistent h payload text indian es few =
      rw (redact_entities_lem uuid limit u text es few)
        (redacted-IsConsistent h payload _ (entries uuid text es 0))

  deep_scan-err :
      (payload : Value) (text : String) (indian : Bool) (e : AppError)
      → analyze text ≡ err e
      → deep_scan uuid find_iter analyze iterate payload text indian ≡ some (err e)
  deep_scan-err payload text indian e h = rw (h, deep_scan) refl

  deep_scan-ok :
      (payload : Value) (text : String) (indian : Bool) (es : List PresidioEntity)
      → analyze text ≡ ok es
      → deep_scan uuid find_iter analyze iterate payload text indian ≡ (
          if is_empty es
          then some (ok (untouched payload indian))
          else redact uuid find_iter analyze iterate payload text indian es)
  deep_scan-ok payload text indian es h = rw (h, deep_scan) refl

  deep_scan-IsConsistent :
      iterate [] ≡ []
      → (payload : Value) (text : String) (indian : Bool)
      → OnOk (λ es. length es ≤ limit) (analyze text)
      → Answers payload (deep_scan uuid find_iter analyze iterate payload text indian)
  deep_scan-IsConsistent h payload text indian few = elim (Result-cases (analyze text)) [
    | inr (e, failed) ↦ rw (deep_scan-err payload text indian e failed) tt
    | inl (es, found) ↦ rw (deep_scan-ok payload text indian es found) (
        if-both (Answers payload) (is_empty es) _ _ (untouched-IsConsistent payload indian) (
          redact-IsConsistent h payload text indian es
            (OnOk-of (λ es. length es ≤ limit) few found)))
  ]

  -- With as many distinct identifiers as the analyzer reports entities, and an iteration over
  -- nothing that gives nothing: the document of
  -- every result has the shape of the payload, the counter is the size of the token map modulo
  -- 2^32, and the document is the payload itself if the token map is empty.
  pub scan-IsConsistent :
      iterate [] ≡ []
      → (payload : Value) → OnOk (λ es. length es ≤ limit) (analyze (extract_all_text payload))
      → Answers payload (scan uuid find_iter analyze iterate payload)
  unfolding scan
  scan-IsConsistent h payload few =
      let text = extract_all_text payload in
      let plain : Option (Result AppError RedactionResult) = some (ok (untouched payload false)) in
      let deep =
        deep_scan uuid find_iter analyze iterate payload text
          (any is_indian (categories_of (find_iter keywords text))) in
      if-both (Answers payload) (str_eq text "") plain (if is_bypassed text then plain else deep)
        (untouched-IsConsistent payload false)
        (if-both (Answers payload) (is_bypassed text) plain deep
          (untouched-IsConsistent payload false) (deep_scan-IsConsistent h payload text _ few))
