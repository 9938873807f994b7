-- ===== src/Pii/Closing.antt =====
-- What is left of a payload whose analysis fails.
use red_eye_engine_gateway.Common.{
  ℕ, ◌≡◌, refl, Bool, true, false, not, ◌&&◌, some, List, codes, String, str_eq, is_empty, any,
  Result, err, inl, inr, ◌⊎◌, arith,
}
use red_eye_engine_gateway.Json.{Value, null}
use red_eye_engine_gateway.Pii.Failures.{AppError}
use red_eye_engine_gateway.Pii.Texts.{extract_all_text, contains_digit_sequence}
use red_eye_engine_gateway.Pii.Engine.{
  PresidioEntity, untouched, keywords, categories_of, deep_scan, scan, redact_payload, is_indian,
}
use red_eye_engine_gateway.Pii.Digits.{has_run, bare, contains_digit_sequence_lem}

&&-false : (a : Bool) → (a && false) ≡ false
&&-false true = refl
&&-false false = refl

module _ (uuid : ℕ → String) (find_iter : List String → String → List ℕ)
    (analyze : String → Result AppError (List PresidioEntity))
    (iterate : List (String × String) → List (String × String)) where
  abbrev is_bypassed : String → Bool
  is_bypassed text =
      is_empty (categories_of (find_iter keywords text))
      && not (contains_digit_sequence (codes text) 9)

  deep_scan-err :
      (payload : Value) (text : String) (indian : Bool) (e : AppError)
      → analyze text ≡ err e
      → deep_scan uuid find_iter analyze iterate payload text indian ≡ some (err e)
  deep_scan-err payload text indian e h = rw (h, deep_scan) refl

  flagged-is_bypassed :
      (text : String)
      → (is_empty (categories_of (find_iter keywords text)) ≡ false)
        ⊎ (has_run 9 (bare (codes text)) ≡ true)
      → is_bypassed text ≡ false
  flagged-is_bypassed text (inl hit) = rw hit refl
  flagged-is_bypassed text (inr run) =
      rw (contains_digit_sequence_lem (codes text) 9 (omega arith), run)
        (&&-false (is_empty (categories_of (find_iter keywords text))))

  scan-escalated :
      (payload : Value)
      → str_eq (extract_all_text payload) "" ≡ false
      → is_bypassed (extract_all_text payload) ≡ false
      → scan uuid find_iter analyze iterate payload
        ≡ deep_scan uuid find_iter analyze iterate payload
            (extract_all_text payload)
            (any is_indian (categories_of (find_iter keywords (extract_all_text payload))))
  unfolding scan
  scan-escalated payload some_text flagged = rw (some_text, flagged) refl

  -- Whenever the text of a payload is escalated and the analyzer fails on it, the caller of
  -- `redact_payload` gets the null document, never the payload. A text is escalated if the
  -- automaton reports a keyword or nine digits stand in a row in it, spaces and dashes apart.
  pub redact_payload_fails_closed :
      (payload : Value) (e : AppError)
      → str_eq (extract_all_text payload) "" ≡ false
      → (is_empty (categories_of (find_iter keywords (extract_all_text payload))) ≡ false)
        ⊎ (has_run 9 (bare (codes (extract_all_text payload))) ≡ true)
      → analyze (extract_all_text payload) ≡ err e
      → redact_payload uuid find_iter analyze iterate payload ≡ some (untouched null false)
  unfolding redact_payload
  redact_payload_fails_closed payload e some_text flagged failed =
      rw
        (
          scan-escalated payload some_text (flagged-is_bypassed (extract_all_text payload) flagged),
          deep_scan-err payload (extract_all_text payload) _ e failed,
        )
        refl
