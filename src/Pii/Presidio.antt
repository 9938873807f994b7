-- ===== src/Pii/Presidio.antt =====
-- The analyzer of pii_engine.rs: one regular expression per kind of entity. The matches of an
-- expression in a text are a parameter, `Regex::find_iter`.
use red_eye_engine_gateway.Common.{ℕ, List, [], ◌∷◌, ◌++◌, map, String, Result, ok}
use red_eye_engine_gateway.Pii.Failures.{AppError}
use red_eye_engine_gateway.Pii.Engine.{PresidioEntity}

-- The bits of 0.95
abbrev pub confidence : ℕ
confidence = 4606732058837280358

abbrev pub patterns : List (String × String)
patterns =
    ("\\b\\d{3}-\\d{2}-\\d{4}\\b", "SSN")
    ∷ ("\\b(?:\\d[ -]*?){13,16}\\b", "CREDIT_CARD")
    ∷ ("\\b[A-Za-z0-9._%+-]+@[A-Za-z0-9.-]+\\.[A-Za-z]{2,7}\\b", "EMAIL")
    ∷ ("\\b\\d{4}[ -]?\\d{4}[ -]?\\d{4}\\b", "AADHAAR")
    ∷ ("\\b[A-Z]{5}\\d{4}[A-Z]\\b", "PAN")
    ∷ ("\\b[A-Z]{4}0[A-Z0-9]{6}\\b", "IFSC")
    ∷ ("\\b\\d{9,18}\\b", "BANK_ACCOUNT")
    ∷ []

module _ (matches : String → String → List (ℕ × ℕ)) where
  abbrev pub collect_matches : String → String → String → List PresidioEntity → List PresidioEntity
  collect_matches re text entity_type out =
      out
      ++ map
          (λ (start, finish). record {
            entity_type = entity_type;
            start = start;
            finish = finish;
            score = confidence;
          })
          (matches re text)

  abbrev pub collect_all :
      List (String × String) → String → List PresidioEntity → List PresidioEntity
  collect_all [] text out = out
  collect_all ((re, entity_type) ∷ ps) text out =
      collect_all ps text (collect_matches re text entity_type out)

  unfoldable pub analyze : String → Result AppError (List PresidioEntity)
  analyze text = ok (collect_all patterns text [])
