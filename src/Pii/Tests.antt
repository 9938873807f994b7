-- ===== src/Pii/Tests.antt =====
-- Runs of the PII engine on small payloads.
use Prim.Native.String.{count}
use red_eye_engine_gateway.Common.{
  ℕ, zero, suc, ◌%◌, ◌^◌, ◌≡◌, ◌≢◌, ◌<◌, refl, sym, eq_iff, false, some, List, [], ◌∷◌, inl, codes,
  String, length, ◌>>=?◌, ok, err, arith,
}
use red_eye_engine_gateway.Json.{Value, null, str, obj, arr, end, field, nil, cons}
use red_eye_engine_gateway.Pii.Failures.{pii_engine_failure}
use red_eye_engine_gateway.Pii.Replace.{apply_token_replacements}
use red_eye_engine_gateway.Pii.Texts.{contains_digit_sequence, extract_all_text}
use red_eye_engine_gateway.Pii.Engine.{
  PresidioEntity, untouched, scan, redact_payload, redact_entities,
}
use red_eye_engine_gateway.Pii.Presidio.{confidence}
use red_eye_engine_gateway.Pii.Digits.{has_run, bare, contains_digit_sequence_lem}
use red_eye_engine_gateway.Pii.Lossless.{apply_token_replacements_back}
use red_eye_engine_gateway.Pii.Tokens.{AreDistinct, entries, redact_entities_lem}
use red_eye_engine_gateway.Pii.Scan.{Answers, scan-IsConsistent}
use red_eye_engine_gateway.Pii.Closing.{redact_payload_fails_closed}

abbrev uuid : ℕ → String
uuid zero = "0a"
uuid (suc n) = "1b"

uuids_apart : ◌≢◌ {A = String} "0a" "1b"
uuids_apart = ground (arith, eq_iff "0a" "1b")

uuid_distinct : (i j : ℕ) → i < 2 → j < 2 → uuid i ≡ uuid j → i ≡ j
uuid_distinct zero zero li lj h = refl
uuid_distinct zero (suc j) li lj h = absurd (uuids_apart h)
uuid_distinct (suc i) zero li lj h = absurd (uuids_apart (sym h))
uuid_distinct (suc i) (suc j) li lj h = omega arith

uuid_even : (i j : ℕ) → count (uuid i) ≡ count (uuid j)
uuid_even zero zero = refl
uuid_even zero (suc j) = refl
uuid_even (suc i) zero = refl
uuid_even (suc i) (suc j) = refl

uuid-AreDistinct : AreDistinct 2 uuid
uuid-AreDistinct = record { distinct = uuid_distinct; even = uuid_even }

abbrev note : Value
note = obj (field "model" (str "m1") (field "prompt" (str "my ssn 123-45-6789 ok") end))

abbrev ssn : PresidioEntity
ssn = record { entity_type = "SSN"; start = 10; finish = 21; score = confidence }

-- The identifiers of a number across two texts, which the joined text puts in one.
abbrev halves : Value
halves = arr (cons (str "123") (cons (str "456789") nil))

abbrev across : PresidioEntity
across = record { entity_type = "SSN"; start = 0; finish = 10; score = confidence }

abbrev finds : List String → String → List ℕ
finds keywords text = 10 ∷ []

abbrev same : List (String × String) → List (String × String)
same m = m

scan-note :
    scan uuid finds (λ t. ok (ssn ∷ [])) same note
    ≡ some (
        ok (record {
          sanitized_payload =
              obj
                (field "model" (str "m1") (field "prompt" (str "my ssn <SSN_REDACTED>_0a ok") end));
          token_map = ("<SSN_REDACTED>_0a", "123-45-6789") ∷ [];
          redacted_count = 1;
          indian_pii_detected = false;
        }))
unfolding scan redact_entities
scan-note = refl

-- An entity across two texts is counted and stays in the document.
scan-across :
    scan uuid (λ ks t. []) (λ t. ok (across ∷ [])) same halves
    ≡ some (
        ok (record {
          sanitized_payload = halves;
          token_map = ("<SSN_REDACTED>_0a", "123 456789") ∷ [];
          redacted_count = 1;
          indian_pii_detected = false;
        }))
unfolding scan redact_entities
scan-across = refl

contains_digit_sequence_lem_example :
    contains_digit_sequence (codes "id 12 34-5") 5 ≡ has_run 5 (bare (codes "id 12 34-5"))
contains_digit_sequence_lem_example =
    contains_digit_sequence_lem (codes "id 12 34-5") 5 (omega arith)

apply_token_replacements_back_example :
    apply_token_replacements
      (("<T>", "789") ∷ [])
      (apply_token_replacements (("789", "<T>") ∷ []) note)
    ≡ note
apply_token_replacements_back_example = apply_token_replacements_back "<" "T>" "789" note refl

redact_entities_lem_example :
    redact_entities uuid "my ssn 123-45-6789 ok" (ssn ∷ across ∷ []) [] 0 0 ≡ (
      entries uuid "my ssn 123-45-6789 ok" (ssn ∷ across ∷ []) 0 >>=? λ m.
      some (m, length m % 2 ^ 32))
redact_entities_lem_example =
    redact_entities_lem uuid 2 uuid-AreDistinct "my ssn 123-45-6789 ok" (ssn ∷ across ∷ [])
      (omega arith)

scan-IsConsistent_example : Answers note (scan uuid finds (λ t. ok (ssn ∷ [])) same note)
scan-IsConsistent_example =
    scan-IsConsistent 2 uuid uuid-AreDistinct finds (λ t. ok (ssn ∷ [])) same refl note
      (omega arith)

redact_payload_fails_closed_example :
    redact_payload uuid finds (λ t. err (pii_engine_failure "down")) same note
    ≡ some (untouched null false)
unfolding extract_all_text
redact_payload_fails_closed_example =
    redact_payload_fails_closed uuid finds (λ t. err (pii_engine_failure "down")) same note
      (pii_engine_failure "down") refl (inl refl) refl
