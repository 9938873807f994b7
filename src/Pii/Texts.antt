-- ===== src/Pii/Texts.antt =====
-- What the PII scan reads of a payload: its texts in one, and the test for runs of digits.
use Prim.Native.String
use red_eye_engine_gateway.Common.{
  ℕ, ◌+◌, Bool, true, false, ◌&&◌, ◌||◌, List, [], ◌∷◌, String, if◌then◌else◌, leb, ◌==◌,
}
use red_eye_engine_gateway.Json.{
  Value, Fields, Items, null, bool, num, str, obj, arr, end, field, nil, cons,
}

abbrev mutual
  pub collect_text : Value → String → String
  collect_text null buf = buf
  collect_text (bool _) buf = buf
  collect_text (num _) buf = buf
  collect_text (str s) buf = String.◌++◌ (String.◌++◌ buf s) " "
  collect_text (obj fs) buf = collect_fields fs buf
  collect_text (arr vs) buf = collect_items vs buf

  pub collect_fields : Fields → String → String
  collect_fields end buf = buf
  collect_fields (field _ v fs) buf = collect_fields fs (collect_text v buf)

  pub collect_items : Items → String → String
  collect_items nil buf = buf
  collect_items (cons v vs) buf = collect_items vs (collect_text v buf)

unfoldable pub extract_all_text : Value → String
extract_all_text v = collect_text v ""

abbrev pub is_digit : ℕ → Bool
is_digit c = leb b'0' c && leb c b'9'

abbrev pub is_separator : ℕ → Bool
is_separator c = (c == b' ') || (c == b'-')

-- The loop over the characters, from the number of digits seen.
abbrev pub count_digits : ℕ → ℕ → List ℕ → Bool
count_digits min_len count [] = false
count_digits min_len count (c ∷ s) =
    let found = count_digits min_len (count + 1) s in
    let passed = count_digits min_len count s in
    let restarted = count_digits min_len 0 s in
    if is_digit c
    then (if leb min_len (count + 1) then true else found)
    else if is_separator c
    then passed
    else restarted

unfoldable pub contains_digit_sequence : List ℕ → ℕ → Bool
contains_digit_sequence text min_len = count_digits min_len 0 text
