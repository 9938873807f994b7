-- ===== src/Pii/Replace.antt =====
-- `apply_token_replacements` of pii_engine.rs over a JSON document, with `str::contains` and
-- `str::replacen` with one replacement on texts as characters.
use Prim.Native.String
use Prim.Native.Char.{code}
use red_eye_engine_gateway.Common.{
  Bool, true, false, Option, none, some, String, List, [], ◌∷◌, if◌then◌else◌, ◌==◌, is_some, ◌||◌,
}
use red_eye_engine_gateway.Json.{
  Value, Fields, Items, null, bool, num, str, obj, arr, end, field, nil, cons,
}

-- What is left of a text behind a first part, if it begins with it.
abbrev pub strip_prefix : String → String → Option String
strip_prefix String.[] s = some s
strip_prefix (String.◌∷◌ p ps) String.[] = none
strip_prefix (String.◌∷◌ p ps) (String.◌∷◌ c s) = elim (code p == code c) [
  | true ↦ strip_prefix ps s
  | false ↦ none
]

abbrev pub occurs : String → String → Bool
occurs p String.[] = is_some (strip_prefix p String.[])
occurs p (String.◌∷◌ c s) = is_some (strip_prefix p (String.◌∷◌ c s)) || occurs p s

abbrev pub replace_first : String → String → String → String
replace_first p t String.[] = elim (strip_prefix p String.[]) [
  | some rest ↦ String.◌++◌ t rest
  | none ↦ String.[]
]
replace_first p t (String.◌∷◌ c s) = elim (strip_prefix p (String.◌∷◌ c s)) [
  | some rest ↦ String.◌++◌ t rest
  | none ↦ String.◌∷◌ c (replace_first p t s)
]

abbrev pub replace_in : List (String × String) → String → String
replace_in [] text = text
replace_in ((original, token) ∷ rs) text =
    replace_in rs (if occurs original text then replace_first original token text else text)

abbrev mutual
  pub apply_token_replacements : List (String × String) → Value → Value
  apply_token_replacements rs null = null
  apply_token_replacements rs (bool b) = bool b
  apply_token_replacements rs (num n) = num n
  apply_token_replacements rs (str s) = str (replace_in rs s)
  apply_token_replacements rs (obj fs) = obj (apply_to_fields rs fs)
  apply_token_replacements rs (arr vs) = arr (apply_to_items rs vs)

  pub apply_to_fields : List (String × String) → Fields → Fields
  apply_to_fields rs end = end
  apply_to_fields rs (field k v fs) =
      field k (apply_token_replacements rs v) (apply_to_fields rs fs)

  pub apply_to_items : List (String × String) → Items → Items
  apply_to_items rs nil = nil
  apply_to_items rs (cons v vs) = cons (apply_token_replacements rs v) (apply_to_items rs vs)
