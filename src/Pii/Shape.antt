-- ===== src/Pii/Shape.antt =====
-- What no redaction of a document changes.
use red_eye_engine_gateway.Common.{◌≡◌, refl, ap, String, List, []}
use red_eye_engine_gateway.Json.{
  Value, Fields, Items, null, bool, num, str, obj, arr, end, field, nil, cons,
}
use red_eye_engine_gateway.Pii.Replace.{apply_token_replacements, apply_to_fields, apply_to_items}

-- A document with every text made empty.
abbrev mutual
  pub skeleton : Value → Value
  skeleton null = null
  skeleton (bool b) = bool b
  skeleton (num n) = num n
  skeleton (str s) = str ""
  skeleton (obj fs) = obj (skeleton_fields fs)
  skeleton (arr vs) = arr (skeleton_items vs)

  pub skeleton_fields : Fields → Fields
  skeleton_fields end = end
  skeleton_fields (field k v fs) = field k (skeleton v) (skeleton_fields fs)

  pub skeleton_items : Items → Items
  skeleton_items nil = nil
  skeleton_items (cons v vs) = cons (skeleton v) (skeleton_items vs)

mutual
  -- A redacted document has the shape of the original: its keys, its lengths and all that is no text.
  pub skeleton-apply_token_replacements :
      (rs : List (String × String)) (v : Value)
      → skeleton (apply_token_replacements rs v) ≡ skeleton v
  skeleton-apply_token_replacements rs null = refl
  skeleton-apply_token_replacements rs (bool b) = refl
  skeleton-apply_token_replacements rs (num n) = refl
  skeleton-apply_token_replacements rs (str s) = refl
  skeleton-apply_token_replacements rs (obj fs) = ap obj (skeleton-apply_to_fields rs fs)
  skeleton-apply_token_replacements rs (arr vs) = ap arr (skeleton-apply_to_items rs vs)

  pub skeleton-apply_to_fields :
      (rs : List (String × String)) (fs : Fields)
      → skeleton_fields (apply_to_fields rs fs) ≡ skeleton_fields fs
  skeleton-apply_to_fields rs end = refl
  skeleton-apply_to_fields rs (field k v fs) =
      cc (skeleton-apply_token_replacements rs v, skeleton-apply_to_fields rs fs)

  pub skeleton-apply_to_items :
      (rs : List (String × String)) (vs : Items)
      → skeleton_items (apply_to_items rs vs) ≡ skeleton_items vs
  skeleton-apply_to_items rs nil = refl
  skeleton-apply_to_items rs (cons v vs) =
      cc (skeleton-apply_token_replacements rs v, skeleton-apply_to_items rs vs)

mutual
  pub apply_token_replacements-nothing : (v : Value) → apply_token_replacements [] v ≡ v
  apply_token_replacements-nothing null = refl
  apply_token_replacements-nothing (bool b) = refl
  apply_token_replacements-nothing (num n) = refl
  apply_token_replacements-nothing (str s) = refl
  apply_token_replacements-nothing (obj fs) = ap obj (apply_to_fields-nothing fs)
  apply_token_replacements-nothing (arr vs) = ap arr (apply_to_items-nothing vs)

  apply_to_fields-nothing : (fs : Fields) → apply_to_fields [] fs ≡ fs
  apply_to_fields-nothing end = refl
  apply_to_fields-nothing (field k v fs) =
      cc (apply_token_replacements-nothing v, apply_to_fields-nothing fs)

  apply_to_items-nothing : (vs : Items) → apply_to_items [] vs ≡ vs
  apply_to_items-nothing nil = refl
  apply_to_items-nothing (cons v vs) =
      cc (apply_token_replacements-nothing v, apply_to_items-nothing vs)
