-- ===== src/Pii/Lossless.antt =====
-- What the redaction of a document keeps: its shape, and, by the token map, its texts.
use Prim.Native.String
use Prim.Native.String.append.{nil as append-nil, cons as append-cons}
use Prim.Native.Char.{Char, code}
use text.Mathlib.TextEquality.{Char-path}
use red_eye_engine_gateway.Common.{
  ◌≡◌, refl, sym, ap, ◌∙◌, Bool, true, false, ◌&&◌, none, some, String, ◌==◌, ==_iff, Bool-cases,
  inl, inr, [], ◌∷◌, Option-cases, &&-true, not,
}
use red_eye_engine_gateway.Json.{
  Value, Fields, Items, null, bool, num, str, obj, arr, end, field, nil, cons,
}
use red_eye_engine_gateway.Pii.Replace.{
  strip_prefix, occurs, replace_first, replace_in, apply_token_replacements, apply_to_fields,
  apply_to_items,
}

-- A text without the character that opens a token.
abbrev pub is_plain : Char → String → Bool
is_plain t String.[] = true
is_plain t (String.◌∷◌ c s) = not (code t == code c) && is_plain t s

not-true : {b : Bool} → not b ≡ true → b ≡ false
not-true {b = true} h = sym h
not-true {b = false} h = refl

strip_prefix-equal :
    (p c : Char) (ps s : String)
    → (code p == code c) ≡ true
    → strip_prefix (String.◌∷◌ p ps) (String.◌∷◌ c s) ≡ strip_prefix ps s
strip_prefix-equal p c ps s h = rw (h, strip_prefix) refl

strip_prefix-other :
    (p c : Char) (ps s : String)
    → (code p == code c) ≡ false
    → strip_prefix (String.◌∷◌ p ps) (String.◌∷◌ c s) ≡ none
strip_prefix-other p c ps s h = rw (h, strip_prefix) refl

strip_prefix-append : (p s rest : String) → strip_prefix p s ≡ some rest → String.◌++◌ p rest ≡ s
strip_prefix-append String.[] s rest h = cc (append-nil rest)
strip_prefix-append (String.◌∷◌ p ps) String.[] rest h = cc
strip_prefix-append (String.◌∷◌ p ps) (String.◌∷◌ c s) rest h =
    elim (Bool-cases (code p == code c)) [
      | inl same ↦
          append-cons p ps rest
          ∙ cc (
            Char-path p c ((==_iff (code p) (code c)).0 same),
            strip_prefix-append ps s rest (sym (strip_prefix-equal p c ps s same) ∙ h),
          )
      | inr other ↦ cc (strip_prefix-other p c ps s other)
    ]

strip_prefix_self : (p s : String) → strip_prefix p (String.◌++◌ p s) ≡ some s
strip_prefix_self String.[] s = ap some (append-nil s)
strip_prefix_self (String.◌∷◌ c p) s = rw (append-cons c p s) (
    strip_prefix-equal c c p (String.◌++◌ p s) ((==_iff (code c) (code c)).1 refl)
    ∙ strip_prefix_self p s)

replace_first-some :
    (p t s rest : String) → strip_prefix p s ≡ some rest → replace_first p t s ≡ String.◌++◌ t rest
replace_first-some p t String.[] rest h = rw (h, replace_first) refl
replace_first-some p t (String.◌∷◌ c s) rest h = rw (h, replace_first) refl

replace_first-none :
    (p t : String) (c : Char) (s : String)
    → strip_prefix p (String.◌∷◌ c s) ≡ none
    → replace_first p t (String.◌∷◌ c s) ≡ String.◌∷◌ c (replace_first p t s)
replace_first-none p t c s h = rw (h, replace_first) refl

-- What was replaced first is found again, whatever stands behind it.
replace_first-undo :
    (t : Char) (ts p s rest : String)
    → strip_prefix p s ≡ some rest
    → replace_first (String.◌∷◌ t ts) p (replace_first p (String.◌∷◌ t ts) s) ≡ s
replace_first-undo t ts p s rest h =
    let tok : String = String.◌∷◌ t ts in
    ap (replace_first tok p) (replace_first-some p tok s rest h)
    ∙ replace_first-some tok p (String.◌++◌ tok rest) rest (strip_prefix_self tok rest)
    ∙ strip_prefix-append p s rest h

replace_first-empty :
    (p t : String) → strip_prefix p String.[] ≡ none → replace_first p t String.[] ≡ String.[]
replace_first-empty p t h = rw (h, replace_first) refl

replace_first_back :
    (t : Char) (ts p s : String)
    → is_plain t s ≡ true
    → replace_first (String.◌∷◌ t ts) p (replace_first p (String.◌∷◌ t ts) s) ≡ s
replace_first_back t ts p String.[] h = elim (Option-cases (strip_prefix p String.[])) [
  | inl miss ↦ ap (replace_first (String.◌∷◌ t ts) p) (replace_first-empty p (String.◌∷◌ t ts) miss)
  | inr (rest, hit) ↦ replace_first-undo t ts p String.[] rest hit
]
replace_first_back t ts p (String.◌∷◌ c s) h =
    elim (Option-cases (strip_prefix p (String.◌∷◌ c s))) [
      | inl miss ↦
          let tok : String = String.◌∷◌ t ts in
          let (apart, plain) = &&-true (not (code t == code c)) (is_plain t s) h in
          ap (replace_first tok p) (replace_first-none p tok c s miss)
          ∙ replace_first-none tok p c (replace_first p tok s)
              (strip_prefix-other t c ts (replace_first p tok s) (not-true apart))
          ∙ ap (String.◌∷◌ c) (replace_first_back t ts p s plain)
      | inr (rest, hit) ↦ replace_first-undo t ts p (String.◌∷◌ c s) rest hit
    ]

occurs-some : (p s rest : String) → strip_prefix p s ≡ some rest → occurs p s ≡ true
occurs-some p String.[] rest h = rw (h, occurs) refl
occurs-some p (String.◌∷◌ c s) rest h = rw (h, occurs) refl

occurs-none :
    (p : String) (c : Char) (s : String)
    → strip_prefix p (String.◌∷◌ c s) ≡ none
    → occurs p (String.◌∷◌ c s) ≡ occurs p s
occurs-none p c s h = rw (h, occurs) refl

replace_first-absent : (p t s : String) → occurs p s ≡ false → replace_first p t s ≡ s
replace_first-absent p t String.[] h = elim (Option-cases (strip_prefix p String.[])) [
  | inl miss ↦ replace_first-empty p t miss
  | inr (rest, hit) ↦ cc (occurs-some p String.[] rest hit)
]
replace_first-absent p t (String.◌∷◌ c s) h =
    elim (Option-cases (strip_prefix p (String.◌∷◌ c s))) [
      | inl miss ↦
          replace_first-none p t c s miss
          ∙ ap (String.◌∷◌ c) (replace_first-absent p t s (sym (occurs-none p c s miss) ∙ h))
      | inr (rest, hit) ↦ cc (occurs-some p (String.◌∷◌ c s) rest hit)
    ]

replace_in_one : (p t s : String) → replace_in ((p, t) ∷ []) s ≡ replace_first p t s
replace_in_one p t s = elim (Bool-cases (occurs p s)) [
  | inl found ↦ rw (found, replace_in) refl
  | inr absent ↦ rw (absent, replace_in) (sym (replace_first-absent p t s absent))
]

-- No text of the document has the character.
abbrev mutual
  pub lacks : Char → Value → Bool
  lacks t null = true
  lacks t (bool b) = true
  lacks t (num n) = true
  lacks t (str s) = is_plain t s
  lacks t (obj fs) = lacks_fields t fs
  lacks t (arr vs) = lacks_items t vs

  pub lacks_fields : Char → Fields → Bool
  lacks_fields t end = true
  lacks_fields t (field k v fs) = lacks t v && lacks_fields t fs

  pub lacks_items : Char → Items → Bool
  lacks_items t nil = true
  lacks_items t (cons v vs) = lacks t v && lacks_items t vs

replace_in_back :
    (t : Char) (ts p s : String)
    → is_plain t s ≡ true
    → replace_in ((String.◌∷◌ t ts, p) ∷ []) (replace_in ((p, String.◌∷◌ t ts) ∷ []) s) ≡ s
replace_in_back t ts p s h =
    ap (replace_in ((String.◌∷◌ t ts, p) ∷ [])) (replace_in_one p (String.◌∷◌ t ts) s)
    ∙ replace_in_one (String.◌∷◌ t ts) p (replace_first p (String.◌∷◌ t ts) s)
    ∙ replace_first_back t ts p s h

mutual
  value_back :
      (t : Char) (ts p : String) (v : Value)
      → lacks t v ≡ true
      → apply_token_replacements
          ((String.◌∷◌ t ts, p) ∷ [])
          (apply_token_replacements ((p, String.◌∷◌ t ts) ∷ []) v)
        ≡ v
  value_back t ts p null h = refl
  value_back t ts p (bool b) h = refl
  value_back t ts p (num n) h = refl
  value_back t ts p (str s) h = ap str (replace_in_back t ts p s h)
  value_back t ts p (obj fs) h = ap obj (apply_to_fields_back t ts p fs h)
  value_back t ts p (arr vs) h = ap arr (apply_to_items_back t ts p vs h)

  apply_to_fields_back :
      (t : Char) (ts p : String) (fs : Fields)
      → lacks_fields t fs ≡ true
      → apply_to_fields ((String.◌∷◌ t ts, p) ∷ []) (apply_to_fields ((p, String.◌∷◌ t ts) ∷ []) fs)
        ≡ fs
  apply_to_fields_back t ts p end h = refl
  apply_to_fields_back t ts p (field k v fs) h =
      let (here, there) = &&-true (lacks t v) (lacks_fields t fs) h in
      cc (value_back t ts p v here, apply_to_fields_back t ts p fs there)

  apply_to_items_back :
      (t : Char) (ts p : String) (vs : Items)
      → lacks_items t vs ≡ true
      → apply_to_items ((String.◌∷◌ t ts, p) ∷ []) (apply_to_items ((p, String.◌∷◌ t ts) ∷ []) vs)
        ≡ vs
  apply_to_items_back t ts p nil h = refl
  apply_to_items_back t ts p (cons v vs) h =
      let (here, there) = &&-true (lacks t v) (lacks_items t vs) h in
      cc (value_back t ts p v here, apply_to_items_back t ts p vs there)

-- In a document none of whose texts has the character that opens a token, replacing the token
-- by what it replaced gives the document back.
pub apply_token_replacements_back :
    (t : Char) (ts p : String) (v : Value)
    → lacks t v ≡ true
    → apply_token_replacements
        ((String.◌∷◌ t ts, p) ∷ [])
        (apply_token_replacements ((p, String.◌∷◌ t ts) ∷ []) v)
      ≡ v
apply_token_replacements_back t ts p v h = value_back t ts p v h
