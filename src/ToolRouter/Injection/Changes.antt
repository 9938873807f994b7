-- ===== src/ToolRouter/Injection/Changes.antt =====
-- A change of a tool's function, and what of the tool it leaves alone.
use red_eye_engine_gateway.Common.{
  Bool, true, false, Option, none, some, String, str_eq, ◌>>=?◌, ◌||◌, ◌≡◌, refl, sym, ap, ◌∙◌, inl,
  inr, Option-cases,
}
use red_eye_engine_gateway.Json.{
  Value, Fields, null, bool, num, str, obj, arr, get, get_str, find_field, remove_field, update,
}
use red_eye_engine_gateway.Json.Lookup.{
  find-insert-other, find-update, find-update-other, find-remove-other,
}
use red_eye_engine_gateway.Json.Maps.{AreFields, find-remove}
use red_eye_engine_gateway.ToolRouter.Injection.{tool_name, change_function, strip}

-- A field of a tool's function.
abbrev pub inside : String → Value → Option Value
inside k tool = get "function" tool >>=? get k

-- Nothing but some fields of its function differs.
pub record IsChanged (free : String → Bool) (before after : Value) : Type 0 where
  pub inner : (k : String) → free k ≡ false → inside k after ≡ inside k before
  pub outer : (k : String) → str_eq "function" k ≡ false → get k after ≡ get k before

neither : (a b : Bool) → (a || b) ≡ false → (a ≡ false) × (b ≡ false)
neither true b h = cc
neither false b h = (refl, h)

-- A tool whose function is an object, after a change of the object.
pub change_function-object :
    (change : Fields → Fields) (tool : Value) (fs : Fields)
    → get "function" tool ≡ some (obj fs)
    → change_function change tool ≡ update "function" (obj (change fs)) tool
change_function-object change tool fs h = rw (h, change_function) refl

get-update :
    (k : String) (v w : Value) (old : Value) → get k w ≡ some old → get k (update k v w) ≡ some v
get-update k v (obj fs) old h = find-update k v fs (rw h refl)
get-update k v null old h = cc
get-update k v (bool _) old h = cc
get-update k v (num _) old h = cc
get-update k v (str _) old h = cc
get-update k v (arr _) old h = cc

get-update-other :
    (j k : String) (v w : Value) → str_eq k j ≡ false → get j (update k v w) ≡ get j w
get-update-other j k v (obj fs) h = find-update-other j k v fs h
get-update-other j k v null h = refl
get-update-other j k v (bool _) h = refl
get-update-other j k v (num _) h = refl
get-update-other j k v (str _) h = refl
get-update-other j k v (arr _) h = refl

named-object :
    (v : Value) (name : String) → get_str "name" v ≡ some name → (fs : Fields) × (v ≡ obj fs)
named-object (obj fs) name h = (fs, refl)
named-object null name h = cc
named-object (bool _) name h = cc
named-object (num _) name h = cc
named-object (str _) name h = cc
named-object (arr _) name h = cc

-- A named tool has an object for its function.
pub tool_name-object :
    (tool : Value) (name : String)
    → tool_name tool ≡ some name
    → (fs : Fields) × (get "function" tool ≡ some (obj fs))
tool_name-object tool name h = elim (Option-cases (get "function" tool)) [
  | inl missing ↦ cc (rw missing at h)
  | inr (v, found) ↦ let (fs, eq) = named-object v name (rw found at h) in (fs, found ∙ ap some eq)
]

inside-object :
    (k : String) (tool : Value) (fs : Fields)
    → get "function" tool ≡ some (obj fs)
    → inside k tool ≡ find_field k fs
inside-object k tool fs h = rw h refl

pub inside-update :
    (k : String) (tool : Value) (fs fs' : Fields)
    → get "function" tool ≡ some (obj fs)
    → inside k (update "function" (obj fs') tool) ≡ find_field k fs'
inside-update k tool fs fs' h =
    inside-object k (update "function" (obj fs') tool) fs'
      (get-update "function" (obj fs') tool (obj fs) h)

-- The fields of a tool's function replaced by others that agree on what is not free.
pub update-IsChanged :
    (free : String → Bool) (tool : Value) (fs fs' : Fields)
    → get "function" tool ≡ some (obj fs)
    → ((k : String) → free k ≡ false → find_field k fs' ≡ find_field k fs)
    → IsChanged free tool (update "function" (obj fs') tool)
update-IsChanged free tool fs fs' h same = record {
  inner = λ k apart. inside-update k tool fs fs' h ∙ same k apart ∙ sym (inside-object k tool fs h);
  outer = λ k apart. get-update-other k "function" (obj fs') tool apart;
}

pub strip-other :
    (name summary : String) (fs : Fields) (k : String)
    → (str_eq "parameters" k || str_eq "description" k) ≡ false
    → find_field k (strip name summary fs) ≡ find_field k fs
strip-other name summary fs k h =
    let (p, d) = neither (str_eq "parameters" k) (str_eq "description" k) h in
    find-insert-other k "description" _ (remove_field "parameters" fs) d
    ∙ find-remove-other k "parameters" fs p

pub strip-parameters :
    (name summary : String) (fs : Fields)
    → AreFields fs
    → find_field "parameters" (strip name summary fs) ≡ none
strip-parameters name summary fs h =
    find-insert-other "parameters" "description" _ (remove_field "parameters" fs) refl
    ∙ find-remove "parameters" fs h

pub unchanged-IsChanged : (free : String → Bool) (tool : Value) → IsChanged free tool tool
unchanged-IsChanged free tool = record { inner = λ _ _. refl; outer = λ _ _. refl }
