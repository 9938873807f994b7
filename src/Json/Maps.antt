-- ===== src/Json/Maps.antt =====
-- Documents whose objects have each key once, as the JSON library's maps do.
use red_eye_engine_gateway.Common.{
  none, some, String, str_eq, ◌≡◌, refl, sym, eq_iff, Bool-cases, inl, inr,
}
use red_eye_engine_gateway.Json.{
  Value, Fields, Items, null, bool, num, str, obj, arr, end, field, nil, cons, find_field, get,
  remove_field,
}

abbrev mutual
  pub IsMap : Value → Type 0
  IsMap null = Unit
  IsMap (bool _) = Unit
  IsMap (num _) = Unit
  IsMap (str _) = Unit
  IsMap (obj fs) = AreFields fs
  IsMap (arr vs) = AreItems vs

  pub AreFields : Fields → Type 0
  AreFields end = Unit
  AreFields (field k v fs) = (find_field k fs ≡ none) × IsMap v × AreFields fs

  pub AreItems : Items → Type 0
  AreItems nil = Unit
  AreItems (cons v vs) = IsMap v × AreItems vs

pub find_field-IsMap :
    (k : String) (fs : Fields) (v : Value) → AreFields fs → find_field k fs ≡ some v → IsMap v
find_field-IsMap k end v h e = cc
find_field-IsMap k (field j w fs) v (apart, hw, hs) e = elim (Bool-cases (str_eq j k)) [
  | inl same ↦ let eq : v ≡ w = cc (rw same at e) in rw eq hw
  | inr other ↦ find_field-IsMap k fs v hs (rw other at e)
]

pub get-IsMap : (k : String) (v w : Value) → IsMap v → get k v ≡ some w → IsMap w
get-IsMap k (obj fs) w h e = find_field-IsMap k fs w h e
get-IsMap k null w h e = cc
get-IsMap k (bool _) w h e = cc
get-IsMap k (num _) w h e = cc
get-IsMap k (str _) w h e = cc
get-IsMap k (arr _) w h e = cc

pub find-remove :
    (k : String) (fs : Fields) → AreFields fs → find_field k (remove_field k fs) ≡ none
find-remove k end h = refl
find-remove k (field j v fs) (apart, _, hs) = elim (Bool-cases (str_eq j k)) [
  | inl same ↦ rw (same, sym ((eq_iff j k).0 same)) apart
  | inr other ↦ rw (other, other) (find-remove k fs hs)
]
