-- ===== src/Json/Lookup.antt =====
-- What a look-up finds after a field was inserted, assigned or removed.
use red_eye_engine_gateway.Common.{
  true, false, some, String, str_eq, eq_refl, ◌≡◌, refl, ap, is_some, if◌then◌else◌, Bool-cases,
  same_text, inl, inr,
}
use red_eye_engine_gateway.Json.{
  Value, Fields, end, field, find_field, insert_field, update_field, remove_field,
}

pub find-insert :
    (k : String) (v : Value) (fs : Fields) → find_field k (insert_field k v fs) ≡ some v
find-insert k v end = rw (eq_refl k) refl
find-insert k v (field j w fs) = elim (Bool-cases (str_eq j k)) [
  | inl e ↦ rw (e, e) refl
  | inr e ↦ rw (e, e) (find-insert k v fs)
]

pub find-update :
    (k : String) (v : Value) (fs : Fields)
    → is_some (find_field k fs) ≡ true
    → find_field k (update_field k v fs) ≡ some v
find-update k v end h = cc
find-update k v (field j w fs) h = elim (Bool-cases (str_eq j k)) [
  | inl e ↦ rw (e, e) refl
  | inr e ↦ rw (e, e) (find-update k v fs (rw e at h))
]

-- Neither form reaches another key.
pub find-insert-other :
    (j k : String) (v : Value) (fs : Fields)
    → str_eq k j ≡ false
    → find_field j (insert_field k v fs) ≡ find_field j fs
find-insert-other j k v end d = rw d refl
find-insert-other j k v (field i w fs) d = elim (Bool-cases (str_eq i k)) [
  | inl e ↦ rw (e, same_text i j k d e) refl
  | inr e ↦ rw e (ap (λ o. if str_eq i j then some w else o) (find-insert-other j k v fs d))
]

pub find-update-other :
    (j k : String) (v : Value) (fs : Fields)
    → str_eq k j ≡ false
    → find_field j (update_field k v fs) ≡ find_field j fs
find-update-other j k v end d = refl
find-update-other j k v (field i w fs) d = elim (Bool-cases (str_eq i k)) [
  | inl e ↦ rw (e, same_text i j k d e) refl
  | inr e ↦ rw e (ap (λ o. if str_eq i j then some w else o) (find-update-other j k v fs d))
]

pub find-remove-other :
    (j k : String) (fs : Fields)
    → str_eq k j ≡ false
    → find_field j (remove_field k fs) ≡ find_field j fs
find-remove-other j k end d = refl
find-remove-other j k (field i w fs) d = elim (Bool-cases (str_eq i k)) [
  | inl e ↦ rw (e, same_text i j k d e) refl
  | inr e ↦ rw e (ap (λ o. if str_eq i j then some w else o) (find-remove-other j k fs d))
]
