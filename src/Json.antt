-- ===== src/Json.antt =====
-- JSON documents as the services hold them (`serde_json::Value`, a library type): the shape that
-- the sources match on and build with `json!`, and the accessors that they call. Objects are
-- association lists in document order. Parsing and printing stay parameters of the modules that
-- use them.
pub mod Lookup
pub mod Maps
use red_eye_engine_gateway.Common.{
  ℕ, zero, suc, Bool, true, false, Option, none, some, List, [], ◌∷◌, String, str_eq, if◌then◌else◌,
  ◌>>=?◌,
}

-- `serde_json::Number`; a float is kept as its IEEE-754 bits, on which nothing computes.
pub data Number : Type 0 where
  pos_int : ℕ → Number
  neg_int : ℕ → Number
  float : ℕ → Number

mutual
  pub data Value : Type 0 where
    null : Value
    bool : Bool → Value
    num : Number → Value
    str : String → Value
    obj : Fields → Value
    arr : Items → Value

  pub data Fields : Type 0 where
    end : Fields
    field : String → Value → Fields → Fields

  pub data Items : Type 0 where
    nil : Items
    cons : Value → Items → Items

abbrev pub to_list : Items → List Value
to_list nil = []
to_list (cons v vs) = v ∷ to_list vs

abbrev pub of_list : List Value → Items
of_list [] = nil
of_list (v ∷ vs) = cons v (of_list vs)

abbrev pub find_field : String → Fields → Option Value
find_field k end = none
find_field k (field j v fs) = if str_eq j k then some v else find_field k fs

abbrev pub get : String → Value → Option Value
get k (obj fs) = find_field k fs
get k _ = none

abbrev pub as_str : Value → Option String
as_str (str s) = some s
as_str _ = none

abbrev pub as_bool : Value → Option Bool
as_bool (bool b) = some b
as_bool _ = none

abbrev pub as_array : Value → Option (List Value)
as_array (arr vs) = some (to_list vs)
as_array _ = none

abbrev pub as_object : Value → Option Fields
as_object (obj fs) = some fs
as_object _ = none

abbrev pub number_u64 : Number → Option ℕ
number_u64 (pos_int n) = some n
number_u64 _ = none

abbrev pub as_u64 : Value → Option ℕ
as_u64 (num n) = number_u64 n
as_u64 _ = none

-- `v.get(k).and_then(|x| x.as_str())`, the commonest chain of the sources
abbrev pub get_str : String → Value → Option String
get_str k v = get k v >>=? as_str

-- `Map::insert`: an existing key keeps its place, a new one goes to the end.
abbrev pub insert_field : String → Value → Fields → Fields
insert_field k v end = field k v end
insert_field k v (field j w fs) =
    if str_eq j k then field j v fs else field j w (insert_field k v fs)

-- An assignment through `get_mut`: a missing key stays missing.
abbrev pub update_field : String → Value → Fields → Fields
update_field k v end = end
update_field k v (field j w fs) =
    if str_eq j k then field j v fs else field j w (update_field k v fs)

abbrev pub update : String → Value → Value → Value
update k v (obj fs) = obj (update_field k v fs)
update k v w = w

-- `Map::remove`
abbrev pub remove_field : String → Fields → Fields
remove_field k end = end
remove_field k (field j w fs) = if str_eq j k then fs else field j w (remove_field k fs)

abbrev pub nth : ℕ → Items → Option Value
nth i nil = none
nth zero (cons v vs) = some v
nth (suc i) (cons v vs) = nth i vs

-- `Value::get` with a number
abbrev pub get_index : ℕ → Value → Option Value
get_index i (arr vs) = nth i vs
get_index i _ = none
