-- ===== src/ToolRouter/Registry.antt =====
-- The registry: its tools, the index by name that is built once, and the look-up.
pub mod Index
use Prim.Native.String
use red_eye_engine_gateway.Common.{
  ℕ, zero, suc, ◌+◌, Bool, true, false, Option, none, some, List, [], ◌∷◌, map, any, String, str_eq,
  is_some, is_empty, take, if◌then◌else◌, ◌>>=?◌,
}
use red_eye_engine_gateway.Json.{Value, get, get_str, arr, to_list}

-- The embedding is of some type: nothing here computes with it.
pub record ToolDescriptor (Embedding : Type 0) : Type 0 where
  pub name : String
  pub summary : String
  pub schema : Option Value
  pub embedding : Embedding

-- The look-up of a position; an index that is out of range is a panic.
abbrev pub get_elem? : {A : Type 0} → ℕ → List A → Option A
get_elem? i [] = none
get_elem? zero (x ∷ xs) = some x
get_elem? (suc i) (x ∷ xs) = get_elem? i xs

abbrev pub get_index : String → List (String × ℕ) → Option ℕ
get_index k [] = none
get_index k ((j, i) ∷ m) = if str_eq j k then some i else get_index k m

-- `HashMap::insert`
abbrev pub insert_index : String → ℕ → List (String × ℕ) → List (String × ℕ)
insert_index k i [] = (k, i) ∷ []
insert_index k i ((j, n) ∷ m) = if str_eq j k then (j, i) ∷ m else (j, n) ∷ insert_index k i m

pub record ToolRegistry (Embedding : Type 0) : Type 0 where
  pub tools : List (ToolDescriptor Embedding)
  pub index : List (String × ℕ)

module _ {Embedding : Type 0} where
  abbrev pub empty : ToolRegistry Embedding
  empty = record { tools = []; index = [] }

  abbrev pub index_from :
      ℕ → List (ToolDescriptor Embedding) → List (String × ℕ) → List (String × ℕ)
  index_from i [] index = index
  index_from i (d ∷ ds) index = index_from (suc i) ds (insert_index d.name i index)

  unfoldable pub is_unused : ToolRegistry Embedding → Bool
  is_unused registry = is_empty registry.tools

  -- The outer `none` is a panic at an index out of range.
  unfoldable pub lookup :
      ToolRegistry Embedding → String → Option (Option (ToolDescriptor Embedding))
  lookup registry name = elim (get_index name registry.index) [
    | none ↦ some none
    | some i ↦ get_elem? i registry.tools >>=? λ d. some (some d)
  ]

  abbrev pub embed_all :
      (String → Embedding) → List (ToolDescriptor Embedding) → List (ToolDescriptor Embedding)
  embed_all compute [] = []
  embed_all compute (d ∷ ds) =
      record {
        name = d.name;
        summary = d.summary;
        schema = d.schema;
        embedding = compute (String.◌++◌ d.name (String.◌++◌ " " d.summary));
      }
      ∷ embed_all compute ds

  -- From the environment: the variable and what its text parses to.
  unfoldable pub from_env :
      (String → Embedding)
      → (String → Option (List (ToolDescriptor Embedding)))
      → Option String
      → ToolRegistry Embedding
  from_env compute parse none = empty
  from_env compute parse (some raw) = elim (parse raw) [
    | none ↦ empty
    | some descriptors ↦ record {
      tools = embed_all compute descriptors;
      index = index_from 0 (embed_all compute descriptors) [];
    }
  ]

  abbrev pub names_registered : ToolRegistry Embedding → List Value → Bool
  names_registered registry [] = false
  names_registered registry (tool ∷ rest) =
      let later = names_registered registry rest in
      elim (get "function" tool >>=? get_str "name") [
        | some name ↦ if is_some (get_index name registry.index) then true else later
        | none ↦ later
      ]

  -- `parse` is simd_json's, on the bytes it is given.
  unfoldable pub find_any_registered :
      (List ℕ → Option Value) → ToolRegistry Embedding → List ℕ → Bool
  unfolding is_unused
  find_any_registered parse registry body =
      if is_unused registry then false else elim (parse (take 8192 body) >>=? get "tools") [
        | some (arr tools) ↦ names_registered registry (to_list tools)
        | _ ↦ false
      ]
