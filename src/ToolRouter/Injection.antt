-- ===== src/ToolRouter/Injection.antt =====
-- `inject_lazy_summaries`: the schemas of registered tools leave a request, and a line for each
-- takes their place.
pub mod Changes
pub mod Stripped
pub mod Whole
use Prim.Native.String
use red_eye_engine_gateway.Common.{
  ℕ, Bool, true, false, not, ◌||◌, Option, none, some, List, [], ◌∷◌, ◌++◌, any, String, str_eq,
  is_some, if◌then◌else◌, ◌>>=?◌,
}
use red_eye_engine_gateway.Json.{
  Value, Fields, Items, str, obj, arr, end, field, nil, cons, get, get_str, find_field,
  insert_field, remove_field, update,
}
use red_eye_engine_gateway.ToolRouter.Registry.{ToolDescriptor, ToolRegistry, lookup, is_unused}

abbrev pub phantom_tool_name : String
phantom_tool_name = "get_tool_details"

abbrev pub phantom_tool_descriptor : Value
phantom_tool_descriptor = obj (
    field "type" (str "function") (
      field "function"
        (obj (
          field "name" (str phantom_tool_name) (
            field "description"
              (str
                "Returns the complete parameter schema for an MCP tool. Call this when you need exact parameter types and required fields.")
              (field "parameters"
                (obj (
                  field "type" (str "object") (
                    field "properties"
                      (obj (
                        field "tool_name"
                          (obj (
                            field "type" (str "string")
                              (field "description" (str "Exact name of the MCP tool") end)))
                          end))
                      (field "required" (arr (cons (str "tool_name") nil)) end))))
                end))))
        end))

abbrev pub tool_name : Value → Option String
tool_name tool = get "function" tool >>=? get_str "name"

abbrev pub summary_line : String → String → String
summary_line name summary =
    String.◌++◌ "Available Tool: " (String.◌++◌ name (String.◌++◌ " — " summary))

-- A change of the fields of a tool's function, if it is an object.
abbrev pub change_function : (Fields → Fields) → Value → Value
change_function change tool = elim (get "function" tool) [
  | some (obj fs) ↦ update "function" (obj (change fs)) tool
  | _ ↦ tool
]

abbrev pub had_schema : Value → Bool
had_schema tool = is_some (get "function" tool >>=? get "parameters")

abbrev pub strip : String → String → Fields → Fields
strip name summary fs =
    insert_field "description" (str (summary_line name summary)) (remove_field "parameters" fs)

module _ {Embedding : Type 0} where
  -- A registered tool, and whether the request was modified.
  abbrev pub process_registered :
      List String → String → ToolDescriptor Embedding → Value → Value × Bool
  process_registered full name descriptor tool =
      if any (λ n. str_eq n name) full
      then (
        elim descriptor.schema [
          | some schema ↦ change_function (insert_field "parameters" schema) tool
          | none ↦ tool
        ],
        true,
      )
      else (change_function (strip name descriptor.summary) tool, had_schema tool)

  abbrev pub process_found :
      List String → String → Option (ToolDescriptor Embedding) → Value → Value × Bool
  process_found full name none tool = (tool, false)
  process_found full name (some descriptor) tool = process_registered full name descriptor tool

  -- There is no result where the registry panics.
  abbrev pub process_tool : ToolRegistry Embedding → List String → Value → Option (Value × Bool)
  process_tool registry full tool = elim (tool_name tool) [
    | none ↦ some (tool, false)
    | some name ↦ lookup registry name >>=? λ found. some (process_found full name found tool)
  ]

  abbrev pub process_tools : ToolRegistry Embedding → List String → Items → Option (Items × Bool)
  process_tools registry full nil = some (nil, false)
  process_tools registry full (cons tool rest) = process_tool registry full tool >>=? λ (t, m).
      process_tools registry full rest >>=? λ (ts, ms). some (cons t ts, m || ms)

abbrev pub is_phantom : Value → Bool
is_phantom tool = elim (tool_name tool) [ some name ↦ str_eq name phantom_tool_name | none ↦ false ]

abbrev pub any_item : (Value → Bool) → Items → Bool
any_item p nil = false
any_item p (cons v vs) = p v || any_item p vs

abbrev pub push_item : Value → Items → Items
push_item x nil = cons x nil
push_item x (cons v vs) = cons v (push_item x vs)

abbrev pub with_phantom : Items → Items
with_phantom tools =
    if any_item is_phantom tools then tools else push_item phantom_tool_descriptor tools

-- `from_slice` and `to_writer` are the JSON library's; `requested` is `full_schema_requested_set`. A
-- panic is the outer `none`.
module _ {Bytes Embedding : Type 0} (from_slice : Bytes → Option Value)
    (to_writer : Value → Option Bytes)
    (requested : ToolRegistry Embedding → Value → List String) where
  abbrev pub finish : Value → Items × Bool → Option Bytes
  finish body (tools, modified) =
      if not modified then none else to_writer (update "tools" (arr (with_phantom tools)) body)

  abbrev pub inject_into : ToolRegistry Embedding → Value → Option (Option Bytes)
  inject_into registry body = elim (get "tools" body) [
    | some (arr tools) ↦
        process_tools registry (requested registry body) tools >>=? λ r. some (finish body r)
    | _ ↦ some none
  ]

  unfoldable pub inject_lazy_summaries : ToolRegistry Embedding → Bytes → Option (Option Bytes)
  unfolding is_unused
  inject_lazy_summaries registry body_bytes =
      if is_unused registry
      then some none
      else elim (from_slice body_bytes) [ none ↦ some none | some body ↦ inject_into registry body ]
