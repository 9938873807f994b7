-- ===== src/Chat/Tools.antt =====
-- redeye_gateway/src/infrastructure/schema_mapper.rs: tool definitions from the OpenAI to the
-- Anthropic format, and tool uses back.
use red_eye_engine_gateway.Common.{
  Option, none, some, List, [], ◌∷◌, String, str_eq, if◌then◌else◌, ◌>>=?◌, unwrap_or, Bool, false,
}
use red_eye_engine_gateway.Json.{
  Value, Fields, str, obj, end, field, get, get_str, find_field, as_str, as_object,
}

-- `json!({"type": "object", "properties": {}})`
abbrev pub empty_schema : Value
empty_schema = obj (field "type" (str "object") (field "properties" (obj end) end))

abbrev field_str : String → Fields → Option String
field_str k fs = find_field k fs >>=? as_str

abbrev pub anthropic_tool : String → Fields → Value
anthropic_tool name function = obj (
    field "name" (str name) (
      field "description" (str (unwrap_or (field_str "description" function) ""))
        (field "input_schema" (unwrap_or (find_field "parameters" function) empty_schema) end)))

abbrev pub is_type : String → Value → Bool
is_type t v = elim (get_str "type" v) [ none ↦ false | some s ↦ str_eq s t ]

-- One round of the loop: `none` where the tool is passed over.
unfoldable pub map_tool : Value → Option Value
map_tool tool =
    if is_type "function" tool
    then (get "function" tool >>=? as_object >>=? λ function.
        field_str "name" function >>=? λ name. some (anthropic_tool name function))
    else none

-- Both loops collect what their body yields.
unfoldable pub collect : (Value → Option Value) → List Value → List Value
collect f [] = []
collect f (v ∷ vs) = elim (f v) [ none ↦ collect f vs | some w ↦ w ∷ collect f vs ]

abbrev pub none_if_empty : List Value → Option (List Value)
none_if_empty [] = none
none_if_empty (v ∷ vs) = some (v ∷ vs)

unfoldable pub map_openai_tools_to_anthropic : Option (List Value) → Option (List Value)
unfolding map_tool collect
map_openai_tools_to_anthropic none = none
map_openai_tools_to_anthropic (some tools) = none_if_empty (collect map_tool tools)

-- `serde_json::to_string` of the tool input is a parameter; it may fail.
module _ (to_string : Fields → Option String) where
  abbrev pub openai_call : String → String → String → Value
  openai_call id name arguments = obj (
      field "id" (str id) (
        field "type" (str "function") (
          field "function" (obj (field "name" (str name) (field "arguments" (str arguments) end)))
            end)))

  unfoldable pub map_tool_use : Value → Option Value
  map_tool_use block =
      if is_type "tool_use" block
      then (get_str "id" block >>=? λ id. get_str "name" block >>=? λ name.
          (get "input" block >>=? as_object) >>=? λ input.
          to_string input >>=? λ arguments. some (openai_call id name arguments))
      else none

  unfoldable pub map_anthropic_tool_use_to_openai_calls : List Value → Option (List Value)
  unfolding map_tool_use collect
  map_anthropic_tool_use_to_openai_calls blocks = none_if_empty (collect map_tool_use blocks)
