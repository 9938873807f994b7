-- ===== src/ToolRouter/Phantom.antt =====
-- `intercept_phantom_call`: a call of the phantom tool is answered from the registry.
use Prim.Native.String
use red_eye_engine_gateway.Common.{
  ℕ, not, Option, none, some, List, String, str_eq, codes, contains, unwrap_or, if◌then◌else◌,
  ◌>>=?◌,
}
use red_eye_engine_gateway.Json.{
  Value, str, num, pos_int, obj, arr, end, field, nil, cons, nth, find_field, get, get_str,
}
use red_eye_engine_gateway.ToolRouter.Registry.{ToolDescriptor, ToolRegistry, lookup}
use red_eye_engine_gateway.ToolRouter.Injection.{phantom_tool_name}

-- The step "/0" of a JSON pointer.
abbrev pub head : Value → Option Value
head (arr vs) = nth 0 vs
head (obj fs) = find_field "0" fs
head _ = none

abbrev pub first_call : Value → Option Value
first_call response =
    get "choices" response >>=? head >>=? get "message" >>=? get "tool_calls" >>=? head

abbrev pub call_text : String → Value → Option String
call_text k response = first_call response >>=? get "function" >>=? get_str k

abbrev pub requested_tool : (String → Option Value) → Value → Option String
requested_tool from_str response =
    from_str (unwrap_or (call_text "arguments" response) "{}") >>=? get_str "tool_name"

module _ {Embedding : Type 0} (to_string : Value → String) where
  abbrev pub schema_content : ToolDescriptor Embedding → String
  schema_content d = elim d.schema [
    | some schema ↦ to_string schema
    | none ↦ String.◌++◌ "{\"summary\":\"" (String.◌++◌ d.summary "\"}")
  ]

  abbrev pub synthetic : Value → ToolDescriptor Embedding → Value
  synthetic response d = obj (
      field "id" (unwrap_or (get "id" response) (str "phantom-resp")) (
        field "object" (str "chat.completion") (
          field "choices"
            (arr (
              cons
                (obj (
                  field "index" (num (pos_int 0)) (
                    field "message"
                      (obj (
                        field "role" (str "tool") (
                          field "tool_call_id"
                            (str (unwrap_or (first_call response >>=? get_str "id") "call_phantom"))
                            (field "content" (str (schema_content d)) end))))
                      (field "finish_reason" (str "stop") end))))
                nil))
            (field "usage"
              (obj (
                field "prompt_tokens" (num (pos_int 0)) (
                  field "completion_tokens" (num (pos_int 0))
                    (field "total_tokens" (num (pos_int 0)) end))))
              end))))

  -- The parsers and the printer are the JSON library's. The outer `none` is a panic.
  module _ {Bytes : Type 0} (from_slice : List ℕ → Option Value) (from_str : String → Option Value)
      (to_vec : Value → Option Bytes) where
    abbrev pub answer : Value → Option (ToolDescriptor Embedding) → Option Bytes
    answer response none = none
    answer response (some d) = to_vec (synthetic response d)

    abbrev pub intercept : ToolRegistry Embedding → Value → Option (Option Bytes)
    intercept registry response = elim (call_text "name" response) [
      | none ↦ some none
      | some called ↦
          if not (str_eq called phantom_tool_name)
          then some none
          else elim (requested_tool from_str response) [
            | none ↦ some none
            | some name ↦ lookup registry name >>=? λ found. some (answer response found)
          ]
    ]

    unfoldable pub intercept_phantom_call : ToolRegistry Embedding → List ℕ → Option (Option Bytes)
    intercept_phantom_call registry body =
        if not (contains (codes phantom_tool_name) body)
        then some none
        else elim (from_slice body) [
          | none ↦ some none
          | some response ↦ intercept registry response
        ]
