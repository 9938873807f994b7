-- ===== src/ToolCalls/Extraction.antt =====
-- What `extract_tool_calls` finds in a response that holds tool calls.
use red_eye_engine_gateway.Common.{List, map}
use red_eye_engine_gateway.Json.{Value, str, obj, arr, end, field, nil, cons, of_list}
use red_eye_engine_gateway.ToolCalls.{ToolCall}

-- A call in the format of OpenAI's chat completions.
abbrev pub call_value : ToolCall → Value
call_value tc = obj (
    field "id" (str tc.id) (
      field "type" (str "function") (
        field "function"
          (obj (field "name" (str tc.name) (field "arguments" (str tc.arguments) end))) end)))

-- A response whose first choice makes these calls.
abbrev pub response_value : Value → List ToolCall → Value
response_value id calls = obj (
    field "id" id (
      field "choices"
        (arr (
          cons
            (obj (
              field "message"
                (obj (
                  field "role" (str "assistant")
                    (field "tool_calls" (arr (of_list (map call_value calls))) end)))
                end))
            nil))
        end))
