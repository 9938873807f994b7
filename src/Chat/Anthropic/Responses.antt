-- ===== src/Chat/Anthropic/Responses.antt =====
-- `unify_response` of the Anthropic translator, redeye_gateway/src/infrastructure/translators.rs: a
-- provider's response in the OpenAI format.
use red_eye_engine_gateway.Common.{
  ℕ, ◌+◌, ◌%◌, ◌^◌, Option, none, some, List, [], ◌∷◌, String, if◌then◌else◌, ◌>>=?◌, unwrap_or,
  is_some,
}
use red_eye_engine_gateway.Json.{
  Value, Fields, num, pos_int, str, arr, obj, nil, cons, end, field, get, get_str, get_index,
  as_u64, as_array, of_list,
}
use red_eye_engine_gateway.Chat.Tools.{is_type, map_anthropic_tool_use_to_openai_calls}

abbrev find_text : List Value → Option Value
find_text [] = none
find_text (b ∷ bs) = if is_type "text" b then some b else find_text bs

-- the text of the first text block, "" where there is none
abbrev text_content : Value → String
text_content raw = unwrap_or (get "content" raw >>=? as_array >>=? find_text >>=? get_str "text") ""

abbrev usage_count : String → Value → ℕ
usage_count k raw = unwrap_or (get "usage" raw >>=? get k >>=? as_u64) 0

abbrev pub count : ℕ → Value
count n = num (pos_int n)

abbrev with_tool_calls : Option (List Value) → Fields
with_tool_calls none = end
with_tool_calls (some calls) = field "tool_calls" (arr (of_list calls)) end

abbrev pub completion : String → String → Fields → String → ℕ → ℕ → ℕ → Value
completion id model message reason prompt reply total = obj (
    field "id" (str id) (
      field "object" (str "chat.completion") (
        field "created" (count 0) (
          field "model" (str model) (
            field "choices"
              (arr (
                cons
                  (obj (
                    field "index" (count 0)
                      (field "message" (obj message) (field "finish_reason" (str reason) end))))
                  nil))
              (field "usage"
                (obj (
                  field "prompt_tokens" (count prompt) (
                    field "completion_tokens" (count reply)
                      (field "total_tokens" (count total) end))))
                end))))))

module _ (to_string : Fields → Option String) where
  tool_calls : Value → Option (List Value)
  tool_calls raw =
      get "content" raw >>=? as_array >>=? map_anthropic_tool_use_to_openai_calls to_string

  -- The sum of the two token counts is a `u64`.
  unfoldable pub unify_response : Value → Value
  unfolding tool_calls
  unify_response raw =
      let calls = tool_calls raw in
      let input = usage_count "input_tokens" raw in
      let output = usage_count "output_tokens" raw in
      completion (unwrap_or (get_str "id" raw) "chatcmpl-fallback")
        (unwrap_or (get_str "model" raw) "claude")
        (field "role" (str "assistant")
          (field "content" (str (text_content raw)) (with_tool_calls calls)))
        (if is_some calls then "tool_calls" else "stop") input output ((input + output) % 2 ^ 64)

-- How the gateway's later stages reach into a response.
abbrev pub choice : Value → Option Value
choice v = get "choices" v >>=? get_index 0

abbrev pub message : Value → Option Value
message v = choice v >>=? get "message"

abbrev pub total_tokens : Value → Option ℕ
total_tokens v = get "usage" v >>=? get "total_tokens" >>=? as_u64
