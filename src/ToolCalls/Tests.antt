-- ===== src/ToolCalls/Tests.antt =====
-- Runs of a batch of two tool calls.
use mathlib.Core.List.{Perm}
use red_eye_engine_gateway.Common.{
  ◌≡◌, refl, true, false, Option, none, some, List, [], ◌∷◌, String, inl, inr, map, arith,
}
use red_eye_engine_gateway.Json.{Value, str, obj, end}
use red_eye_engine_gateway.ToolCalls.{
  ToolCall, ToolResult, Exchange, Response, execute_in_time, execute_single_tool_call,
  trim_end_slashes,
}
use red_eye_engine_gateway.ToolCalls.FanOut.{
  Batch, dispatched, completed, Reaches, at_start, and_then, fan_out, fan_out_answers,
}

abbrev print : Value → String
print (str s) = s
print v = "{}"

abbrev parse : String → Option Value
parse s = some (obj end)

abbrev endpoint : String → Option String
endpoint name = some "http://mcp:9000/"

abbrev search : ToolCall
search = record { id = "call_1"; name = "search"; arguments = "{}" }

abbrev fetch : ToolCall
fetch = record { id = "call_2"; name = "fetch"; arguments = "{}" }

abbrev unread : Response
unread = record { status = 200; json = inl "EOF"; text = none }

abbrev prompt_reply : Exchange
prompt_reply = record { resolved_ms = 0; post = λ url body. (120, inr unread); elapsed = false }

abbrev hangs : Exchange
hangs = record { resolved_ms = 0; post = λ url body. (4500, inl "timed out"); elapsed = true }

abbrev execute : ToolCall × Exchange → ToolResult
execute = execute_in_time endpoint parse print (λ n. "200")

abbrev batch : List (ToolCall × Exchange)
batch = (search, hangs) ∷ (fetch, prompt_reply) ∷ []

-- The second call ends before the first.
abbrev answered : Batch
answered = record {
  queued = [];
  in_flight = (search, hangs) ∷ [];
  results = execute (fetch, prompt_reply) ∷ [];
}

run : Reaches execute batch 3 answered
run =
    and_then 2 _ _
      (and_then 1 _ _
        (and_then 0 _ _ at_start
          (dispatched (search, hangs) ((fetch, prompt_reply) ∷ []) [] [] (omega arith)))
        (dispatched (fetch, prompt_reply) [] ((search, hangs) ∷ []) [] (omega arith)))
      (completed (fetch, prompt_reply) [] ((search, hangs) ∷ []) [] [])

abbrev ended : Batch
ended = record {
  queued = [];
  in_flight = [];
  results = execute (fetch, prompt_reply) ∷ execute (search, hangs) ∷ [];
}

whole_run : Reaches execute batch 4 ended
whole_run =
    and_then 3 _ _ run (completed (search, hangs) [] [] [] (execute (fetch, prompt_reply) ∷ []))

fan_out_answers_example :
    Perm (fan_out "2025-01-01T00:00:00Z" 5000 batch ended.results).0 (map execute batch)
fan_out_answers_example =
    fan_out_answers execute "2025-01-01T00:00:00Z" 5000 batch 4 ended whole_run (refl, refl)

-- The result that ends first comes first.
fan_out_unordered :
    map (λ (r : ToolResult). r.name) (fan_out "2025-01-01T00:00:00Z" 5000 batch ended.results).0
    ≡ "fetch" ∷ "search" ∷ []
unfolding fan_out execute_in_time execute_single_tool_call
fan_out_unordered = refl

-- A body that cannot be read is a success.
unread-success : (execute (fetch, prompt_reply)).success ≡ true
unfolding execute_in_time execute_single_tool_call
unread-success = refl

slashes : trim_end_slashes "http://mcp//" ≡ "http://mcp"
slashes = refl
