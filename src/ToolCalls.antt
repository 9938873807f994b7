-- ===== src/ToolCalls.antt =====
-- redeye_gateway/src/infrastructure/mcp_client.rs: the tool calls of a response, their execution
-- and the messages made of the results. FanOut has the order in which a batch runs. The JSON
-- library and the HTTP client are parameters.
pub mod Extraction
pub mod FanOut
mod Tests
use Prim.Native.String
use Prim.Native.Char.{code}
use red_eye_engine_gateway.Common.{
  ℕ, suc, Bool, true, false, Option, none, some, List, [], ◌∷◌, map, String, str_eq, length,
  unwrap_or, leb, ltb, ◌&&◌, ◌⊎◌, inl, inr, ◌==◌, if◌then◌else◌, ◌>>=?◌,
}
use red_eye_engine_gateway.Json.{
  Value, bool, str, num, pos_int, obj, arr, end, field, of_list, as_str, as_array, get, get_str,
}
use red_eye_engine_gateway.ToolRouter.Phantom.{head}

pub record ToolCall : Type 0 where
  pub id : String
  pub name : String
  pub arguments : String

pub record ToolResult : Type 0 where
  pub tool_call_id : String
  pub name : String
  pub content : String
  pub latency_ms : ℕ
  pub success : Bool

-- A response of the HTTP client, and what its `json()` and its `text()` bring; an error of
-- `json()` is its text.
pub record Response : Type 0 where
  pub status : ℕ
  pub json : String ⊎ Value
  pub text : Option String

-- What one call meets: the milliseconds until a missing endpoint is noticed, the answer to a POST
-- with the milliseconds it takes, or the text of an error, and whether the timer of 5 s ends first.
pub record Exchange : Type 0 where
  pub resolved_ms : ℕ
  pub post : String → Value → ℕ × (String ⊎ Response)
  pub elapsed : Bool

-- The text's slashes at its end are cut off.
abbrev pub cons_unless_slash : ℕ → String → String → String
cons_unless_slash c s String.[] = if c == b'/' then "" else s
cons_unless_slash c s (String.◌∷◌ d rest) = s

abbrev pub trim_end_slashes : String → String
trim_end_slashes String.[] = ""
trim_end_slashes (String.◌∷◌ c s) =
    let rest = trim_end_slashes s in cons_unless_slash (code c) (String.◌∷◌ c rest) rest

module _ {A B : Type 0} where
  abbrev pub filter_map : (A → Option B) → List A → List B
  filter_map f [] = []
  filter_map f (x ∷ xs) =
      let rest = filter_map f xs in elim (f x) [ some y ↦ y ∷ rest | none ↦ rest ]

module _ (to_string : Value → String) where
  abbrev pub argument_text : Value → String
  argument_text (str s) = s
  argument_text v = to_string v

  abbrev pub argument_texts : Option Value → Option String
  argument_texts none = none
  argument_texts (some v) = some (argument_text v)

  abbrev pub extract_tool_call : Value → Option ToolCall
  extract_tool_call tc = get_str "id" tc >>=? λ id.
      get "function" tc >>=? get_str "name" >>=? λ name. some (record {
        id = id;
        name = name;
        arguments = unwrap_or (argument_texts (get "function" tc >>=? get "arguments")) "{}";
      })

  abbrev pub extract_from : Option (List Value) → List ToolCall
  extract_from none = []
  extract_from (some calls) = filter_map extract_tool_call calls

  -- `document` is the body as `from_slice` reads it.
  unfoldable pub extract_tool_calls : Option Value → List ToolCall
  extract_tool_calls document =
      extract_from (
        document
        >>=? get "choices"
        >>=? head
        >>=? get "message"
        >>=? get "tool_calls"
        >>=? as_array)

  abbrev pub result_text : Value → Option Value → String
  result_text body none = to_string body
  result_text body (some result) = to_string result

  abbrev pub mcp_text : Value → Option String → String
  mcp_text body (some text) = text
  mcp_text body none = result_text body (get "result" body)

  abbrev pub extract_mcp_result : String ⊎ Value → String
  extract_mcp_result (inl e) = String.◌++◌ "<failed to parse MCP response: " (String.◌++◌ e ">")
  extract_mcp_result (inr body) =
      mcp_text body (get "result" body >>=? get "content" >>=? head >>=? get "text" >>=? as_str)

module _ (from_str : String → Option Value) where
  abbrev pub parse_arguments : String → Value
  parse_arguments arguments = unwrap_or (from_str arguments) (obj end)

  abbrev pub mcp_body : ToolCall → Value
  mcp_body tc = obj (
      field "jsonrpc" (str "2.0") (
        field "id" (num (pos_int 1)) (
          field "method" (str "tools/call") (
            field "params"
              (obj
                (field "name" (str tc.name) (field "arguments" (parse_arguments tc.arguments) end)))
              end))))

  abbrev pub merge_result : ToolResult → Value
  merge_result r = obj (
      field "tool" (str r.name) (
        field "result" (unwrap_or (from_str r.content) (obj (field "text" (str r.content) end)))
          (field "latency_ms" (num (pos_int r.latency_ms)) (field "success" (bool r.success) end))))

  abbrev pub merge_results : List ToolResult → List Value
  merge_results results = map merge_result results

abbrev pub result_of : ToolCall → String → ℕ → Bool → ToolResult
result_of tc content ms success = record {
  tool_call_id = tc.id;
  name = tc.name;
  content = content;
  latency_ms = ms;
  success = success;
}

abbrev pub is_success : ℕ → Bool
is_success status = leb 200 status && ltb status 300

module _ (get_url : String → Option String) (from_str : String → Option Value)
    (to_string : Value → String) (decimal : ℕ → String) where
  abbrev pub refusal : ToolCall → Response → String
  refusal tc r = String.◌++◌ "MCP tool '" (
      String.◌++◌ tc.name (
        String.◌++◌ "' returned HTTP "
          (String.◌++◌ (decimal r.status) (String.◌++◌ ": " (unwrap_or r.text "<unreadable>")))))

  abbrev pub received : ToolCall → ℕ × (String ⊎ Response) → ToolResult
  received tc (ms, inl e) =
      result_of tc
        (String.◌++◌ "MCP tool '" (String.◌++◌ tc.name (String.◌++◌ "' unreachable: " e))) ms false
  received tc (ms, inr r) =
      if is_success r.status
      then result_of tc (extract_mcp_result to_string r.json) ms true
      else result_of tc (refusal tc r) ms false

  abbrev pub execute_at : ToolCall → Exchange → Option String → ToolResult
  execute_at tc x none =
      result_of tc "MCP endpoint not configured for this tool." x.resolved_ms false
  execute_at tc x (some sse_url) =
      received tc
        (x.post (String.◌++◌ (trim_end_slashes sse_url) "/messages") (mcp_body from_str tc))

  unfoldable pub execute_single_tool_call : ToolCall → Exchange → ToolResult
  execute_single_tool_call tc x = execute_at tc x (get_url tc.name)

  -- The future of one call in a batch.
  unfoldable pub execute_in_time : ToolCall × Exchange → ToolResult
  execute_in_time (tc, x) =
      if x.elapsed
      then result_of tc "{\"error\":\"MCP_TIMEOUT\"}" 5000 false
      else execute_single_tool_call tc x

abbrev pub success_count : List ToolResult → ℕ
success_count [] = 0
success_count (r ∷ rs) = let rest = success_count rs in if r.success then suc rest else rest

abbrev pub tool_metric : ToolResult → Value
tool_metric r = obj (
    field "tool_name" (str r.name)
      (field "tool_latency_ms" (num (pos_int r.latency_ms)) (field "success" (bool r.success) end)))

unfoldable pub build_telemetry_payload : String → List ToolResult → ℕ → ℕ → Value
build_telemetry_payload now results fan_out_count total_latency_ms = obj (
    field "type" (str "mcp_fan_out") (
      field "fan_out_count" (num (pos_int fan_out_count)) (
        field "total_latency_ms" (num (pos_int total_latency_ms)) (
          field "success_count" (num (pos_int (success_count results))) (
            field "tools" (arr (of_list (map tool_metric results)))
              (field "timestamp" (str now) end))))))
