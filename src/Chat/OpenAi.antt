-- ===== src/Chat/OpenAi.antt =====
-- `OpenAiTranslator` of redeye_gateway/src/infrastructure/translators.rs: requests in the OpenAI
-- format to the universal conversation and back.
pub mod Reading
pub mod Roundtrip
use Prim.Native.String
use red_eye_engine_gateway.Common.{
  ℕ, Bool, true, false, Option, none, some, List, [], ◌∷◌, ◌++◌, String, str_eq, if◌then◌else◌,
  Result, ◌||◌, is_empty, map, ok, err, ◌>>=◌, ok_or, ◌>>=?◌,
}
use red_eye_engine_gateway.Json.{Value, Items, str, arr, nil, cons, get, get_str}
use red_eye_engine_gateway.Chat.{
  Role, system, user, assistant, tool, Content, text, image_url, tool_call, tool_result, Message,
  Conversation, TranslationError, parse_failed, serialize_failed, invalid_arguments, unknown_role,
}

pub record FunctionCall : Type 0 where
  pub name : String
  pub arguments : String

pub record ToolCall : Type 0 where
  pub id : String
  pub type : String
  pub function : FunctionCall

pub record OpenAiMessage : Type 0 where
  pub role : String
  pub content : Option Value
  pub tool_calls : Option (List ToolCall)
  pub tool_call_id : Option String

pub record ChatRequest : Type 0 where
  pub messages : List OpenAiMessage
  pub tools : Option (List Value)
  pub temperature : Option ℕ
  pub top_p : Option ℕ
  pub max_tokens : Option ℕ
  pub stop : Option (List String)
  pub stream : Option Bool
  pub model : Option String

-- The parts of `serde_json` and of the derived serialisers that the translator calls.
pub record Serde : Type 0 where
  pub from_str : String → Option Value
  pub to_string : Value → String
  pub from_value : Value → Option ChatRequest
  pub to_value : ChatRequest → Option Value

-- `type == "text"` of a content part
abbrev text_part : Value → Option String
text_part part = elim (get_str "type" part) [
  | none ↦ none
  | some t ↦ if str_eq t "text" then get_str "text" part else none
]

-- The first text part of a system message's content array.
abbrev first_text : Items → Option String
first_text nil = none
first_text (cons part parts) = elim (text_part part) [ none ↦ first_text parts | some s ↦ some s ]

-- What the "system" arm makes of the prompt read so far.
unfoldable pub read_system : Option Value → Option String → Option String
read_system (some (str s)) prompt = some s
read_system (some (arr parts)) prompt = elim (first_text parts) [ none ↦ prompt | some s ↦ some s ]
read_system _ prompt = prompt

abbrev read_part : Value → List Content
read_part part = elim (get_str "type" part) [
  | none ↦ []
  | some t ↦
      if str_eq t "text"
      then elim (get_str "text" part) [ none ↦ [] | some s ↦ text s ∷ [] ]
      else if str_eq t "image_url"
      then elim (get "image_url" part >>=? get_str "url") [ none ↦ [] | some u ↦ image_url u ∷ [] ]
      else []
]

abbrev read_parts : Items → List Content
read_parts nil = []
read_parts (cons part parts) = read_part part ++ read_parts parts

unfoldable pub read_content : Option Value → List Content
read_content (some (str s)) = if str_eq s "" then [] else text s ∷ []
read_content (some (arr parts)) = read_parts parts
read_content _ = []

abbrev texts : List Content → String
texts [] = ""
texts (text s ∷ cs) = String.◌++◌ s (texts cs)
texts (_ ∷ cs) = texts cs

-- The tail of the loop body: a tool message with an id becomes one tool result.
unfoldable pub close_contents : Role → Option String → List Content → List Content
close_contents tool (some id) cs = tool_result id (texts cs) ∷ []
close_contents _ _ cs = cs

unfoldable pub read_role : String → Result TranslationError Role
read_role r =
    if str_eq r "user"
    then ok user
    else if str_eq r "assistant"
    then ok assistant
    else if str_eq r "tool" || str_eq r "function"
    then ok tool
    else err (unknown_role r)

module _ (serde : Serde) where
  unfoldable pub read_calls : List ToolCall → Result TranslationError (List Content)
  read_calls [] = ok []
  read_calls (tc ∷ tcs) = do
    args ← ok_or (serde.from_str tc.function.arguments) invalid_arguments
    rest ← read_calls tcs
    ok (tool_call tc.id tc.function.name args ∷ rest)

  -- `if let Some(tool_calls) = msg.tool_calls`
  abbrev read_tool_calls : Option (List ToolCall) → Result TranslationError (List Content)
  read_tool_calls none = ok []
  read_tool_calls (some tcs) = read_calls tcs

  -- One message that is not a system message; `none` is a message left out because it is empty.
  unfoldable pub read_message : OpenAiMessage → Result TranslationError (Option Message)
  unfolding read_calls read_content close_contents read_role
  read_message msg = do
    role ← read_role msg.role
    calls ← read_tool_calls msg.tool_calls
    let contents = close_contents role msg.tool_call_id (read_content msg.content ++ calls)
    ok (if is_empty contents then none else some (record { role = role; content = contents }))

  -- The loop of `to_universal`.
  unfoldable pub read_messages :
      Option String → List OpenAiMessage → Result TranslationError (Option String × List Message)
  read_messages prompt [] = ok (prompt, [])
  read_messages prompt (msg ∷ msgs) = elim (str_eq msg.role "system") [
    | true ↦ read_messages (read_system msg.content prompt) msgs
    | false ↦ do
      one ← read_message msg
      (final, rest) ← read_messages prompt msgs
      ok (final, elim one [ none ↦ rest | some m ↦ m ∷ rest ])
  ]

  unfoldable pub read_request : ChatRequest → Result TranslationError Conversation
  unfolding read_messages read_message read_system
  read_request req = do
    (prompt, messages) ← read_messages none req.messages
    ok (record {
      system_prompt = prompt;
      messages = messages;
      tools = req.tools;
      temperature = req.temperature;
      top_p = req.top_p;
      max_tokens = req.max_tokens;
      stop = req.stop;
      stream = req.stream;
      model = req.model;
    })

  unfoldable pub to_universal : Value → Result TranslationError Conversation
  unfolding read_request
  to_universal payload = do req ← ok_or (serde.from_value payload) parse_failed; read_request req

-- The three variables of the inner loop of `from_universal`.
pub record Draft : Type 0 where
  pub text_content : String
  pub tool_calls : List ToolCall
  pub tool_call_id : Option String

-- `push('\n')` unless the text is empty, then `push_str`
abbrev pub join_line : String → String → String
join_line acc s = if str_eq acc "" then s else String.◌++◌ acc (String.◌++◌ "\n" s)

abbrev pub write_call : (Value → String) → String → String → Value → ToolCall
write_call to_string id name args = record {
  id = id;
  type = "function";
  function = record { name = name; arguments = to_string args };
}

abbrev pub role_name : Role → String
role_name system = "system"
role_name user = "user"
role_name assistant = "assistant"
role_name tool = "tool"

abbrev pub none_if_empty : List ToolCall → Option (List ToolCall)
none_if_empty [] = none
none_if_empty (c ∷ cs) = some (c ∷ cs)

module _ (serde : Serde) where
  abbrev pub write_content : Content → Draft → Draft
  write_content (text s) d = record d { text_content = join_line d.text_content s }
  write_content (image_url _) d = d
  write_content (tool_call id name args) d = record d {
    tool_calls = d.tool_calls ++ write_call serde.to_string id name args ∷ [];
  }
  write_content (tool_result id s) d = record d {
    tool_call_id = some id;
    text_content = join_line d.text_content s;
  }

  abbrev pub write_contents : List Content → Draft → Draft
  write_contents [] d = d
  write_contents (c ∷ cs) d = write_contents cs (write_content c d)

  abbrev pub close_draft : Role → Draft → OpenAiMessage
  close_draft role d = record {
    role = role_name role;
    content = if str_eq d.text_content "" then none else some (str d.text_content);
    tool_calls = none_if_empty d.tool_calls;
    tool_call_id = d.tool_call_id;
  }

  unfoldable pub write_message : Message → OpenAiMessage
  write_message msg = close_draft msg.role (
      write_contents msg.content
        (record { text_content = ""; tool_calls = []; tool_call_id = none }))

  abbrev pub write_prompt : Option String → List OpenAiMessage
  write_prompt none = []
  write_prompt (some s) =
      record { role = "system"; content = some (str s); tool_calls = none; tool_call_id = none }
      ∷ []

  unfoldable pub write_request : Conversation → ChatRequest
  unfolding write_message
  write_request conv = record {
    messages = write_prompt conv.system_prompt ++ map write_message conv.messages;
    tools = conv.tools;
    temperature = conv.temperature;
    top_p = conv.top_p;
    max_tokens = conv.max_tokens;
    stop = conv.stop;
    stream = conv.stream;
    model = conv.model;
  }

  unfoldable pub from_universal : Conversation → Result TranslationError Value
  unfolding write_request
  from_universal conv = ok_or (serde.to_value (write_request conv)) serialize_failed
