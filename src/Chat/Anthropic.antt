-- ===== src/Chat/Anthropic.antt =====
-- `AnthropicTranslator` of redeye_gateway/src/infrastructure/translators.rs: the universal
-- conversation as an Anthropic request, and Anthropic responses and stream events in the OpenAI
-- format.
pub mod Alternation
pub mod Responses
use red_eye_engine_gateway.Common.{
  ℕ, Bool, true, false, Option, none, some, List, [], ◌∷◌, ◌++◌, String, str_eq, if◌then◌else◌, map,
  Result, ok, err, ok_or, unwrap_or,
}
use red_eye_engine_gateway.Json.{Value}
use red_eye_engine_gateway.Chat.{
  Role, system, user, assistant, tool, Content, text, image_url, tool_call, tool_result, Message,
  Conversation, TranslationError, serialize_failed, not_implemented,
}
use red_eye_engine_gateway.Chat.Tools.{map_openai_tools_to_anthropic}

pub record ImageSource : Type 0 where
  pub type : String
  pub media_type : String
  pub bytes : String

pub data AnthropicContent : Type 0 where
  said : String → AnthropicContent
  image : ImageSource → AnthropicContent
  tool_use : String → String → Value → AnthropicContent
  result : String → String → AnthropicContent

pub record AnthropicMessage : Type 0 where
  pub role : String
  pub content : List AnthropicContent

pub record AnthropicRequest : Type 0 where
  pub system : Option String
  pub messages : List AnthropicMessage
  pub tools : Option (List Value)
  pub temperature : Option ℕ
  pub top_p : Option ℕ
  pub max_tokens : ℕ
  pub stop_sequences : Option (List String)
  pub stream : Option Bool
  pub model : Option String

-- `None` is the `continue` of the loop.
abbrev pub anthropic_role : Role → Option String
anthropic_role system = none
anthropic_role user = some "user"
anthropic_role tool = some "user"
anthropic_role assistant = some "assistant"

abbrev pub convert_content : Content → AnthropicContent
convert_content (text s) = said s
convert_content (image_url url) =
    image (record { type = "url"; media_type = "image/jpeg"; bytes = url })
convert_content (tool_call id name arguments) = tool_use id name arguments
convert_content (tool_result id s) = result id s

abbrev pub dummy_after : String → AnthropicMessage
dummy_after role = record {
  role = if str_eq role "user" then "assistant" else "user";
  content = said "<dummy>" ∷ [];
}

abbrev pub last_has : String → List AnthropicMessage → Bool
last_has role [] = false
last_has role (m ∷ []) = str_eq m.role role
last_has role (m ∷ n ∷ ms) = last_has role (n ∷ ms)

-- The dummy that is pushed first when the last message has the role of the next one.
abbrev pub padded : String → List AnthropicMessage → List AnthropicMessage
padded role out = if last_has role out then out ++ dummy_after role ∷ [] else out

abbrev pub converted : String → Message → AnthropicMessage
converted role msg = record { role = role; content = map convert_content msg.content }

-- One round of the loop of `from_universal`.
abbrev pub push_message : List AnthropicMessage → Message → List AnthropicMessage
push_message out msg = elim (anthropic_role msg.role) [
  | none ↦ out
  | some role ↦ padded role out ++ converted role msg ∷ []
]

unfoldable pub push_messages : List AnthropicMessage → List Message → List AnthropicMessage
push_messages out [] = out
push_messages out (msg ∷ msgs) = push_messages (push_message out msg) msgs

unfoldable pub write_request : Conversation → AnthropicRequest
unfolding push_messages
write_request conv = record {
  system = conv.system_prompt;
  messages = push_messages [] conv.messages;
  tools = map_openai_tools_to_anthropic conv.tools;
  temperature = conv.temperature;
  top_p = conv.top_p;
  max_tokens = unwrap_or conv.max_tokens 4096;
  stop_sequences = conv.stop;
  stream = conv.stream;
  model = conv.model;
}

-- `serde_json::to_value` is a parameter.
unfoldable pub from_universal :
    (AnthropicRequest → Option Value) → Conversation → Result TranslationError Value
unfolding write_request
from_universal to_value conv = ok_or (to_value (write_request conv)) serialize_failed

unfoldable pub to_universal : Value → Result TranslationError Conversation
to_universal payload = err not_implemented
