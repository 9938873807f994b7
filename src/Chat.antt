-- ===== src/Chat.antt =====
-- The universal conversation of redeye_gateway/src/domain/models.rs, through which every
-- provider's format is translated, and the errors of infrastructure/translators.rs.
pub mod Tools
pub mod OpenAi
pub mod Anthropic
pub mod Gemini
mod Tests
use red_eye_engine_gateway.Common.{ℕ, Bool, Option, List, String}
use red_eye_engine_gateway.Json.{Value}

pub data Role : Type 0 where
  system user assistant tool : Role

pub data Content : Type 0 where
  text : String → Content
  image_url : String → Content
  tool_call : String → String → Value → Content
  tool_result : String → String → Content

pub record Message : Type 0 where
  pub role : Role
  pub content : List Content

-- `f64` fields are carried as bit patterns: the translators only copy them.
pub record Conversation : Type 0 where
  pub system_prompt : Option String
  pub messages : List Message
  pub tools : Option (List Value)
  pub temperature : Option ℕ
  pub top_p : Option ℕ
  pub max_tokens : Option ℕ
  pub stop : Option (List String)
  pub stream : Option Bool
  pub model : Option String

pub data TranslationError : Type 0 where
  parse_failed serialize_failed invalid_arguments not_implemented : TranslationError
  unknown_role : String → TranslationError
