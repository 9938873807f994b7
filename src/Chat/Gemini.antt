-- ===== src/Chat/Gemini.antt =====
-- `GeminiTranslator` of redeye_gateway/src/infrastructure/translators.rs: the universal
-- conversation as a Gemini request, and a Gemini response in the OpenAI format.
use red_eye_engine_gateway.Common.{
  Option, none, some, List, [], ◌∷◌, String, map, Result, ok, err, ◌>>=?◌, unwrap_or,
}
use red_eye_engine_gateway.Json.{
  Value, Items, Fields, num, pos_int, float, str, arr, obj, nil, cons, end, field, get, get_str,
  get_index, of_list,
}
use red_eye_engine_gateway.Chat.{
  Role, system, user, assistant, tool, Content, text, Message, Conversation, TranslationError,
  not_implemented,
}
use red_eye_engine_gateway.Chat.Anthropic.Responses.{completion}

abbrev gemini_role : Role → String
gemini_role system = "user"
gemini_role user = "user"
gemini_role assistant = "model"
gemini_role tool = "model"

abbrev text_part : String → Value
text_part s = obj (field "text" (str s) end)

-- Only texts are carried over.
abbrev parts : List Content → Items
parts [] = nil
parts (text s ∷ cs) = cons (text_part s) (parts cs)
parts (_ ∷ cs) = parts cs

abbrev write_message : Message → Value
write_message msg =
    obj (field "role" (str (gemini_role msg.role)) (field "parts" (arr (parts msg.content)) end))

abbrev when_some {ℓ} : {A : Type ℓ} → String → (A → Value) → Option A → Fields → Fields
when_some k f none fs = fs
when_some k f (some a) fs = field k (f a) fs

-- `serde_json::Map` without entries sends no `generationConfig`.
abbrev generation_config : Conversation → Fields
generation_config conv =
    when_some "temperature" (λ t. num (float t)) conv.temperature
      (when_some "topP" (λ t. num (float t)) conv.top_p
        (when_some "maxOutputTokens" (λ n. num (pos_int n)) conv.max_tokens
          (when_some "stopSequences" (λ s. arr (of_list (map str s))) conv.stop end)))

abbrev when_filled : String → Fields → Fields
when_filled k end = end
when_filled k (field j v fs) = field k (obj (field j v fs)) end

abbrev system_instruction : String → Value
system_instruction sp = obj (field "parts" (arr (cons (text_part sp) nil)) end)

unfoldable pub from_universal : Conversation → Result TranslationError Value
from_universal conv = ok (
    obj (
      field "contents" (arr (of_list (map write_message conv.messages))) (
        when_some "systemInstruction" system_instruction conv.system_prompt
          (when_filled "generationConfig" (generation_config conv)))))

unfoldable pub to_universal : Value → Result TranslationError Conversation
to_universal payload = err not_implemented

unfoldable pub unify_response : Value → Value
unify_response raw =
    let content : String =
      unwrap_or
        (get "candidates" raw
          >>=? get_index 0
          >>=? get "content"
          >>=? get "parts"
          >>=? get_index 0
          >>=? get_str "text")
        "" in
    completion "chatcmpl-gemini" "gemini"
      (field "role" (str "assistant") (field "content" (str content) end)) "stop" 0 0 0
