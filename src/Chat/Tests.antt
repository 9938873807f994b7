-- ===== src/Chat/Tests.antt =====
-- The translators on concrete conversations.
use red_eye_engine_gateway.Common.{
  none, some, List, [], ◌∷◌, String, ◌≡◌, ◌≢◌, refl, ok, ◌>>=◌, All, map, arith, eq_iff,
}
use red_eye_engine_gateway.Json.{Value, null, num, pos_int, str, arr, obj, nil, cons, end, field}
use red_eye_engine_gateway.Chat.{Conversation, assistant, text}
use red_eye_engine_gateway.Chat.Anthropic
use red_eye_engine_gateway.Chat.Anthropic.Alternation.{
  Alternates, Padded, conversions, write_request-Alternates,
}
use red_eye_engine_gateway.Chat.OpenAi.{Serde, to_universal, from_universal}
use red_eye_engine_gateway.Chat.OpenAi.Roundtrip.{
  Call, Plain, said, answered, calls, by_user, by_assistant, plain_message,
  to_universal-from_universal,
}
use red_eye_engine_gateway.Chat.OpenAi.Reading.{IsReadable, to_universal-IsReadable}
use red_eye_engine_gateway.Chat.OpenAi.{write_request}

hi-ne-nil : ◌≢◌ {A = String} "hi" ""
hi-ne-nil = ground (arith, eq_iff "hi" "")

abbrev look_up : Call
look_up = record { id = "call1"; name = "look"; arguments = null }

abbrev greeting : List Plain
greeting = said by_user "hi" hi-ne-nil [] ∷ calls by_assistant look_up [] ∷ answered "call1" "" ∷ []

abbrev conversation : Conversation
conversation = record {
  system_prompt = some "be brief";
  messages = map plain_message greeting;
  tools = none;
  temperature = some 1;
  top_p = none;
  max_tokens = some 64;
  stop = none;
  stream = none;
  model = some "gpt-4";
}

abbrev null_text : Serde
null_text = record {
  from_str = λ s. some null;
  to_string = λ v. "null";
  from_value = λ v. none;
  to_value = λ r. none;
}

-- A library that carries this one request.
abbrev one_request : Serde
one_request = record null_text {
  from_value = λ v. some (unfold write_request in write_request null_text conversation);
  to_value = λ r. some null;
}

to_universal-from_universal_example :
    (from_universal one_request conversation >>= to_universal one_request) ≡ ok conversation
to_universal-from_universal_example =
    to_universal-from_universal one_request conversation greeting refl (tt, ((refl, tt), (tt, tt)))
      (unfold write_request in refl)

to_universal_reads : to_universal one_request null ≡ ok conversation
unfolding to_universal write_request
to_universal_reads = refl

to_universal-IsReadable_example : All IsReadable conversation.messages
to_universal-IsReadable_example = to_universal-IsReadable one_request null to_universal_reads

-- An assistant's first message, after which the same role speaks again.
abbrev monologue : Conversation
monologue = record conversation {
  messages =
      record { role = assistant; content = text "a" ∷ [] }
      ∷ record { role = assistant; content = text "b" ∷ [] }
      ∷ [];
}

write_request-Alternates_example :
    Alternates (Anthropic.write_request monologue).messages
    × Padded (conversions monologue.messages) (Anthropic.write_request monologue).messages
write_request-Alternates_example = write_request-Alternates monologue

abbrev provider_answer : Value
provider_answer = obj (
    field "content" (arr (cons (obj (field "type" (str "text") (field "text" (str "hi") end))) nil))
      (field "usage"
        (obj (field "input_tokens" (num (pos_int 3)) (field "output_tokens" (num (pos_int 4)) end)))
        end))
