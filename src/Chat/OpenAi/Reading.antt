-- ===== src/Chat/OpenAi/Reading.antt =====
-- What a conversation read from an OpenAI payload looks like.
use red_eye_engine_gateway.Common.{
  Option, none, some, List, [], ◌∷◌, ◌++◌, String, str_eq, arith, ok, ok_or, ◌≡◌, ◌≢◌, refl, All,
  is_empty, bind_parts, OnOk, OnOk-bind, OnOk-any, OnOk-of, Bool-cases, inl, inr, if◌then◌else◌,
}
use red_eye_engine_gateway.Json.{Value}
use red_eye_engine_gateway.Chat.{Role, system, Message, Content, Conversation, parse_failed}
use red_eye_engine_gateway.Chat.OpenAi.{
  Serde, OpenAiMessage, read_role, read_message, read_messages, read_request, to_universal,
  close_contents, read_content, read_tool_calls, read_system,
}

-- A message that says something, and that is no system message.
abbrev pub IsReadable : Message → Type 0
IsReadable m = (m.content ≢ []) × (m.role ≢ system)

-- A tool message with an id holds one tool result and nothing else.
read_role-ne-system : (r : String) {role : Role} → read_role r ≡ ok role → role ≢ system
unfolding read_role
read_role-ne-system r h = ground arith

keep_message :
    (role : Role) (cs : List Content) {m : Message}
    → role ≢ system
    → (if is_empty cs then none else some (record { role = role; content = cs })) ≡ some m
    → IsReadable m
keep_message role [] h e = cc
keep_message role (c ∷ cs) h e = ground arith

module _ (serde : Serde) where
  read_message-IsReadable :
      (msg : OpenAiMessage) {m : Message} → read_message serde msg ≡ ok (some m) → IsReadable m
  unfolding read_message
  read_message-IsReadable msg {m} h =
      let (role, is_role, h₁) = bind_parts (read_role msg.role) _ h in
      let (calls, is_calls, h₂) = bind_parts (read_tool_calls serde msg.tool_calls) _ h₁ in
      keep_message role (close_contents role msg.tool_call_id (read_content msg.content ++ calls))
        (read_role-ne-system msg.role is_role) (cc)

  prepend-IsReadable :
      (one : Option Message) (rest : List Message)
      → ((m : Message) → one ≡ some m → IsReadable m)
      → All IsReadable rest
      → All IsReadable (elim one [ none ↦ rest | some m ↦ m ∷ rest ])
  prepend-IsReadable none rest h k = k
  prepend-IsReadable (some m) rest h k = (h m refl, k)

  read_messages-IsReadable :
      (prompt : Option String) (msgs : List OpenAiMessage)
      → OnOk (λ r. All IsReadable r.1) (read_messages serde prompt msgs)
  unfolding read_messages
  read_messages-IsReadable prompt [] = tt
  read_messages-IsReadable prompt (msg ∷ msgs) = elim (Bool-cases (str_eq msg.role "system")) [
    | inl is_system ↦
        rw (is_system, read_messages)
          (read_messages-IsReadable (read_system msg.content prompt) msgs)
    | inr other ↦
        rw (other, read_messages)
          (OnOk-bind (λ _. Unit {0}) (λ r. All IsReadable r.1) (read_message serde msg) _
            (OnOk-any _)
            (λ one is_one _.
              OnOk-bind (λ r. All IsReadable r.1) (λ r. All IsReadable r.1)
                (read_messages serde prompt msgs) _ (read_messages-IsReadable prompt msgs)
                (λ r _ h.
                  prepend-IsReadable one r.1 (λ m e. read_message-IsReadable msg (rw e at is_one))
                    h)))
  ]

-- Every message that the reader keeps has contents and is no system message: the system prompt is
-- taken out, and messages with nothing to say are left out.
pub to_universal-IsReadable :
    (serde : Serde) (payload : Value) {conv : Conversation}
    → to_universal serde payload ≡ ok conv
    → All IsReadable conv.messages
unfolding to_universal read_request
to_universal-IsReadable serde payload h =
    OnOk-of (λ c. All IsReadable c.messages)
      (OnOk-bind (λ _. Unit {0}) (λ c. All IsReadable c.messages)
        (ok_or (serde.from_value payload) parse_failed) (read_request serde) (OnOk-any _)
        (λ req _ _.
          OnOk-bind (λ r. All IsReadable r.1) (λ c. All IsReadable c.messages)
            (read_messages serde none req.messages) _
            (read_messages-IsReadable serde none req.messages) (λ r _ k. k)))
      h
