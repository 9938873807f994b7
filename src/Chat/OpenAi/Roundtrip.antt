-- ===== src/Chat/OpenAi/Roundtrip.antt =====
-- Writing a conversation as an OpenAI request and reading that request again.
use mathlib.Core.List.{append_assoc, append-nil}
use red_eye_engine_gateway.Common.{
  false, Option, none, some, List, [], ◌∷◌, ◌++◌, String, str_eq, eq_iff, arith, ok, ◌>>=◌, map,
  ◌≡◌, ◌≢◌, refl, sym, ap, ◌>>=?◌, Bool-cases, Option-cases, inl, inr, text_append-nil, All,
}
use red_eye_engine_gateway.Json.{Value}
use red_eye_engine_gateway.Chat.{
  Role, user, assistant, tool, Content, text, tool_call, tool_result, Message, Conversation,
}
use red_eye_engine_gateway.Chat.OpenAi.{
  Serde, ToolCall, Draft, read_calls, read_message, read_messages, read_request, to_universal,
  write_call, write_contents, write_message, write_request, write_prompt, from_universal,
  read_system, read_tool_calls, none_if_empty, read_content,
}

-- A tool call before it is put into a message.
pub record Call : Type 0 where
  pub id : String
  pub name : String
  pub arguments : Value

abbrev pub called : Call → Content
called c = tool_call c.id c.name c.arguments

pub data Speaker : Type 0 where
  by_user by_assistant : Speaker

abbrev pub speaker_role : Speaker → Role
speaker_role by_user = user
speaker_role by_assistant = assistant

-- The messages that the OpenAI format can carry: someone says something and may call tools, or
-- only calls tools, or a tool answers.
pub data Plain : Type 0 where
  said : Speaker → (s : String) → s ≢ "" → List Call → Plain
  calls : Speaker → Call → List Call → Plain
  answered : String → String → Plain

abbrev pub plain_message : Plain → Message
plain_message (said who s _ cs) = record {
  role = speaker_role who;
  content = text s ∷ map called cs;
}
plain_message (calls who c cs) = record {
  role = speaker_role who;
  content = called c ∷ map called cs;
}
plain_message (answered id s) = record { role = tool; content = tool_result id s ∷ [] }

ne→str_eq : (s t : String) → s ≢ t → str_eq s t ≡ false
ne→str_eq s t h = ground (arith, eq_iff s t)

-- The tool calls of a message.
abbrev pub calls_of : Plain → List Call
calls_of (said who s _ cs) = cs
calls_of (calls who c cs) = c ∷ cs
calls_of (answered id s) = []

-- The library prints the arguments of a call so that it reads them back.
abbrev pub IsPrintable : Serde → Call → Type 0
IsPrintable serde c = serde.from_str (serde.to_string c.arguments) ≡ some c.arguments

module _ (serde : Serde) where
  abbrev written : Call → ToolCall
  written c = write_call serde.to_string c.id c.name c.arguments

  write_contents-called :
      (cs : List Call) (d : Draft)
      → write_contents serde (map called cs) d
        ≡ record d { tool_calls = d.tool_calls ++ map written cs }
  write_contents-called [] d = rw append-nil
  write_contents-called (c ∷ cs) d =
      rw (write_contents-called cs (record d { tool_calls = d.tool_calls ++ written c ∷ [] }))
        (rw append_assoc)

  read_calls-written :
      (cs : List Call)
      → All (IsPrintable serde) cs
      → read_calls serde (map written cs) ≡ ok (map called cs)
  unfolding read_calls
  read_calls-written [] _ = refl
  read_calls-written (c ∷ cs) (h, hs) = rw h (rw (read_calls-written cs hs))

  read_tool_calls-written :
      (cs : List Call)
      → All (IsPrintable serde) cs
      → read_tool_calls serde (none_if_empty (map written cs)) ≡ ok (map called cs)
  unfolding read_calls
  read_tool_calls-written [] _ = refl
  read_tool_calls-written (c ∷ cs) h = read_calls-written (c ∷ cs) h

  read_message-said :
      (who : Speaker) (s : String) (h : s ≢ "") (cs : List Call)
      → All (IsPrintable serde) cs
      → read_message serde (write_message serde (plain_message (said who s h cs)))
        ≡ ok (some (plain_message (said who s h cs)))
  unfolding read_message write_message
  read_message-said by_user s h cs k =
      simp (write_contents-called, read_tool_calls-written cs k, ne→str_eq s "" h)
  read_message-said by_assistant s h cs k =
      simp (write_contents-called, read_tool_calls-written cs k, ne→str_eq s "" h)

  read_message-calls :
      (who : Speaker) (c : Call) (cs : List Call)
      → All (IsPrintable serde) (c ∷ cs)
      → read_message serde (write_message serde (plain_message (calls who c cs)))
        ≡ ok (some (plain_message (calls who c cs)))
  unfolding read_message write_message read_calls
  read_message-calls by_user c cs (k, ks) =
      simp (write_contents-called, k, read_calls-written cs ks)
  read_message-calls by_assistant c cs (k, ks) =
      simp (write_contents-called, k, read_calls-written cs ks)

  read_message-answered :
      (id s : String)
      → read_message serde (write_message serde (plain_message (answered id s)))
        ≡ ok (some (plain_message (answered id s)))
  unfolding read_message write_message read_content
  read_message-answered id s = elim (Bool-cases (str_eq s "")) [
    | inl e ↦ simp e (
        ap (λ (t : String). ok (some (record { role = tool; content = tool_result id t ∷ [] })))
          (sym ((eq_iff s "").0 e)))
    | inr e ↦ simp (e, text_append-nil)
  ]

  read_message-plain :
      (p : Plain)
      → All (IsPrintable serde) (calls_of p)
      → read_message serde (write_message serde (plain_message p)) ≡ ok (some (plain_message p))
  read_message-plain (said who s h cs) k = read_message-said who s h cs k
  read_message-plain (calls who c cs) k = read_message-calls who c cs k
  read_message-plain (answered id s) k = read_message-answered id s

  -- No written message is taken for a system message.
  role-plain : (p : Plain) → str_eq (write_message serde (plain_message p)).role "system" ≡ false
  unfolding write_message
  role-plain (said by_user s h cs) = refl
  role-plain (said by_assistant s h cs) = refl
  role-plain (calls by_user c cs) = refl
  role-plain (calls by_assistant c cs) = refl
  role-plain (answered id s) = refl

  abbrev pub ArePrintable : List Plain → Type 0
  ArePrintable = All (λ p. All (IsPrintable serde) (calls_of p))

  read_messages-plain :
      (prompt : Option String) (ps : List Plain)
      → ArePrintable ps
      → read_messages serde prompt (map (write_message serde) (map plain_message ps))
        ≡ ok (prompt, map plain_message ps)
  unfolding read_messages
  read_messages-plain prompt [] _ = refl
  read_messages-plain prompt (p ∷ ps) (k, ks) =
      rw (role-plain p, read_messages)
        (rw (read_message-plain p k) (rw (read_messages-plain prompt ps ks)))

  read_messages-written :
      (prompt : Option String) (ps : List Plain) (ms : List Message)
      → ArePrintable ps
      → ms ≡ map plain_message ps
      → read_messages serde none (write_prompt serde prompt ++ map (write_message serde) ms)
        ≡ ok (prompt, ms)
  unfolding read_messages read_system
  read_messages-written none ps ms k e = rw e (read_messages-plain none ps k)
  read_messages-written (some s) ps ms k e = rw e (read_messages-plain (some s) ps k)

  read_request-write_request :
      (conv : Conversation) (ps : List Plain)
      → ArePrintable ps
      → conv.messages ≡ map plain_message ps
      → read_request serde (write_request serde conv) ≡ ok conv
  unfolding read_request write_request
  read_request-write_request conv ps k e =
      rw (read_messages-written conv.system_prompt ps conv.messages k e)

-- A conversation of plain messages, written as an OpenAI payload and read again, is the same
-- conversation: prompt, messages in order, tools and every sampling field. It rests on the JSON
-- library's own round trips, of the calls' argument texts and of the written request.
pub to_universal-from_universal :
    (serde : Serde) (conv : Conversation) (ps : List Plain)
    → conv.messages ≡ map plain_message ps
    → ArePrintable serde ps
    → (serde.to_value (write_request serde conv) >>=? serde.from_value)
      ≡ some (write_request serde conv)
    → (from_universal serde conv >>= to_universal serde) ≡ ok conv
unfolding from_universal to_universal
to_universal-from_universal serde conv ps e printable carried =
    elim (Option-cases (serde.to_value (write_request serde conv))) [
      | inl missing ↦ absurd (unwritten missing)
      | inr (v, written_as) ↦
          rw written_as
            (rw (parsed v written_as) (read_request-write_request serde conv ps printable e))
    ]
  where
    unwritten : serde.to_value (write_request serde conv) ≡ none → ⊥
    unwritten m = cc (rw m at carried)

    parsed :
        (v : Value)
        → serde.to_value (write_request serde conv) ≡ some v
        → serde.from_value v ≡ some (write_request serde conv)
    parsed v m = rw m at carried
