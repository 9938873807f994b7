-- ===== src/Chat/Anthropic/Alternation.antt =====
-- The messages of an Anthropic request alternate between the two roles, and nothing but dummies is
-- added to the conversation's own messages.
use mathlib.Core.List.{append_assoc, append-nil}
use red_eye_engine_gateway.Common.{
  true, false, none, some, List, [], ◌∷◌, ◌++◌, String, str_eq, eq_iff, arith, ◌≡◌, ◌≢◌, refl, ◌⊎◌,
  inl, inr, Bool-cases, eq_refl,
}
use red_eye_engine_gateway.Chat.{
  Role, Content, Conversation, Message, system, user, assistant, tool,
}
use red_eye_engine_gateway.Chat.Anthropic.{
  AnthropicMessage, anthropic_role, dummy_after, last_has, padded, converted, push_message,
  push_messages, write_request,
}

abbrev IsRole : String → Type 0
IsRole r = (r ≡ "user") ⊎ (r ≡ "assistant")

-- Neighbours have different roles, and every role is one of the two.
abbrev pub Alternates : List AnthropicMessage → Type 0
Alternates [] = Unit
Alternates (m ∷ []) = IsRole m.role
Alternates (m ∷ n ∷ ms) = IsRole m.role × (m.role ≢ n.role) × Alternates (n ∷ ms)

Alternates-push :
    (out : List AnthropicMessage) (m : AnthropicMessage)
    → Alternates out
    → IsRole m.role
    → last_has m.role out ≡ false
    → Alternates (out ++ m ∷ [])
Alternates-push [] m _ r _ = r
Alternates-push (x ∷ []) m h r l = (h, ne, r)
  where
    ne : x.role ≢ m.role
    ne e = cc (rw (e, eq_refl) at l)
Alternates-push (x ∷ y ∷ ys) m (h, d, hs) r l = (h, d, Alternates-push (y ∷ ys) m hs r l)

-- After a dummy the last message has the other role.
last_has-push :
    (out : List AnthropicMessage) (m : AnthropicMessage) (role : String)
    → last_has role (out ++ m ∷ []) ≡ str_eq m.role role
last_has-push [] m role = refl
last_has-push (x ∷ []) m role = refl
last_has-push (x ∷ y ∷ ys) m role = last_has-push (y ∷ ys) m role

dummy-IsRole : (role : String) → IsRole (dummy_after role).role
dummy-IsRole role = ground arith

dummy_other : (role : String) → IsRole role → str_eq (dummy_after role).role role ≡ false
dummy_other role (inl e) = rw e
dummy_other role (inr e) = rw e

dummy_last :
    (out : List AnthropicMessage) (role : String)
    → IsRole role
    → last_has role out ≡ true
    → last_has (dummy_after role).role out ≡ false
dummy_last [] role r h = cc
dummy_last (x ∷ []) role (inl e) h = rw ((eq_iff x.role role).0 h) (rw e)
dummy_last (x ∷ []) role (inr e) h = rw ((eq_iff x.role role).0 h) (rw e)
dummy_last (x ∷ y ∷ ys) role r h = dummy_last (y ∷ ys) role r h

padded-Alternates :
    (out : List AnthropicMessage) (role : String)
    → IsRole role
    → Alternates out
    → Alternates (padded role out) × (last_has role (padded role out) ≡ false)
padded-Alternates out role r h = elim (Bool-cases (last_has role out)) [
  | inl same ↦ rw same (
    Alternates-push out (dummy_after role) h (dummy-IsRole role) (dummy_last out role r same),
    rw last_has-push (dummy_other role r),
  )
  | inr other ↦ rw other (h, other)
]

push_role-Alternates :
    (out : List AnthropicMessage) (role : String) (msg : Message)
    → IsRole role
    → Alternates out
    → Alternates (padded role out ++ converted role msg ∷ [])
push_role-Alternates out role msg r h =
    let (kept, fresh) = padded-Alternates out role r h in
    Alternates-push (padded role out) (converted role msg) kept r fresh

push_message-Alternates :
    (out : List AnthropicMessage) (role : Role) (content : List Content)
    → Alternates out
    → Alternates (push_message out (record { role = role; content = content }))
push_message-Alternates out system content h = h
push_message-Alternates out user content h =
    push_role-Alternates out "user" (record { role = user; content = content }) (inl refl) h
push_message-Alternates out tool content h =
    push_role-Alternates out "user" (record { role = tool; content = content }) (inl refl) h
push_message-Alternates out assistant content h =
    push_role-Alternates out "assistant" (record { role = assistant; content = content }) (inr refl)
      h

push_messages-Alternates :
    (out : List AnthropicMessage) (msgs : List Message)
    → Alternates out
    → Alternates (push_messages out msgs)
unfolding push_messages
push_messages-Alternates out [] h = h
push_messages-Alternates out (msg ∷ msgs) h =
    push_messages-Alternates (push_message out msg) msgs
      (push_message-Alternates out msg.role msg.content h)

-- The messages of a conversation in the provider's words, system messages left out.
abbrev pub conversions : List Message → List AnthropicMessage
conversions [] = []
conversions (msg ∷ msgs) = elim (anthropic_role msg.role) [
  | none ↦ conversions msgs
  | some role ↦ converted role msg ∷ conversions msgs
]

-- `Padded xs ys`: `ys` is `xs` with dummies put between.
pub data Padded : List AnthropicMessage → List AnthropicMessage → Type 0 where
  done : Padded [] []
  real :
      {xs ys : List AnthropicMessage} (x : AnthropicMessage)
      → Padded xs ys
      → Padded (x ∷ xs) (x ∷ ys)
  dummy :
      {xs ys : List AnthropicMessage} (role : String)
      → Padded xs ys
      → Padded xs (dummy_after role ∷ ys)

Padded-append :
    {xs ys : List AnthropicMessage} {us vs : List AnthropicMessage}
    → Padded xs ys
    → Padded us vs
    → Padded (xs ++ us) (ys ++ vs)
Padded-append done q = q
Padded-append (real x p) q = real x (Padded-append p q)
Padded-append (dummy role p) q = dummy role (Padded-append p q)

Padded-padded :
    (role : String) {xs ys : List AnthropicMessage} → Padded xs ys → Padded xs (padded role ys)
Padded-padded role {xs} {ys} p = elim (Bool-cases (last_has role ys)) [
  | inl same ↦ rw same (rw (append-nil xs) at (Padded-append {us = []} p (dummy role done)))
  | inr other ↦ rw other p
]

Padded-role :
    (xs out : List AnthropicMessage) (role : String) (msg : Message) (msgs : List Message)
    → Padded xs out
    → (ys : List AnthropicMessage) × Padded ys (padded role out ++ converted role msg ∷ [])
      × (ys ++ conversions msgs ≡ xs ++ converted role msg ∷ conversions msgs)
Padded-role xs out role msg msgs p = (
  xs ++ converted role msg ∷ [],
  Padded-append (Padded-padded role p) (real (converted role msg) done),
  append_assoc xs (converted role msg ∷ []) (conversions msgs),
)

Padded-push :
    (xs out : List AnthropicMessage) (role : Role) (content : List Content) (msgs : List Message)
    → Padded xs out
    → let msg : Message = record { role = role; content = content } in
      (ys : List AnthropicMessage) × Padded ys (push_message out msg)
      × (ys ++ conversions msgs ≡ xs ++ conversions (msg ∷ msgs))
Padded-push xs out system content msgs p = (xs, p, refl)
Padded-push xs out user content msgs p =
    Padded-role xs out "user" (record { role = user; content = content }) msgs p
Padded-push xs out tool content msgs p =
    Padded-role xs out "user" (record { role = tool; content = content }) msgs p
Padded-push xs out assistant content msgs p =
    Padded-role xs out "assistant" (record { role = assistant; content = content }) msgs p

push_messages-Padded :
    (xs out : List AnthropicMessage) (msgs : List Message)
    → Padded xs out
    → Padded (xs ++ conversions msgs) (push_messages out msgs)
unfolding push_messages
push_messages-Padded xs out [] p = rw append-nil p
push_messages-Padded xs out (msg ∷ msgs) p =
    let (ys, q, e) = Padded-push xs out msg.role msg.content msgs p in
    rw e at (push_messages-Padded ys (push_message out msg) msgs q)

-- Whatever the conversation, the messages of the Anthropic request alternate between "user" and
-- "assistant", and they are the conversation's messages, converted and in order, system messages
-- left out, with dummies in between and nothing else.
pub write_request-Alternates :
    (conv : Conversation)
    → Alternates (write_request conv).messages
      × Padded (conversions conv.messages) (write_request conv).messages
unfolding write_request
write_request-Alternates conv =
    (push_messages-Alternates [] conv.messages tt, push_messages-Padded [] [] conv.messages done)
