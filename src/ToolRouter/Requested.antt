-- ===== src/ToolRouter/Requested.antt =====
-- The tools whose full schemas a conversation asks for: a gate of keywords on the assistant's last
-- words, and then the similarity of their embeddings.
use Prim.Native.Char.{Char}
use red_eye_engine_gateway.Common.{
  ℕ, Bool, false, not, Option, none, some, List, [], ◌∷◌, any, is_empty, String, str_eq, codes,
  contains, if◌then◌else◌, ◌>>=?◌, ◌&&◌,
}
use red_eye_engine_gateway.Json.{Value, get, get_str, as_array}
use red_eye_engine_gateway.ToolRouter.Embedding.{F32, compute_embedding, dot}
use red_eye_engine_gateway.ToolRouter.Registry.{ToolDescriptor, ToolRegistry}

abbrev pub keywords : List String
keywords =
    "parameter" ∷ "schema" ∷ "details" ∷ "definition" ∷ "arguments" ∷ "inputs" ∷ "how to use"
    ∷ "what does" ∷ []

abbrev pub is_assistant : Value → Bool
is_assistant message = elim (get_str "role" message) [
  | some role ↦ str_eq role "assistant"
  | none ↦ false
]

-- A message's content, if it is a text that is not empty.
abbrev pub words : Value → Option String
words message = elim (get_str "content" message) [
  | some s ↦ if str_eq s "" then none else some s
  | none ↦ none
]

-- `iter().rev()` with `find_map`: the last message that has words.
abbrev pub last_words : Option String → List Value → Option String
last_words found [] = found
last_words found (message ∷ rest) =
    if is_assistant message
    then elim (words message) [ some s ↦ last_words (some s) rest | none ↦ last_words found rest ]
    else last_words found rest

module _ (f : F32) (threshold : f.Float) (is_alphabetic : Char → Bool) (bytes : String → List ℕ)
    (to_lowercase : String → String) where
  abbrev pub similar_tools : List f.Float → List (ToolDescriptor (List f.Float)) → List String
  similar_tools query [] = []
  similar_tools query (d ∷ ds) =
      let rest = similar_tools query ds in
      if not (is_empty d.embedding) && f.at_least (dot f query d.embedding) threshold
      then d.name ∷ rest
      else rest

  abbrev pub requested_by : ToolRegistry (List f.Float) → String → List String
  requested_by registry content =
      if any (λ k. contains (codes k) (codes content)) keywords
      then similar_tools (compute_embedding f is_alphabetic bytes content) registry.tools
      else []

  unfoldable pub full_schema_requested_set : ToolRegistry (List f.Float) → Value → List String
  full_schema_requested_set registry body =
      elim (get "messages" body >>=? as_array >>=? last_words none) [
        | none ↦ []
        | some content ↦ requested_by registry (to_lowercase content)
      ]
