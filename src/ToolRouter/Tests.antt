-- ===== src/ToolRouter/Tests.antt =====
-- Runs of the tool router on one tool.
use red_eye_engine_gateway.Common.{ℕ, ◌≡◌, refl, Option, none, some, List, [], ◌∷◌, String, codes}
use red_eye_engine_gateway.Json.{Value, str, obj, arr, end, field, nil, cons}
use red_eye_engine_gateway.Json.Maps.{IsMap}
use red_eye_engine_gateway.ToolRouter.Registry.{
  ToolDescriptor, ToolRegistry, lookup, from_env, embed_all,
}
use red_eye_engine_gateway.ToolRouter.Registry.Index.{last_named, lookup-from_env}
use red_eye_engine_gateway.ToolRouter.Injection.{inject_lazy_summaries, phantom_tool_descriptor}
use red_eye_engine_gateway.ToolRouter.Injection.Whole.{IsInjected, inject_lazy_summaries-IsInjected}
use red_eye_engine_gateway.ToolRouter.Phantom.{intercept_phantom_call, synthetic}

abbrev jira : ToolDescriptor ℕ
jira = record { name = "jira"; summary = "Search."; schema = some (obj end); embedding = 0 }

abbrev wiki : ToolDescriptor ℕ
wiki = record { name = "wiki"; summary = "Read."; schema = none; embedding = 0 }

abbrev newer : ToolDescriptor ℕ
newer = record { name = "jira"; summary = "Find."; schema = none; embedding = 0 }

abbrev compute : String → ℕ
compute text = 7

abbrev parse : String → Option (List (ToolDescriptor ℕ))
parse raw = some (jira ∷ wiki ∷ newer ∷ [])

lookup-from_env_example :
    lookup (from_env compute parse (some "[..]")) "jira"
    ≡ some (last_named "jira" none (embed_all compute (jira ∷ wiki ∷ newer ∷ [])))
lookup-from_env_example =
    lookup-from_env compute parse "[..]" (jira ∷ wiki ∷ newer ∷ []) "jira" refl

abbrev registry : ToolRegistry ℕ
registry = record { tools = jira ∷ []; index = ("jira", 0) ∷ [] }

abbrev request : Value
request = obj (
    field "tools"
      (arr (
        cons
          (obj (
            field "type" (str "function") (
              field "function" (obj (field "name" (str "jira") (field "parameters" (obj end) end)))
                end)))
          nil))
      end)

abbrev sent : Value
sent = obj (
    field "tools"
      (arr (
        cons
          (obj (
            field "type" (str "function") (
              field "function"
                (obj (
                  field "name" (str "jira")
                    (field "description" (str "Available Tool: jira — Search.") end)))
                end)))
          (cons phantom_tool_descriptor nil)))
      end)

abbrev read : Value → Option Value
read bytes = some request

abbrev nothing : ToolRegistry ℕ → Value → List String
nothing _ body = []

inject_sends : inject_lazy_summaries read some nothing registry request ≡ some (some sent)
unfolding inject_lazy_summaries lookup
inject_sends = refl

read-IsMap : (bytes v : Value) → read bytes ≡ some v → IsMap v
read-IsMap bytes v h =
    let eq : v ≡ request = cc in
    rw eq ((refl, ((refl, tt, (refl, (refl, tt, (refl, tt, tt)), tt)), tt), tt))

inject_lazy_summaries-IsInjected_example : IsInjected read some nothing registry request sent
inject_lazy_summaries-IsInjected_example =
    inject_lazy_summaries-IsInjected read some nothing read-IsMap registry request sent inject_sends

-- A response whose first tool call is the phantom's, and the answer to it.
abbrev called : Value
called = obj (
    field "choices"
      (arr (
        cons
          (obj (
            field "message"
              (obj (
                field "tool_calls"
                  (arr (
                    cons
                      (obj (field "function" (obj (field "name" (str "get_tool_details") end)) end))
                      nil))
                  end))
              end))
          nil))
      end)

abbrev arguments : String → Option Value
arguments text = some (obj (field "tool_name" (str "jira") end))

intercept_answers :
    intercept_phantom_call
      (λ v. "{}")
      (λ b. some called)
      arguments
      some
      registry
      (codes "get_tool_details")
    ≡ some (some (synthetic (λ v. "{}") called jira))
unfolding intercept_phantom_call lookup
intercept_answers = refl
