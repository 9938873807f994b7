-- ===== src/ToolRouter/Injection/Stripped.antt =====
-- What the injection does to each tool of a request.
use red_eye_engine_gateway.Common.{
  Bool, true, false, Option, none, some, List, any, String, str_eq, ◌>>=?◌, ◌||◌, ◌≡◌, refl, sym,
  ap, ◌∙◌, inl, inr, Bool-cases, Option-cases,
}
use red_eye_engine_gateway.Json.{
  Value, Fields, Items, str, obj, nil, cons, get, insert_field, remove_field, update,
}
use red_eye_engine_gateway.Json.Lookup.{find-insert, find-insert-other}
use red_eye_engine_gateway.Json.Maps.{IsMap, AreFields, AreItems, get-IsMap}
use red_eye_engine_gateway.ToolRouter.Registry.{ToolDescriptor, ToolRegistry, lookup}
use red_eye_engine_gateway.ToolRouter.Injection.{
  tool_name, summary_line, change_function, strip, process_registered, process_found, process_tool,
  process_tools,
}
use red_eye_engine_gateway.ToolRouter.Injection.Changes.{
  inside, IsChanged, change_function-object, tool_name-object, inside-update, update-IsChanged,
  strip-other, strip-parameters, unchanged-IsChanged,
}

abbrev pub or_else : Option Value → Option Value → Option Value
or_else none o = o
or_else (some v) o = some v

module _ {Embedding : Type 0} (registry : ToolRegistry Embedding) (full : List String) where
  -- A tool of the request and what is sent for it.
  pub data IsServed : Value → Value → Type 0 where
    left : (tool : Value) → tool_name tool ≡ none → IsServed tool tool
    unregistered :
        (tool : Value) (name : String)
        → tool_name tool ≡ some name
        → lookup registry name ≡ some none
        → IsServed tool tool
    with_schema :
        (tool tool' : Value) (name : String) (d : ToolDescriptor Embedding)
        → tool_name tool ≡ some name
        → lookup registry name ≡ some (some d)
        → any (λ n. str_eq n name) full ≡ true
        → inside "parameters" tool' ≡ or_else d.schema (inside "parameters" tool)
        → IsChanged (str_eq "parameters") tool tool'
        → IsServed tool tool'
    summarised :
        (tool tool' : Value) (name : String) (d : ToolDescriptor Embedding)
        → tool_name tool ≡ some name
        → lookup registry name ≡ some (some d)
        → any (λ n. str_eq n name) full ≡ false
        → inside "parameters" tool' ≡ none
        → inside "description" tool' ≡ some (str (summary_line name d.summary))
        → IsChanged (λ k. str_eq "parameters" k || str_eq "description" k) tool tool'
        → IsServed tool tool'

  schema-IsServed :
      (tool : Value) (name : String) (d : ToolDescriptor Embedding) (fs : Fields) (schema : Value)
      → tool_name tool ≡ some name
      → get "function" tool ≡ some (obj fs)
      → lookup registry name ≡ some (some d)
      → any (λ n. str_eq n name) full ≡ true
      → d.schema ≡ some schema
      → IsServed tool (change_function (insert_field "parameters" schema) tool)
  schema-IsServed tool name d fs schema named object found asked is =
      rw (change_function-object (insert_field "parameters" schema) tool fs object) (
        with_schema tool (update "function" (obj (insert_field "parameters" schema fs)) tool) name d
          named found asked
          (inside-update "parameters" tool fs (insert_field "parameters" schema fs) object
            ∙ find-insert "parameters" schema fs
            ∙ ap (λ o. or_else o (inside "parameters" tool)) (sym is))
          (update-IsChanged (str_eq "parameters") tool fs (insert_field "parameters" schema fs)
            object (λ k apart. find-insert-other k "parameters" schema fs apart)))

  stripped-IsServed :
      (tool : Value) (name : String) (d : ToolDescriptor Embedding) (fs : Fields)
      → AreFields fs
      → tool_name tool ≡ some name
      → get "function" tool ≡ some (obj fs)
      → lookup registry name ≡ some (some d)
      → any (λ n. str_eq n name) full ≡ false
      → IsServed tool (change_function (strip name d.summary) tool)
  stripped-IsServed tool name d fs map named object found unasked =
      let fs' = strip name d.summary fs in
      rw (change_function-object (strip name d.summary) tool fs object) (
        summarised tool (update "function" (obj fs') tool) name d named found unasked
          (inside-update "parameters" tool fs fs' object ∙ strip-parameters name d.summary fs map)
          (inside-update "description" tool fs fs' object
            ∙ find-insert "description" (str (summary_line name d.summary))
                (remove_field "parameters" fs))
          (update-IsChanged (λ k. str_eq "parameters" k || str_eq "description" k) tool fs fs'
            object (strip-other name d.summary fs)))

  registered-IsServed :
      (tool : Value) (name : String) (d : ToolDescriptor Embedding) (fs : Fields)
      → IsMap tool
      → tool_name tool ≡ some name
      → get "function" tool ≡ some (obj fs)
      → lookup registry name ≡ some (some d)
      → IsServed tool (process_registered full name d tool).0
  registered-IsServed tool name d fs map named object found =
      elim (Bool-cases (any (λ n. str_eq n name) full)) [
        | inl asked ↦ elim (Option-cases d.schema) [
          | inl bare ↦
              rw (asked, process_registered, bare)
                (with_schema tool tool name d named found asked
                  (ap (λ o. or_else o (inside "parameters" tool)) (sym bare))
                  (unchanged-IsChanged (str_eq "parameters") tool))
          | inr (schema, is) ↦
              rw (asked, process_registered, is)
                (schema-IsServed tool name d fs schema named object found asked is)
        ]
        | inr unasked ↦
            rw (unasked, process_registered)
              (stripped-IsServed tool name d fs (get-IsMap "function" tool (obj fs) map object)
                named object found unasked)
      ]

  found-IsServed :
      (tool : Value) (name : String) (o : Option (ToolDescriptor Embedding))
      → IsMap tool
      → tool_name tool ≡ some name
      → lookup registry name ≡ some o
      → IsServed tool (process_found full name o tool).0
  found-IsServed tool name none map named found = unregistered tool name named found
  found-IsServed tool name (some d) map named found =
      let (fs, object) = tool_name-object tool name named in
      registered-IsServed tool name d fs map named object found

  process_tool-none :
      (tool : Value) → tool_name tool ≡ none → process_tool registry full tool ≡ some (tool, false)
  process_tool-none tool h = rw (h, process_tool) refl

  process_tool-some :
      (tool : Value) (name : String)
      → tool_name tool ≡ some name
      → process_tool registry full tool
        ≡ (lookup registry name >>=? λ found. some (process_found full name found tool))
  process_tool-some tool name h = rw (h, process_tool) refl

  process_tool-IsServed :
      (tool : Value) (r : Value × Bool)
      → IsMap tool
      → process_tool registry full tool ≡ some r
      → IsServed tool r.0
  process_tool-IsServed tool r map h = elim (Option-cases (tool_name tool)) [
    | inl nameless ↦
        let eq : (tool, false) ≡ r = cc (process_tool-none tool nameless) in
        rw (sym eq) (left tool nameless)
    | inr (name, named) ↦ elim (Option-cases (lookup registry name)) [
      | inl panics ↦ cc (process_tool-some tool name named, panics)
      | inr (o, found) ↦
          let eq : process_found full name o tool ≡ r =
            cc (rw found at (sym (process_tool-some tool name named) ∙ h)) in
          rw (sym eq) (found-IsServed tool name o map named found)
    ]
  ]

  -- What the whole list of tools becomes.
  pub data AreServed : Items → Items → Type 0 where
    none_left : AreServed nil nil
    one_more :
        (tool tool' : Value) (rest rest' : Items)
        → IsServed tool tool'
        → AreServed rest rest'
        → AreServed (cons tool rest) (cons tool' rest')

  pub process_tools-AreServed :
      (tools : Items) (r : Items × Bool)
      → AreItems tools
      → process_tools registry full tools ≡ some r
      → AreServed tools r.0
  process_tools-AreServed nil r map h = let eq : (nil, false) ≡ r = cc h in rw (sym eq) none_left
  process_tools-AreServed (cons tool rest) r (map, maps) h =
      elim (Option-cases (process_tool registry full tool)) [
        | inl panics ↦ cc (rw panics at h)
        | inr ((t, m), done) ↦ elim (Option-cases (process_tools registry full rest)) [
          | inl panics ↦ cc (rw (done, panics) at h)
          | inr ((ts, ms), served) ↦
              let eq : (cons t ts, m || ms) ≡ r = cc (rw (done, served) at h) in
              rw (sym eq) (
                one_more tool t rest ts (process_tool-IsServed tool (t, m) map done)
                  (process_tools-AreServed rest (ts, ms) maps served))
        ]
      ]
