-- ===== src/ToolRouter/Injection/Whole.antt =====
-- The request that the injection sends.
use red_eye_engine_gateway.Common.{
  Bool, true, false, Option, none, some, List, String, ◌>>=?◌, ◌≡◌, refl, sym, ◌∙◌, ◌⊎◌, inl, inr,
  Bool-cases, Option-cases,
}
use red_eye_engine_gateway.Json.{
  Value, Items, null, bool, num, str, obj, arr, nil, cons, get, update,
}
use red_eye_engine_gateway.Json.Maps.{IsMap, get-IsMap}
use red_eye_engine_gateway.ToolRouter.Registry.{ToolRegistry, is_unused}
use red_eye_engine_gateway.ToolRouter.Injection.{
  process_tools, with_phantom, push_item, any_item, is_phantom, phantom_tool_descriptor, finish,
  inject_into, inject_lazy_summaries,
}
use red_eye_engine_gateway.ToolRouter.Injection.Stripped.{AreServed, process_tools-AreServed}

any-push_item :
    (p : Value → Bool) (x : Value) (vs : Items) → p x ≡ true → any_item p (push_item x vs) ≡ true
any-push_item p x nil h = rw h refl
any-push_item p x (cons v vs) h = elim (Bool-cases (p v)) [
  | inl here ↦ rw here refl
  | inr other ↦ rw other (any-push_item p x vs h)
]

any-with_phantom : (tools : Items) → any_item is_phantom (with_phantom tools) ≡ true
any-with_phantom tools = elim (Bool-cases (any_item is_phantom tools)) [
  | inl there ↦ rw (there, with_phantom) there
  | inr missing ↦
      rw (missing, with_phantom) (any-push_item is_phantom phantom_tool_descriptor tools refl)
]

module _ {Bytes Embedding : Type 0} (from_slice : Bytes → Option Value)
    (to_writer : Value → Option Bytes)
    (requested : ToolRegistry Embedding → Value → List String) where
  -- What was read and what is written.
  pub record IsInjected (registry : ToolRegistry Embedding) (bytes out : Bytes) : Type 0 where
    pub body : Value
    pub tools : Items
    pub served : Items
    pub read : from_slice bytes ≡ some body
    pub listed : get "tools" body ≡ some (arr tools)
    pub each : AreServed registry (requested registry body) tools served
    pub phantom : any_item is_phantom (with_phantom served) ≡ true
    pub written : to_writer (update "tools" (arr (with_phantom served)) body) ≡ some out

  -- The tools are a list, or nothing is sent changed.
  tools-cases :
      (registry : ToolRegistry Embedding) (body : Value) (o : Option Value)
      → get "tools" body ≡ o
      → ((tools : Items) × (get "tools" body ≡ some (arr tools)))
        ⊎ (inject_into from_slice to_writer requested registry body ≡ some none)
  tools-cases registry body none e = inr (rw (e, inject_into) refl)
  tools-cases registry body (some (arr tools)) e = inl (tools, e)
  tools-cases registry body (some null) e = inr (rw (e, inject_into) refl)
  tools-cases registry body (some (bool _)) e = inr (rw (e, inject_into) refl)
  tools-cases registry body (some (num _)) e = inr (rw (e, inject_into) refl)
  tools-cases registry body (some (str _)) e = inr (rw (e, inject_into) refl)
  tools-cases registry body (some (obj _)) e = inr (rw (e, inject_into) refl)

  inject_into-arr :
      (registry : ToolRegistry Embedding) (body : Value) (tools : Items)
      → get "tools" body ≡ some (arr tools)
      → inject_into from_slice to_writer requested registry body ≡ (
          process_tools registry (requested registry body) tools >>=? λ r.
          some (finish from_slice to_writer requested body r))
  inject_into-arr registry body tools e = rw (e, inject_into) refl

  finish-some :
      (body : Value) (r : Items × Bool) (out : Bytes)
      → finish from_slice to_writer requested body r ≡ some out
      → to_writer (update "tools" (arr (with_phantom r.0)) body) ≡ some out
  finish-some body (tools, true) out h = h
  finish-some body (tools, false) out h = cc

  inject_into-IsInjected :
      (registry : ToolRegistry Embedding) (bytes out : Bytes) (body : Value)
      → IsMap body
      → from_slice bytes ≡ some body
      → inject_into from_slice to_writer requested registry body ≡ some (some out)
      → IsInjected registry bytes out
  inject_into-IsInjected registry bytes out body map read h =
      elim (tools-cases registry body (get "tools" body) refl) [
        | inr unchanged ↦ cc
        | inl (tools, listed) ↦
            let full = requested registry body in
            let run = sym (inject_into-arr registry body tools listed) ∙ h in
            elim (Option-cases (process_tools registry full tools)) [
              | inl panics ↦ cc (rw panics at run)
              | inr (r, done) ↦
                  let sent : finish from_slice to_writer requested body r ≡ some out =
                    cc (rw done at run) in
                  record {
                    body = body;
                    tools = tools;
                    served = r.0;
                    read = read;
                    listed = listed;
                    each =
                        process_tools-AreServed registry full tools r
                          (get-IsMap "tools" body (arr tools) map listed) done;
                    phantom = any-with_phantom r.0;
                    written = finish-some body r out sent;
                  }
            ]
      ]

  inject-used :
      (registry : ToolRegistry Embedding) (bytes : Bytes)
      → is_unused registry ≡ true
      → inject_lazy_summaries from_slice to_writer requested registry bytes ≡ some none
  unfolding inject_lazy_summaries
  inject-used registry bytes h = rw h refl

  inject-parsed :
      (registry : ToolRegistry Embedding) (bytes : Bytes) (o : Option Value)
      → is_unused registry ≡ false
      → from_slice bytes ≡ o
      → inject_lazy_summaries from_slice to_writer requested registry bytes ≡ elim o [
        | none ↦ some none
        | some body ↦ inject_into from_slice to_writer requested registry body
      ]
  unfolding inject_lazy_summaries
  inject-parsed registry bytes o h e = rw (h, e) refl

  -- With a JSON library whose maps have each key once: a request that is sent changed is the
  -- request as read, but for its tools, each of which is either left alone, since it has no name or
  -- none that is registered, or has its schema put back, since that is asked for, or has no
  -- parameters and the tool's line for its description; and the phantom tool is among them.
  pub inject_lazy_summaries-IsInjected :
      ((bytes : Bytes) (v : Value) → from_slice bytes ≡ some v → IsMap v)
      → (registry : ToolRegistry Embedding) (bytes out : Bytes)
      → inject_lazy_summaries from_slice to_writer requested registry bytes ≡ some (some out)
      → IsInjected registry bytes out
  inject_lazy_summaries-IsInjected maps registry bytes out h =
      elim (Bool-cases (is_unused registry)) [
        | inl unused ↦ cc (inject-used registry bytes unused)
        | inr used ↦ elim (Option-cases (from_slice bytes)) [
          | inl unread ↦ cc (inject-parsed registry bytes none used unread)
          | inr (body, read) ↦
              inject_into-IsInjected registry bytes out body (maps bytes body read) read
                (sym (inject-parsed registry bytes (some body) used read) ∙ h)
        ]
      ]
