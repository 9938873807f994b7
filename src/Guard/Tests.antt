-- ===== src/Guard/Tests.antt =====
-- Concrete stores for the guards, runs of the guards on them, and instances of the theorems.
use red_eye_engine_gateway.Common.{
  zero, ◌-◌, ◌==◌, leb, unwrap_or, Option, ℕ, suc, true, false, none, some, List, [], ◌∷◌, String,
  str_eq, eq_iff, eq_refl, codes, ltb, if◌then◌else◌, ◌≡◌, ◌≢◌, refl, sym, ap, ◌∙◌, inl, inr, arith,
  length, take, keep, ok, err, Bool-cases,
}
use red_eye_engine_gateway.Json.{Value, Fields, bool, str, arr, obj, nil, cons, end, field}
use red_eye_engine_gateway.Guard.Loop.{Hashing, Hashes, Lists, live, pushed, enforce_loop_detection}
use red_eye_engine_gateway.Guard.Loop.Window.{is_blocked, IsGuarded, enforce_hash-IsGuarded}
use red_eye_engine_gateway.Guard.Loop.Repetition.{repeat}
use red_eye_engine_gateway.Guard.Budget.{
  SortedSets, Counters, exceeded, enforce_agentic_loop_budget,
}
use red_eye_engine_gateway.Guard.Budget.Window.{
  run, enforce_agentic_loop_budget_counts, enforce_agentic_loop_budget_falls_back,
}
use Prim.Native.String
use red_eye_engine_gateway.Guard.Burn as Burn
use red_eye_engine_gateway.Guard.Burn.{Floats, Spends}
use red_eye_engine_gateway.Guard.Burn.Spending as Spending
use red_eye_engine_gateway.Guard.Sandbox.{
  Bytes, OpaResult, answered, unreachable, deny_message, enforce_mcp_sandbox,
}
use red_eye_engine_gateway.Guard.Sandbox as Sandbox
use red_eye_engine_gateway.Guard.Sandbox.Steering.{IsSteered, enforce_mcp_sandbox-IsSteered}

-- A map from texts to lists, and one list of it replaced.
abbrev put {ℓ} : {A : Type ℓ} → (String → A) → String → A → String → A
put s k a j = if str_eq j k then a else s j

put-same {ℓ} : {A : Type ℓ} (s : String → A) (k : String) (a : A) → put s k a k ≡ a
put-same s k a = rw (eq_refl k) refl

put-other {ℓ} :
    {A : Type ℓ} (s : String → A) (k : String) (a : A) (j : String) → j ≢ k → put s k a j ≡ s j
put-other s k a j d = elim (Bool-cases (str_eq j k)) [
  | inl e ↦ absurd (d ((eq_iff j k).0 e))
  | inr e ↦ rw e refl
]

abbrev lists : Lists
lists = record {
  Store = String → Option Hashes;
  entry = λ s k. s k;
  lrange = λ s now k stop. some (take (suc stop) (live now (s k)));
  push_trim = λ s now k h stop ttl. (put s k (some (pushed now (s k) h stop ttl)), true);
  lrange_lem = λ s now k stop {l} e. ap (λ o. elim o [ none ↦ [] | some r ↦ r ]) (sym e);
  push_trim_answered = λ s now k h stop ttl e. put-same s k (some (pushed now (s k) h stop ttl));
  push_trim_any = λ s now k h stop ttl. inr (put-same s k (some (pushed now (s k) h stop ttl)));
  push_trim_other =
      λ s now k j h stop ttl d. put-other s k (some (pushed now (s k) h stop ttl)) j d;
}

abbrev hashing : Hashing
hashing = record { to_string = λ v. []; sha256_hex = λ bytes. "d41d" }

abbrev body : Value
body = obj (field "messages" (arr nil) end)

abbrev nothing {ℓ} : {A : Type ℓ} → String → List A
nothing k = []

abbrev unseen : String → Option Hashes
unseen k = none

-- Four equal requests, one a second: the fourth is blocked.
fourth_request :
    is_blocked
      (enforce_loop_detection lists hashing
        (repeat lists hashing (2000 ∷ 1000 ∷ 0 ∷ []) unseen "s" body)
        3000
        "s"
        body).0
    ≡ true
unfolding enforce_loop_detection
fourth_request = refl

-- An hour after the third, the fourth is let through.
late_request :
    is_blocked
      (enforce_loop_detection lists hashing
        (repeat lists hashing (2000 ∷ 1000 ∷ 0 ∷ []) unseen "s" body)
        3602000
        "s"
        body).0
    ≡ false
unfolding enforce_loop_detection
late_request = refl

abbrev looping : String → Option Hashes
looping k = some (record { hashes = "d41d" ∷ "d41d" ∷ "d41d" ∷ []; deadline = 3600000 })

enforce_hash-IsGuarded_example : IsGuarded lists looping 5 "s" "d41d"
enforce_hash-IsGuarded_example = enforce_hash-IsGuarded lists looping 5 "s" "d41d"

abbrev slides : SortedSets
slides = record {
  Store = String → List ℕ;
  scores = λ s k. s k;
  slide =
      λ s k w now. (put s k (now ∷ keep (ltb w) (s k)), some (length (now ∷ keep (ltb w) (s k))));
  slide_scores = λ s k w now count e. put-same s k (now ∷ keep (ltb w) (s k));
  slide_count = λ s k w now count e.
      ap (λ o. elim o [ none ↦ 0 | some n ↦ n ]) (sym e)
      ∙ ap length (sym (put-same s k (now ∷ keep (ltb w) (s k))));
}

abbrev silent_slides : SortedSets
silent_slides = record {
  Store = String → List ℕ;
  scores = λ s k. s k;
  slide = λ s k w now. (s, none);
  slide_scores = λ s k w now count e. cc;
  slide_count = λ s k w now count e. cc;
}

abbrev no_counts : Counters
no_counts session_id = none

-- Three requests in the first second, and one six minutes later.
enforce_agentic_loop_budget_counts_example :
    let before = run slides (800 ∷ 500 ∷ 100 ∷ []) nothing no_counts "s" in
    (enforce_agentic_loop_budget slides before.0 before.1 (some 300500) "s").0 ≡ ok 2
enforce_agentic_loop_budget_counts_example =
    enforce_agentic_loop_budget_counts slides nothing no_counts "s" 300500 (800 ∷ 500 ∷ 100 ∷ [])
      (λ s k w now. cc) refl
      (
        (omega arith, (omega arith, (omega arith, tt))),
        ((omega arith, (omega arith, tt)), ((omega arith, tt), (tt, tt))),
      )

-- The sixth request while Redis fails.
enforce_agentic_loop_budget_falls_back_example :
    let before = run silent_slides (5 ∷ 4 ∷ 3 ∷ 2 ∷ 1 ∷ []) nothing no_counts "s" in
    (enforce_agentic_loop_budget silent_slides before.0 before.1 (some 6) "s").0 ≡ err exceeded
enforce_agentic_loop_budget_falls_back_example =
    enforce_agentic_loop_budget_falls_back silent_slides nothing no_counts "s" 1
      (5 ∷ 4 ∷ 3 ∷ 2 ∷ []) 6 (λ s k w now. refl) refl
      (omega arith, (omega arith, (omega arith, (omega arith, tt)))) (omega arith)

-- A choice that calls a tool, and the document around it.
abbrev calling : Fields
calling =
    field "message"
      (obj (
        field "tool_calls"
          (arr (cons (obj (field "function" (obj (field "name" (str "rm") end)) end)) nil)) end))
      end

abbrev answer : Value
answer = obj (field "id" (str "r1") (field "choices" (arr (cons (obj calling) nil)) end))

abbrev printed_answer : Bytes
printed_answer = codes "{\"id\":\"r1\",\"choices\":[{\"message\":{\"tool_calls\":[..]}}]}"

-- A parser that knows one document, and a printer.
abbrev json : Sandbox.Json
json = record { from_slice = λ bytes. some answer; to_vec = λ v. some (codes "{}") }

abbrev refuses : Value → OpaResult
refuses payload = answered 200 (some (obj (field "result" (bool false) end)))

abbrev says_nothing : Value → OpaResult
says_nothing payload = answered 200 (some (obj end))

enforce_mcp_sandbox-IsSteered_example :
    (w : Value) × (some (codes "{}")
      ≡ some (enforce_mcp_sandbox json refuses false "t" printed_answer))
    × IsSteered answer calling nil w
unfolding Sandbox.has_tool_calls
enforce_mcp_sandbox-IsSteered_example =
    enforce_mcp_sandbox-IsSteered json refuses false "t" printed_answer answer calling nil (λ w. cc)
      refl refl refl refl (inl (refl, refl))

-- OPA's success without a Boolean is a permission when the sandbox fails closed.
says_nothing-permits :
    enforce_mcp_sandbox json says_nothing false "t" printed_answer ≡ printed_answer
unfolding enforce_mcp_sandbox Sandbox.has_tool_calls Sandbox.first_tool_name Sandbox.denied
says_nothing-permits = refl

-- Costs in thousandths of a dollar, and amounts written as tallies after a "0".
abbrev tally : String → ℕ → String
tally t zero = t
tally t (suc n) = String.◌++◌ "1" (tally t n)

abbrev tallies : Floats
tallies = record {
  Float = ℕ;
  literal = λ t. if str_eq t "0.005" then 5 else 0;
  of_u32 = λ n. n;
  div = λ a b. a;
  mul = λ a b. a;
  equals = λ a b. a == b;
  at_least = λ a b. leb b a;
  parse = λ t. some (length (codes t) - 1);
}

abbrev spends : Spends tallies
spends = record {
  Store = Option String;
  spent = λ s k. s;
  increase = tally;
  get = λ s k. some s;
  incrbyfloat = λ s k d ttl. (some (tally (unwrap_or s "0") d), true);
  get_lem = λ s k o e. ap (λ r. elim r [ none ↦ none | some x ↦ x ]) (sym e);
  incrbyfloat_lem = λ s k d ttl e. refl;
}
