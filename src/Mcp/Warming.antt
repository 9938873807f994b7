-- ===== src/Mcp/Warming.antt =====
-- `McpConnectionRegistry`: the tools' endpoints, the semaphore of 20 permits, and the warm-ups that
-- requests start (chat_completions of api/handlers.rs) and that end in any order.
pub mod Permits
use red_eye_engine_gateway.Common.{
  ℕ, zero, suc, ◌+◌, ◌-◌, ◌/◌, Bool, true, false, Option, none, some, List, [], ◌∷◌, ◌++◌, String,
  str_eq, ltb, is_some, is_empty, if◌then◌else◌,
}
use red_eye_engine_gateway.Mcp.NameScan.{find_tool_hint}

-- Times are in milliseconds.
pub record PreWarmedConnection : Type 0 where
  pub tool_name : String
  pub sse_url : String
  pub warmed_at : ℕ
  pub success : Bool

abbrev pub is_fresh : ℕ → PreWarmedConnection → Bool
is_fresh now c = ltb ((now - c.warmed_at) / 1000) 30

-- A `DashMap`, as an association list.
module _ {A : Type 0} where
  abbrev pub lookup : String → List (String × A) → Option A
  lookup k [] = none
  lookup k ((j, v) ∷ m) = if str_eq j k then some v else lookup k m

  abbrev pub insert : String → A → List (String × A) → List (String × A)
  insert k v [] = (k, v) ∷ []
  insert k v ((j, w) ∷ m) = if str_eq j k then (j, v) ∷ m else (j, w) ∷ insert k v m

abbrev pub insert_all : List (String × String) → List (String × String) → List (String × String)
insert_all [] m = m
insert_all ((k, v) ∷ kvs) m = insert_all kvs (insert k v m)

pub record McpConnectionRegistry : Type 0 where
  pub registry : List (String × String)
  pub warmed : List (String × PreWarmedConnection)
  pub permits : ℕ

abbrev pub prefetch_slots : ℕ
prefetch_slots = 20

abbrev pub with_registry : List (String × String) → McpConnectionRegistry
with_registry m = record { registry = m; warmed = []; permits = prefetch_slots }

abbrev pub empty : McpConnectionRegistry
empty = with_registry []

-- `parse` is the JSON library's, on the text of the environment variable.
abbrev pub from_env :
    (String → Option (List (String × String))) → Option String → McpConnectionRegistry
from_env parse none = empty
from_env parse (some raw) = elim (parse raw) [
  | some map ↦ with_registry (insert_all map [])
  | none ↦ empty
]

abbrev pub get_url : McpConnectionRegistry → String → Option String
get_url r tool_name = lookup tool_name r.registry

-- A warm-up in flight: it holds a permit.
pub record Task : Type 0 where
  pub tool_name : String
  pub sse_url : String

-- The registry and the tasks spawned that have not ended.
pub record Prefetcher : Type 0 where
  pub shared : McpConnectionRegistry
  pub tasks : List Task

-- `try_acquire_owned` and the spawned task
abbrev pub try_spawn : String → String → Prefetcher → Prefetcher
try_spawn tool_name sse_url p = elim p.shared.permits [
  | zero ↦ p
  | suc left ↦ record {
    shared = record { registry = p.shared.registry; warmed = p.shared.warmed; permits = left };
    tasks = record { tool_name = tool_name; sse_url = sse_url } ∷ p.tasks;
  }
]

abbrev pub spawn_known : Prefetcher → String → Option String → Prefetcher
spawn_known p tool_name none = p
spawn_known p tool_name (some sse_url) = try_spawn tool_name sse_url p

-- The handler's part of a request.
unfoldable pub prefetch : (List ℕ → Option String) → Prefetcher → List ℕ → Prefetcher
prefetch from_utf8 p body =
    if is_empty p.shared.registry
    then p
    else elim (find_tool_hint from_utf8 (λ name. is_some (get_url p.shared name)) false body) [
      | none ↦ p
      | some tool_name ↦ spawn_known p tool_name (get_url p.shared tool_name)
    ]

-- The end of a task: its record is written and its permit dropped.
unfoldable pub warm_connection : Task → ℕ → Bool → McpConnectionRegistry → McpConnectionRegistry
warm_connection task now success r = record {
  registry = r.registry;
  warmed =
      insert task.tool_name
        (record {
          tool_name = task.tool_name;
          sse_url = task.sse_url;
          warmed_at = now;
          success = success;
        })
        r.warmed;
  permits = suc r.permits;
}
