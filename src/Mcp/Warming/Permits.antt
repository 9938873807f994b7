-- ===== src/Mcp/Warming/Permits.antt =====
-- What holds of the prefetcher whatever requests come and in whatever order warm-ups end.
use red_eye_engine_gateway.Common.{
  ℕ, zero, suc, ◌+◌, ◌≡◌, refl, sym, ap, Bool, false, Option, none, some, List, [], ◌∷◌, ◌++◌,
  String, str_eq, eq_iff, length, length-append, All, is_empty, is_some, if-both, arith, Bool-cases,
  inl, inr,
}
use red_eye_engine_gateway.Mcp.NameScan.{find_tool_hint}
use red_eye_engine_gateway.Mcp.Warming.{
  PreWarmedConnection, McpConnectionRegistry, Task, Prefetcher, lookup, insert, with_registry,
  get_url, prefetch_slots, try_spawn, spawn_known, prefetch, warm_connection,
}

-- One thing that happens: a request, or the end of one of the tasks.
pub data Steps (from_utf8 : List ℕ → Option String) : Prefetcher → Prefetcher → Type 0 where
  requested : (p : Prefetcher) (body : List ℕ) → Steps from_utf8 p (prefetch from_utf8 p body)
  ended :
      (r : McpConnectionRegistry) (earlier later : List Task) (task : Task) (now : ℕ)
      (success : Bool)
      → Steps from_utf8
          (record { shared = r; tasks = earlier ++ task ∷ later })
          (record { shared = warm_connection task now success r; tasks = earlier ++ later })

pub data Reaches (from_utf8 : List ℕ → Option String) (start : Prefetcher)
    : Prefetcher → Type 0 where
  at_start : Reaches from_utf8 start start
  and_then :
      (p q : Prefetcher)
      → Reaches from_utf8 start p
      → Steps from_utf8 p q
      → Reaches from_utf8 start q

-- A warmed connection is recorded under its tool, at the tool's registered endpoint.
abbrev pub IsRecord : List (String × String) → String × PreWarmedConnection → Type 0
IsRecord m (k, c) = (c.tool_name ≡ k) × (lookup k m ≡ some c.sse_url)

abbrev pub IsTask : List (String × String) → Task → Type 0
IsTask m t = lookup t.tool_name m ≡ some t.sse_url

pub record IsSound (endpoints : List (String × String)) (p : Prefetcher) : Type 0 where
  pub unchanged : p.shared.registry ≡ endpoints
  pub slots : p.shared.permits + length p.tasks ≡ prefetch_slots
  pub records : All (IsRecord endpoints) p.shared.warmed
  pub tasks_known : All (IsTask endpoints) p.tasks

All-insert :
    (m : List (String × String)) (k : String) (c : PreWarmedConnection)
    (warmed : List (String × PreWarmedConnection))
    → IsRecord m (k, c)
    → All (IsRecord m) warmed
    → All (IsRecord m) (insert k c warmed)
All-insert m k c [] h _ = (h, tt)
All-insert m k c ((j, w) ∷ warmed) h (g, gs) = elim (Bool-cases (str_eq j k)) [
  | inl same ↦ rw (same, insert) (rw ((eq_iff j k).0 same) (h, gs))
  | inr other ↦ rw (other, insert) (g, All-insert m k c warmed h gs)
]

-- What holds of a list holds of an element and of the list without it.
All-remove :
    {A : Type 0} (P : A → Type 0) (xs ys : List A) (t : A)
    → All P (xs ++ t ∷ ys)
    → P t × All P (xs ++ ys)
All-remove P [] ys t h = h
All-remove P (x ∷ xs) ys t (h, hs) = let (here, rest) = All-remove P xs ys t hs in (here, (h, rest))

try_spawn-IsSound :
    (m : List (String × String)) (tool_name sse_url : String) (p : Prefetcher) (n : ℕ)
    → p.shared.permits ≡ n
    → lookup tool_name m ≡ some sse_url
    → IsSound m p
    → IsSound m (try_spawn tool_name sse_url p)
try_spawn-IsSound m tool_name sse_url p zero e h s = rw (e, try_spawn) s
try_spawn-IsSound m tool_name sse_url p (suc left) e h s =
    rw (e, try_spawn)
      (record {
        unchanged = s.unchanged;
        slots = omega (arith, e, s.slots);
        records = s.records;
        tasks_known = (h, s.tasks_known);
      })

spawn_known-IsSound :
    (m : List (String × String)) (p : Prefetcher) (tool_name : String) (o : Option String)
    → lookup tool_name m ≡ o
    → IsSound m p
    → IsSound m (spawn_known p tool_name o)
spawn_known-IsSound m p tool_name none h s = s
spawn_known-IsSound m p tool_name (some sse_url) h s =
    try_spawn-IsSound m tool_name sse_url p p.shared.permits refl h s

prefetch-IsSound :
    (from_utf8 : List ℕ → Option String) (m : List (String × String)) (p : Prefetcher)
    (body : List ℕ)
    → IsSound m p
    → IsSound m (prefetch from_utf8 p body)
unfolding prefetch
prefetch-IsSound from_utf8 m p body s =
    if-both (IsSound m) (is_empty p.shared.registry) p _ s
      (hinted (find_tool_hint from_utf8 (λ name. is_some (get_url p.shared name)) false body))
  where
    hinted :
        (o : Option String)
        → IsSound m (elim o [
          | none ↦ p
          | some tool_name ↦ spawn_known p tool_name (get_url p.shared tool_name)
        ])
    hinted none = s
    hinted (some tool_name) =
        spawn_known-IsSound m p tool_name (get_url p.shared tool_name)
          (ap (lookup tool_name) (sym s.unchanged)) s

warm_connection-IsSound :
    (m : List (String × String)) (r : McpConnectionRegistry) (earlier later : List Task)
    (task : Task) (now : ℕ) (success : Bool)
    → IsSound m (record { shared = r; tasks = earlier ++ task ∷ later })
    → IsSound m (record { shared = warm_connection task now success r; tasks = earlier ++ later })
unfolding warm_connection
warm_connection-IsSound m r earlier later task now success s =
    let (known, others) = All-remove (IsTask m) earlier later task s.tasks_known in
    record {
      unchanged = s.unchanged;
      slots =
          omega (arith, s.slots, length-append earlier (task ∷ later), length-append earlier later);
      records = All-insert m task.tool_name _ r.warmed (refl, known) s.records;
      tasks_known = others;
    }

Steps-IsSound :
    (from_utf8 : List ℕ → Option String) (m : List (String × String)) (p q : Prefetcher)
    → Steps from_utf8 p q
    → IsSound m p
    → IsSound m q
Steps-IsSound from_utf8 m p q (requested _ body) s = prefetch-IsSound from_utf8 m p body s
Steps-IsSound from_utf8 m p q (ended r earlier later task now success) s =
    warm_connection-IsSound m r earlier later task now success s

-- From a registry with these endpoints and all its permits, whatever requests come and in whatever
-- order warm-ups end: the permits and the warm-ups in flight are twenty together, and every
-- recorded connection stands under its tool and is to the endpoint registered for it.
pub Reaches-IsSound :
    (from_utf8 : List ℕ → Option String) (m : List (String × String)) (p : Prefetcher)
    → Reaches from_utf8 (record { shared = with_registry m; tasks = [] }) p
    → IsSound m p
Reaches-IsSound from_utf8 m p at_start = record {
  unchanged = refl;
  slots = omega arith;
  records = tt;
  tasks_known = tt;
}
Reaches-IsSound from_utf8 m p (and_then q _ before step) =
    Steps-IsSound from_utf8 m q p step (Reaches-IsSound from_utf8 m q before)
