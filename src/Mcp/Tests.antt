-- ===== src/Mcp/Tests.antt =====
-- Runs of the name scan and of the prefetcher.
use red_eye_engine_gateway.Common.{
  ℕ, ◌≡◌, refl, Bool, false, Option, none, some, List, [], ◌∷◌, ◌++◌, String, str_eq, codes, arith,
}
use red_eye_engine_gateway.Mcp.NameScan.{find_tool_hint}
use red_eye_engine_gateway.Mcp.NameScan.Chunks.{find_tool_hint_first}
use red_eye_engine_gateway.Mcp.NameScan.Capture.{entry, find_tool_hint_finds}
use red_eye_engine_gateway.Mcp.Warming.{Prefetcher, with_registry, prefetch}
use red_eye_engine_gateway.Mcp.Warming.Permits.{
  requested, Reaches, at_start, and_then, IsSound, Reaches-IsSound,
}

abbrev decode : List ℕ → Option String
decode bytes = some "jira"

abbrev known : String → Bool
known name = str_eq name "jira"

find_tool_hint_first_example :
    find_tool_hint decode known false (codes "{\"name\" : \"jira\"}") ≡ some "jira"
find_tool_hint_first_example =
    find_tool_hint_first decode known (codes "{\"name\" : \"jira\"}") (codes "jira") "jira" refl
      refl

find_tool_hint_finds_example :
    find_tool_hint decode known false
      ((codes "{\"a\":1," ++ entry (codes " ") [] (codes "jira")) ++ codes "}")
    ≡ some "jira"
find_tool_hint_finds_example =
    find_tool_hint_finds decode known (codes "{\"a\":1,") (codes " ") [] (codes "jira") (codes "}")
      [] "jira" refl refl refl refl (omega arith) refl

-- A registered name in the same chunk as an earlier "name" value is not seen.
abbrev by_length : List ℕ → Option String
by_length (b ∷ o ∷ c ∷ []) = some "bob"
by_length bytes = some "jira"

find_tool_hint_misses :
    find_tool_hint by_length known false (codes "{\"name\":\"bob\",\"name\":\"jira\"}") ≡ none
unfolding find_tool_hint
find_tool_hint_misses = refl

abbrev endpoints : List (String × String)
endpoints = ("jira", "http://mcp:9000/sse") ∷ []

abbrev start : Prefetcher
start = record { shared = with_registry endpoints; tasks = [] }

abbrev body : List ℕ
body = codes "{\"name\":\"jira\"}"

abbrev spawned : Prefetcher
spawned = prefetch decode start body

spawned_twice : Reaches decode start (prefetch decode spawned body)
spawned_twice =
    and_then spawned _ (and_then start _ at_start (requested start body)) (requested spawned body)

Reaches-IsSound_example : IsSound endpoints (prefetch decode spawned body)
Reaches-IsSound_example =
    Reaches-IsSound decode endpoints (prefetch decode spawned body) spawned_twice

-- The two requests hold two permits.
spawned_permits : (prefetch decode spawned body).shared.permits ≡ 18
unfolding prefetch find_tool_hint
spawned_permits = refl
