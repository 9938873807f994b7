-- ===== src/ToolCalls/FanOut.antt =====
-- `fan_out`, on the results of a batch that the futures library's `buffer_unordered(10)` runs: as
-- documented, calls start in order, at most ten at a time, and end in any order.
use mathlib.Core.List.{Perm, append-nil, append_assoc, perm_middle}
use mathlib.Core.List.Perm
use red_eye_engine_gateway.Common.{
  ℕ, zero, suc, ◌<◌, ◌≡◌, Option, none, some, List, [], ◌∷◌, ◌++◌, map, String, length,
}
use red_eye_engine_gateway.Json.{Value}
use red_eye_engine_gateway.ToolCalls.{ToolCall, ToolResult, Exchange, build_telemetry_payload}

abbrev pub limit : ℕ
limit = 10

-- The calls not started, those in flight, and the results so far.
pub record Batch : Type 0 where
  pub queued : List (ToolCall × Exchange)
  pub in_flight : List (ToolCall × Exchange)
  pub results : List ToolResult

abbrev pub dispatching : List (ToolCall × Exchange) → Batch
dispatching calls = record { queued = calls; in_flight = []; results = [] }

-- What `fan_out` returns, and the telemetry that it sends, if there was a batch.
unfoldable pub fan_out :
    String → ℕ → List (ToolCall × Exchange) → List ToolResult → List ToolResult × Option Value
fan_out now total_latency_ms [] results = ([], none)
fan_out now total_latency_ms (c ∷ calls) results =
    (results, some (build_telemetry_payload now results (suc (length calls)) total_latency_ms))

module _ (execute : ToolCall × Exchange → ToolResult) where
  pub data Steps : Batch → Batch → Type 0 where
    dispatched :
        (c : ToolCall × Exchange) (queued in_flight : List (ToolCall × Exchange))
        (results : List ToolResult)
        → length in_flight < limit
        → Steps
            (record { queued = c ∷ queued; in_flight = in_flight; results = results })
            (record { queued = queued; in_flight = in_flight ++ c ∷ []; results = results })
    completed :
        (c : ToolCall × Exchange) (queued earlier later : List (ToolCall × Exchange))
        (results : List ToolResult)
        → Steps
            (record { queued = queued; in_flight = earlier ++ c ∷ later; results = results })
            (record {
              queued = queued;
              in_flight = earlier ++ later;
              results = results ++ execute c ∷ [];
            })

  pub data Reaches (calls : List (ToolCall × Exchange)) : ℕ → Batch → Type 0 where
    at_start : Reaches calls zero (dispatching calls)
    and_then : (n : ℕ) (a b : Batch) → Reaches calls n a → Steps a b → Reaches calls (suc n) b

  -- Every call is answered once, is in flight once, or is queued once.
  pub record IsAccounted (calls : List (ToolCall × Exchange)) (b : Batch) : Type 0 where
    pub answers : Perm (b.results ++ map execute (b.in_flight ++ b.queued)) (map execute calls)

  rest-complete :
      (c : ToolCall × Exchange) (earlier later queued : List (ToolCall × Exchange))
      (results : List ToolResult)
      → Perm
          ((results ++ execute c ∷ []) ++ map execute ((earlier ++ later) ++ queued))
          (results ++ map execute ((earlier ++ c ∷ later) ++ queued))
  rest-complete c earlier later queued results =
      rw
        (
          append_assoc results (execute c ∷ []) (map execute ((earlier ++ later) ++ queued)),
          append_assoc earlier later queued,
          append_assoc earlier (c ∷ later) queued,
        )
        (Perm.append_left results
          (Perm.symm (Perm.map execute (perm_middle earlier (later ++ queued)))))

  Steps-IsAccounted :
      (calls : List (ToolCall × Exchange)) (a b : Batch)
      → Steps a b
      → IsAccounted calls a
      → IsAccounted calls b
  Steps-IsAccounted calls a b (dispatched c queued in_flight results room) s = record {
    answers = rw (append_assoc in_flight (c ∷ []) queued) s.answers;
  }
  Steps-IsAccounted calls a b (completed c queued earlier later results) s = record {
    answers = Perm.trans (rest-complete c earlier later queued results) s.answers;
  }

  Reaches-IsAccounted :
      (calls : List (ToolCall × Exchange)) (n : ℕ) (b : Batch)
      → Reaches calls n b
      → IsAccounted calls b
  Reaches-IsAccounted calls n b at_start = record { answers = Perm.refl _ }
  Reaches-IsAccounted calls n b (and_then m a _ before step) =
      Steps-IsAccounted calls a b step (Reaches-IsAccounted calls m a before)

  abbrev pub IsFinished : Batch → Type 0
  IsFinished b = (b.queued ≡ []) × (b.in_flight ≡ [])

  all-answered :
      (calls : List (ToolCall × Exchange)) (b : Batch)
      → IsFinished b
      → IsAccounted calls b
      → Perm b.results (map execute calls)
  all-answered calls b (none_queued, none_in_flight) s =
      rw (append-nil b.results) at (rw (none_queued, none_in_flight) at s.answers)

  -- In whatever order the calls of a batch end, the fan-out returns the results of the calls one by
  -- one, each once, in some order.
  pub fan_out_answers :
      (now : String) (total_latency_ms : ℕ) (calls : List (ToolCall × Exchange)) (n : ℕ) (b : Batch)
      → Reaches calls n b
      → IsFinished b
      → Perm (fan_out now total_latency_ms calls b.results).0 (map execute calls)
  unfolding fan_out
  fan_out_answers now total_latency_ms [] n b run done = Perm.refl []
  fan_out_answers now total_latency_ms (c ∷ calls) n b run done =
      all-answered (c ∷ calls) b done (Reaches-IsAccounted (c ∷ calls) n b run)
