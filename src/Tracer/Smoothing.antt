-- ===== src/Tracer/Smoothing.antt =====
-- What a tick makes of the state and what it sends.
use red_eye_engine_gateway.Common.{
  ◌≡◌, refl, sym, ap, ◌∙◌, true, false, Option, none, some, List, [], ◌∷◌, String, str_eq, eq_iff,
  eq_refl, is_empty, Result, ok, err, Bool-cases, if-both, if◌then◌else◌, ◌⊎◌, inl, inr, ◌>>=?◌,
  same_text,
}
use red_eye_engine_gateway.Json.{Value, as_array, get, get_str}
use red_eye_engine_gateway.Mcp.Warming.{lookup, insert}
use red_eye_engine_gateway.Tracer.{
  F64, Latencies, compute_ema, add_row, add_rows, read_rows, p95_of, provider_of,
  query_p95_latencies, smooth, Ticked, push, pipeline, tick_with, tick,
}

apart_sym : (j k : String) → str_eq j k ≡ false → str_eq k j ≡ false
apart_sym j k d = elim (Bool-cases (str_eq k j)) [
  | inl same ↦ let clash : true ≡ false = sym (eq_refl j) ∙ (rw ((eq_iff k j).0 same) at d) in cc
  | inr other ↦ other
]

module _ {A : Type 0} where
  lookup-insert : (k : String) (v : A) (m : List (String × A)) → lookup k (insert k v m) ≡ some v
  lookup-insert k v [] = rw (eq_refl k) refl
  lookup-insert k v ((j, w) ∷ m) = elim (Bool-cases (str_eq j k)) [
    | inl same ↦ rw (same, lookup, same) refl
    | inr other ↦ rw (other, lookup, other) (lookup-insert k v m)
  ]

  lookup-insert_other :
      (i k : String) (v : A) (m : List (String × A))
      → str_eq k i ≡ false
      → lookup i (insert k v m) ≡ lookup i m
  lookup-insert_other i k v [] d = rw d refl
  lookup-insert_other i k v ((j, w) ∷ m) d = elim (Bool-cases (str_eq j k)) [
    | inl same ↦ rw (same, lookup, same_text j i k d same) refl
    | inr other ↦
        rw (other, lookup)
          (ap (λ r. if str_eq j i then some w else r) (lookup-insert_other i k v m d))
  ]

  -- Each name stands once.
  abbrev IsDistinct : List (String × A) → Type 0
  IsDistinct [] = Unit
  IsDistinct ((k, v) ∷ m) = (lookup k m ≡ none) × IsDistinct m

  insert-IsDistinct :
      (k : String) (v : A) (m : List (String × A)) → IsDistinct m → IsDistinct (insert k v m)
  insert-IsDistinct k v [] h = (refl, tt)
  insert-IsDistinct k v ((j, w) ∷ m) (apart, h) = elim (Bool-cases (str_eq j k)) [
    | inl same ↦ rw (same, insert) (apart, h)
    | inr other ↦
        rw (other, insert)
          (lookup-insert_other j k v m (apart_sym j k other) ∙ apart, insert-IsDistinct k v m h)
  ]

module _ (F : F64) where
  add_row-IsDistinct :
      (provider : Option String) (p95 : Option F.Float) (result : Latencies F)
      → IsDistinct result
      → IsDistinct (add_row F provider p95 result)
  add_row-IsDistinct (some provider) (some p95) result h =
      if-both IsDistinct (F.more p95 F.nought) _ _ (insert-IsDistinct provider p95 result h) h
  add_row-IsDistinct (some provider) none result h = h
  add_row-IsDistinct none p95 result h = h

  add_rows-IsDistinct :
      (rows : List Value) (result : Latencies F)
      → IsDistinct result
      → IsDistinct (add_rows F rows result)
  add_rows-IsDistinct [] result h = h
  add_rows-IsDistinct (row ∷ rows) result h = add_rows-IsDistinct rows _ (
      add_row-IsDistinct (provider_of F (get_str "executed_provider" row))
        (p95_of F (get "p95" row)) result h)

  read_rows-IsDistinct : (rows : Option (List Value)) → IsDistinct (read_rows F rows)
  read_rows-IsDistinct none = tt
  read_rows-IsDistinct (some rows) = add_rows-IsDistinct rows [] tt

  -- What becomes of an average when a latency is observed, or none.
  abbrev pub smoothed : Option F.Float → Option F.Float → Option F.Float
  smoothed ema none = ema
  smoothed ema (some raw) = some (compute_ema F ema raw F.default_alpha)

  lookup-smooth :
      (k : String) (raw ema_state : Latencies F)
      → IsDistinct raw
      → lookup k (smooth F raw ema_state) ≡ smoothed (lookup k ema_state) (lookup k raw)
  lookup-smooth k [] ema_state h = refl
  lookup-smooth k ((j, x) ∷ raw) ema_state (apart, h) = elim (Bool-cases (str_eq j k)) [
    | inl same ↦
        let ema = compute_ema F (lookup j ema_state) x F.default_alpha in
        let last : smoothed (lookup j (insert j ema ema_state)) (lookup j raw) ≡ some ema =
          rw (lookup-insert j ema ema_state, apart) refl in
        rw (same, sym ((eq_iff j k).0 same)) (lookup-smooth j raw (insert j ema ema_state) h ∙ last)
    | inr other ↦
        let ema = compute_ema F (lookup j ema_state) x F.default_alpha in
        rw (other, lookup)
          (lookup-smooth k raw (insert j ema ema_state) h
            ∙ ap (λ o. smoothed o (lookup k raw)) (lookup-insert_other k j ema ema_state other))
  ]

  -- The latencies that an answer of ClickHouse reports.
  abbrev pub observed : Result String Value → Latencies F
  observed (err e) = []
  observed (ok resp) = read_rows F (get "data" resp >>=? as_array)

  abbrev pub IsTicked : Result String Value → Latencies F → String → Ticked F → Type 0
  IsTicked resp old k t =
      (lookup k t.ema_state ≡ smoothed (lookup k old) (lookup k (observed resp)))
      × ((t.sent ≡ []) ⊎ (t.sent ≡ pipeline F t.ema_state))

  push-IsTicked :
      (resp : Result String Value) (reply : Result String (Unit {0})) (old entries : Latencies F)
      (k : String)
      → lookup k entries ≡ smoothed (lookup k old) (lookup k (observed resp))
      → IsTicked resp old k (push F reply entries)
  push-IsTicked resp reply old entries k h =
      if-both (IsTicked resp old k) (is_empty entries) _ _ (h, inl refl) (h, inr refl)

  tick_with-IsTicked :
      (resp : Value) (reply : Result String (Unit {0})) (old raw : Latencies F) (k : String)
      → observed (ok resp) ≡ raw
      → IsDistinct raw
      → IsTicked (ok resp) old k (tick_with F reply old (ok raw))
  tick_with-IsTicked resp reply old [] k e h = (rw e refl, inl refl)
  tick_with-IsTicked resp reply old (r ∷ raw) k e h =
      push-IsTicked (ok resp) reply old _ k (rw e (lookup-smooth k (r ∷ raw) old h))

  -- After a tick, whatever ClickHouse and Redis answer, the average of a provider is smoothed once
  -- with the latency observed for it, and is as before if there is none; and the tick sends nothing,
  -- or the whole ranking as the state has it now, with its time to live.
  pub tick-IsTicked :
      (resp : Result String Value) (reply : Result String (Unit {0})) (old : Latencies F)
      (k : String)
      → IsTicked resp old k (tick F resp reply old)
  unfolding tick query_p95_latencies
  tick-IsTicked (err e) reply old k = (refl, inl refl)
  tick-IsTicked (ok resp) reply old k =
      tick_with-IsTicked resp reply old _ k refl
        (read_rows-IsDistinct (get "data" resp >>=? as_array))
