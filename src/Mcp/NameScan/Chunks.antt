-- ===== src/Mcp/NameScan/Chunks.antt =====
-- The scan against the cutting of its input: chunks and whole inputs capture the same first value.
use red_eye_engine_gateway.Common.{
  ℕ, zero, suc, ◌-◌, ◌≤◌, ◌<◌, ◌≡◌, refl, sym, ap, ◌∙◌, Bool, false, Option, none, some, List, [],
  ◌∷◌, ◌++◌, String, take, length, length-take, arith,
}
use red_eye_engine_gateway.Mcp.NameScan.{
  NameScanFsm, new, step, feed, drop, chunks, registered_name, scan_chunks, scan_limit,
  find_tool_hint,
}

-- The scan goes on where no value is complete.
abbrev pub resume : NameScanFsm × Option (List ℕ) → List ℕ → NameScanFsm × Option (List ℕ)
resume (fsm, some value) bs = (fsm, some value)
resume (fsm, none) bs = feed fsm bs

resume-append :
    (r : NameScanFsm × Option (List ℕ)) (a b : List ℕ)
    → ((g : NameScanFsm) → feed g (a ++ b) ≡ resume (feed g a) b)
    → resume r (a ++ b) ≡ resume (resume r a) b
resume-append (fsm, some value) a b h = refl
resume-append (fsm, none) a b h = h fsm

pub feed-cons :
    (fsm : NameScanFsm) (x : ℕ) (bs : List ℕ)
    → feed fsm (x ∷ bs) ≡ resume (step fsm.state fsm.value_buf x) bs
feed-cons fsm x bs = go (step fsm.state fsm.value_buf x)
  where
    go :
        (r : NameScanFsm × Option (List ℕ))
        → elim (r.1) [ some value ↦ (r.0, some value) | none ↦ feed r.0 bs ] ≡ resume r bs
    go (next, some value) = refl
    go (next, none) = refl

pub feed-append : (fsm : NameScanFsm) (a b : List ℕ) → feed fsm (a ++ b) ≡ resume (feed fsm a) b
feed-append fsm [] b = refl
feed-append fsm (x ∷ a) b =
    feed-cons fsm x (a ++ b)
    ∙ resume-append (step fsm.state fsm.value_buf x) a b (λ g. feed-append g a b)
    ∙ ap (λ r. resume r b) (sym (feed-cons fsm x a))

abbrev pub join : List (List ℕ) → List ℕ
join [] = []
join (c ∷ cs) = c ++ join cs

take-drop : (n : ℕ) (bs : List ℕ) → take n bs ++ drop n bs ≡ bs
take-drop zero bs = refl
take-drop (suc n) [] = refl
take-drop (suc n) (b ∷ bs) = ap (◌∷◌ b) (take-drop n bs)

length-drop : (n : ℕ) (bs : List ℕ) → length (drop n bs) ≡ length bs - n
length-drop zero bs = omega arith
length-drop (suc n) [] = omega arith
length-drop (suc n) (b ∷ bs) = omega (arith, length-drop n bs)

join-chunks :
    (fuel size : ℕ) (bs : List ℕ) → 0 < size → length bs ≤ fuel → join (chunks fuel size bs) ≡ bs
join-chunks zero size [] h l = refl
join-chunks zero size (b ∷ bs) h l = absurd (omega arith)
join-chunks (suc fuel) size [] h l = refl
join-chunks (suc fuel) size (b ∷ bs) h l =
    ap (λ r. take size (b ∷ bs) ++ r)
      (join-chunks fuel size (drop size (b ∷ bs)) h (omega (arith, length-drop size (b ∷ bs))))
    ∙ take-drop size (b ∷ bs)

module _ (from_utf8 : List ℕ → Option String) (contains_key : String → Bool) where
  scan-resume :
      (r : NameScanFsm × Option (List ℕ)) (cs : List (List ℕ)) (value : List ℕ) (name : String)
      → (resume r (join cs)).1 ≡ some value
      → registered_name from_utf8 contains_key (some value) ≡ some name
      → ((g : NameScanFsm)
          → (feed g (join cs)).1 ≡ some value
          → scan_chunks from_utf8 contains_key g cs ≡ some name)
      → elim (registered_name from_utf8 contains_key (r.1)) [
        | some found ↦ some found
        | none ↦ scan_chunks from_utf8 contains_key (r.0) cs
      ]
        ≡ some name
  scan-resume (g, some v) cs value name h reg rec = let eq : v ≡ value = cc in rw (eq, reg) refl
  scan-resume (g, none) cs value name h reg rec = rec g h

  scan_chunks-join :
      (fsm : NameScanFsm) (cs : List (List ℕ)) (value : List ℕ) (name : String)
      → (feed fsm (join cs)).1 ≡ some value
      → registered_name from_utf8 contains_key (some value) ≡ some name
      → scan_chunks from_utf8 contains_key fsm cs ≡ some name
  scan_chunks-join fsm [] value name h r = cc
  scan_chunks-join fsm (c ∷ cs) value name h r =
      scan-resume (feed fsm c) cs value name (rw (feed-append fsm c (join cs)) at h) r
        (λ g k. scan_chunks-join g cs value name k r)

  -- If the first value that a scan of the first 16 KB as a whole captures is the name of a
  -- registered tool, the hint is that tool, wherever the chunks of 64 bytes end.
  pub find_tool_hint_first :
      (body value : List ℕ) (name : String)
      → (feed new (take scan_limit body)).1 ≡ some value
      → registered_name from_utf8 contains_key (some value) ≡ some name
      → find_tool_hint from_utf8 contains_key false body ≡ some name
  unfolding find_tool_hint
  find_tool_hint_first body value name h r =
      let scanned = take scan_limit body in
      scan_chunks-join new (chunks scan_limit 64 scanned) value name
        (rw
          (join-chunks scan_limit 64 scanned (omega arith)
            (omega (arith, length-take scan_limit body)))
          h)
        r
