-- ===== src/Mcp/NameScan/Capture.antt =====
-- The scan captures the value of a "name" key, and the hint names it.
use red_eye_engine_gateway.Common.{
  ℕ, zero, suc, ◌-◌, ◌≤◌, ◌≡◌, refl, sym, ap, ◌∙◌, Bool, true, false, not, ◌&&◌, Option, none, some,
  List, [], ◌∷◌, ◌++◌, String, take, length, all, codes, ◌==◌, arith, &&-true,
}
use mathlib.Core.List.{append_assoc, append-nil}
use red_eye_engine_gateway.Mcp.NameScan.{
  NameScanFsm, FsmState, idle, after_key_close, after_colon, in_value, new, step, quote, backslash,
  is_space, feed, registered_name, scan_limit, find_tool_hint,
}
use red_eye_engine_gateway.Mcp.NameScan.Chunks.{
  resume, feed-cons, feed-append, find_tool_hint_first,
}

abbrev pub at : FsmState → List ℕ → NameScanFsm
at s buf = record { state = s; value_buf = buf }

-- A byte that stands for itself in a JSON text.
abbrev pub is_plain : ℕ → Bool
is_plain b = not (b == quote) && not (b == backslash)

-- A "name" key with a value, and spaces around the colon.
abbrev pub entry : List ℕ → List ℕ → List ℕ → List ℕ
entry before after value =
    codes "\"name\"" ++ (before ++ (b':' ∷ (after ++ (quote ∷ (value ++ quote ∷ [])))))

space-colon : (b : ℕ) → is_space b ≡ true → ((b == b':') ≡ false) × ((b == quote) ≡ false)
space-colon b h = ground arith

not-true : {b : Bool} → not b ≡ true → b ≡ false
not-true {b = true} h = sym h
not-true {b = false} h = refl

-- Where a byte leads to a state without a value, the scan goes on from there.
feed-goto :
    (fsm next : NameScanFsm) (b : ℕ) (bs : List ℕ)
    → step fsm.state fsm.value_buf b ≡ (next, none)
    → feed fsm (b ∷ bs) ≡ feed next bs
feed-goto fsm next b bs h = feed-cons fsm b bs ∙ ap (λ r. resume r bs) h

step-plain :
    (b : ℕ) (buf : List ℕ)
    → is_plain b ≡ true
    → step in_value buf b ≡ (at in_value (buf ++ b ∷ []), none)
step-plain b buf h =
    let (q, e) = &&-true (not (b == quote)) (not (b == backslash)) h in
    rw (not-true q, not-true e, step) refl

step-before :
    (b : ℕ) (buf : List ℕ)
    → is_space b ≡ true
    → step after_key_close buf b ≡ (at after_key_close buf, none)
step-before b buf h = rw ((space-colon b h).0, h, step) refl

step-after :
    (b : ℕ) (buf : List ℕ) → is_space b ≡ true → step after_colon buf b ≡ (at after_colon buf, none)
step-after b buf h = rw ((space-colon b h).1, h, step) refl

feed-value :
    (value buf rest : List ℕ)
    → all is_plain value ≡ true
    → feed (at in_value buf) (value ++ quote ∷ rest) ≡ (new, some (buf ++ value))
feed-value [] buf rest h = ap (λ b. (new, some b)) (sym (append-nil buf))
feed-value (b ∷ value) buf rest h =
    let (plain, more) = &&-true (is_plain b) (all is_plain value) h in
    feed-goto (at in_value buf) (at in_value (buf ++ b ∷ [])) b (value ++ quote ∷ rest)
      (step-plain b buf plain)
    ∙ feed-value value (buf ++ b ∷ []) rest more
    ∙ ap (λ v. (new, some v)) (append_assoc buf (b ∷ []) value)

feed-before :
    (spaces buf rest : List ℕ)
    → all is_space spaces ≡ true
    → feed (at after_key_close buf) (spaces ++ b':' ∷ rest) ≡ feed (at after_colon buf) rest
feed-before [] buf rest h = refl
feed-before (b ∷ spaces) buf rest h =
    let (space, more) = &&-true (is_space b) (all is_space spaces) h in
    feed-goto (at after_key_close buf) (at after_key_close buf) b (spaces ++ b':' ∷ rest)
      (step-before b buf space)
    ∙ feed-before spaces buf rest more

feed-after :
    (spaces buf rest : List ℕ)
    → all is_space spaces ≡ true
    → feed (at after_colon buf) (spaces ++ quote ∷ rest) ≡ feed (at in_value []) rest
feed-after [] buf rest h = refl
feed-after (b ∷ spaces) buf rest h =
    let (space, more) = &&-true (is_space b) (all is_space spaces) h in
    feed-goto (at after_colon buf) (at after_colon buf) b (spaces ++ quote ∷ rest)
      (step-after b buf space)
    ∙ feed-after spaces buf rest more

feed-key :
    (buf rest : List ℕ)
    → feed (at idle buf) (codes "\"name\"" ++ rest) ≡ feed (at after_key_close buf) rest
feed-key buf rest = refl

feed-entry :
    (before after value buf : List ℕ)
    → all is_space before ≡ true
    → all is_space after ≡ true
    → all is_plain value ≡ true
    → feed (at idle buf) (entry before after value) ≡ (new, some value)
feed-entry before after value buf hb ha hv =
    feed-key buf (before ++ (b':' ∷ (after ++ (quote ∷ (value ++ quote ∷ [])))))
    ∙ feed-before before buf (after ++ (quote ∷ (value ++ quote ∷ []))) hb
    ∙ feed-after after buf (value ++ quote ∷ []) ha
    ∙ feed-value value [] [] hv

take-append :
    (n : ℕ) (xs ys : List ℕ) → length xs ≤ n → take n (xs ++ ys) ≡ xs ++ take (n - length xs) ys
take-append n [] ys h = let e : n ≡ n - 0 = omega arith in ap (λ k. take k ys) e
take-append zero (x ∷ xs) ys h = absurd (omega arith)
take-append (suc n) (x ∷ xs) ys h =
    let e : suc n - suc (length xs) ≡ n - length xs = omega arith in
    ap (◌∷◌ x) (take-append n xs ys (omega arith) ∙ ap (λ k. xs ++ take k ys) (sym e))

-- A "name" key whose value is the name of a registered tool is found, if it lies in the first 16 KB
-- behind bytes that leave the scan idle without a value: spaces and tabs may stand round the
-- colon, and the 64-byte chunks may end anywhere.
pub find_tool_hint_finds :
    (from_utf8 : List ℕ → Option String) (contains_key : String → Bool)
    (front before after value back buf : List ℕ) (name : String)
    → feed new front ≡ (at idle buf, none)
    → all is_space before ≡ true
    → all is_space after ≡ true
    → all is_plain value ≡ true
    → length (front ++ entry before after value) ≤ scan_limit
    → registered_name from_utf8 contains_key (some value) ≡ some name
    → find_tool_hint from_utf8 contains_key false ((front ++ entry before after value) ++ back)
      ≡ some name
find_tool_hint_finds from_utf8 contains_key front before after value back buf name h hb ha hv l r =
    let text = front ++ entry before after value in
    let captured : feed new text ≡ (new, some value) =
      feed-append new front (entry before after value)
      ∙ ap (λ x. resume x (entry before after value)) h
      ∙ feed-entry before after value buf hb ha hv in
    find_tool_hint_first from_utf8 contains_key (text ++ back) value name
      (rw
        (
          take-append scan_limit text back l,
          feed-append new text (take (scan_limit - length text) back),
          captured,
        )
        refl)
      r
