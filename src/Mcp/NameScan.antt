-- ===== src/Mcp/NameScan.antt =====
-- `NameScanFsm` and `find_tool_hint`: the scan of raw bytes for the value of a "name" key.

pub mod Chunks
pub mod Capture
use red_eye_engine_gateway.Common.{
  ℕ, zero, suc, ◌+◌, ◌-◌, Bool, true, false, not, ◌&&◌, ◌||◌, Option, none, some, List, [], ◌∷◌,
  ◌++◌, String, str_eq, codes, take, ltb, ◌==◌, is_some, is_empty, if◌then◌else◌, any,
}

pub data FsmState : Type 0 where
  idle : FsmState
  match_key : ℕ → FsmState
  after_key_close after_colon in_value in_value_escape : FsmState

pub record NameScanFsm : Type 0 where
  pub state : FsmState
  pub value_buf : List ℕ

abbrev pub new : NameScanFsm
new = record { state = idle; value_buf = [] }

abbrev pub key : List ℕ
key = codes "name"

abbrev pub quote : ℕ
quote = 34

abbrev pub backslash : ℕ
backslash = 92

abbrev pub is_space : ℕ → Bool
is_space b = (b == 32) || ((b == 9) || ((b == 13) || (b == 10)))

-- A byte of the key.
abbrev pub key_at : ℕ → List ℕ → ℕ → Bool
key_at p [] b = false
key_at zero (k ∷ ks) b = b == k
key_at (suc p) (k ∷ ks) b = key_at p ks b

abbrev pub goto : FsmState → List ℕ → NameScanFsm × Option (List ℕ)
goto s buf = (record { state = s; value_buf = buf }, none)

-- One byte: the next state, and the value if it is complete.
abbrev pub step : FsmState → List ℕ → ℕ → NameScanFsm × Option (List ℕ)
step idle buf b = if b == quote then goto (match_key 0) buf else goto idle buf
step (match_key p) buf b =
    if ltb p 4 && key_at p key b
    then goto (match_key (p + 1)) buf
    else if (p == 4) && (b == quote)
    then goto after_key_close buf
    else if b == quote
    then goto (match_key 0) buf
    else goto idle buf
step after_key_close buf b =
    if b == b':'
    then goto after_colon buf
    else if is_space b
    then goto after_key_close buf
    else goto idle buf
step after_colon buf b =
    if b == quote
    then goto in_value []
    else if is_space b
    then goto after_colon buf
    else goto idle buf
step in_value buf b =
    if b == quote
    then (record { state = idle; value_buf = [] }, some buf)
    else if b == backslash
    then goto in_value_escape buf
    else goto in_value (buf ++ b ∷ [])
step in_value_escape buf b = goto in_value (buf ++ b ∷ [])

-- The loop ends with the first complete value, and the rest of the bytes is not read.
abbrev pub feed : NameScanFsm → List ℕ → NameScanFsm × Option (List ℕ)
feed fsm [] = (fsm, none)
feed fsm (b ∷ bs) =
    let (next, found) = step fsm.state fsm.value_buf b in
    elim found [ some value ↦ (next, some value) | none ↦ feed next bs ]

abbrev pub drop : ℕ → List ℕ → List ℕ
drop zero bs = bs
drop (suc n) [] = []
drop (suc n) (b ∷ bs) = drop n bs

-- `chunks(size)`, on fuel.
abbrev pub chunks : ℕ → ℕ → List ℕ → List (List ℕ)
chunks zero size bs = []
chunks (suc fuel) size bs =
    if is_empty bs then [] else take size bs ∷ chunks fuel size (drop size bs)

abbrev pub scan_limit : ℕ
scan_limit = 16384

-- `from_utf8` is Rust's; `contains_key` asks the registry.
module _ (from_utf8 : List ℕ → Option String) (contains_key : String → Bool) where
  -- What a captured value names.
  abbrev pub registered_name : Option (List ℕ) → Option String
  registered_name none = none
  registered_name (some bytes) = elim (from_utf8 bytes) [
    | some name ↦ if contains_key name then some name else none
    | none ↦ none
  ]

  abbrev pub scan_chunks : NameScanFsm → List (List ℕ) → Option String
  scan_chunks fsm [] = none
  scan_chunks fsm (c ∷ cs) =
      let (next, found) = feed fsm c in
      elim (registered_name found) [ some name ↦ some name | none ↦ scan_chunks next cs ]

  unfoldable pub find_tool_hint : Bool → List ℕ → Option String
  find_tool_hint registry_is_empty body =
      if registry_is_empty
      then none
      else scan_chunks new (chunks scan_limit 64 (take scan_limit body))
