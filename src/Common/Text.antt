-- ===== src/Common/Text.antt =====
-- Text as the sources handle it: whole texts compared by the text library's test, and searched
-- or case-mapped through their code points (the ASCII part of Rust's case mapping).
use Prim.Native.Nat.{ℕ, ◌+◌, ◌-◌}
use Prim.Native.Char.{code}
use Prim.Native.String.{String}
use mathlib.Core.Bool.{Bool, true, false, ◌&&◌, ◌||◌}
use mathlib.Core.List.{List, [], ◌∷◌}
use mathlib.Core.Path.{◌≡◌}
use text.Mathlib.TextEquality.{eq_iff}
use text.Mathlib.Text.{◌==◌}
use red_eye_engine_gateway.Common.Tests.{leb, if◌then◌else◌, ◌==◌ as nat_eq}

abbrev pub str_eq : String → String → Bool
str_eq s t = s == t

-- The code points of a text: its bytes, if it is ASCII.
abbrev pub codes : String → List ℕ
codes String.[] = []
codes (String.◌∷◌ c s) = code c ∷ codes s

abbrev pub is_prefix : List ℕ → List ℕ → Bool
is_prefix [] s = true
is_prefix (p ∷ ps) [] = false
is_prefix (p ∷ ps) (c ∷ s) = nat_eq p c && is_prefix ps s

-- `str::contains`
abbrev pub contains : List ℕ → List ℕ → Bool
contains p [] = is_prefix p []
contains p (c ∷ s) = is_prefix p (c ∷ s) || contains p s

-- `char::to_ascii_lowercase` and `char::to_ascii_uppercase`
abbrev pub lower : ℕ → ℕ
lower c = if leb b'A' c && leb c b'Z' then c + 32 else c

abbrev pub upper : ℕ → ℕ
upper c = if leb b'a' c && leb c b'z' then c - 32 else c

pub same_text : (i j k : String) → str_eq k j ≡ false → str_eq i k ≡ true → str_eq i j ≡ false
same_text i j k d e = rw ((eq_iff i k).0 e) d
