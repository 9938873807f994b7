-- ===== src/Pii/Digits.antt =====
-- The loop of `contains_digit_sequence` against what it looks for: a run of digits in the text
-- without its spaces and dashes.
use red_eye_engine_gateway.Common.{
  ℕ, zero, suc, ◌+◌, ◌-◌, ◌<◌, ◌≤◌, ◌≡◌, refl, sym, ◌∙◌, Bool, true, false, not, ◌&&◌, ◌||◌, List,
  [], ◌∷◌, keep, Bool-cases, inl, inr, arith, lt→leb, le→leb,
}
use red_eye_engine_gateway.Pii.Texts.{is_digit, is_separator, count_digits, contains_digit_sequence}

-- The text begins with this many digits.
abbrev pub leads : ℕ → List ℕ → Bool
leads zero s = true
leads (suc n) [] = false
leads (suc n) (c ∷ s) = is_digit c && leads n s

-- This many digits stand in a row somewhere.
abbrev pub has_run : ℕ → List ℕ → Bool
has_run n [] = leads n []
has_run n (c ∷ s) = leads n (c ∷ s) || has_run n s

abbrev pub bare : List ℕ → List ℕ
bare s = keep (λ c. not (is_separator c)) s

leads_fewer : (m n : ℕ) (s : List ℕ) → n ≤ m → leads m s ≡ true → leads n s ≡ true
leads_fewer m zero s h e = refl
leads_fewer zero (suc n) s h e = absurd (omega arith)
leads_fewer (suc m) (suc n) [] h e = e
leads_fewer (suc m) (suc n) (c ∷ s) h e = ground (arith, leads_fewer m n s)

leads-has_run : (n : ℕ) (s : List ℕ) → leads n s ≡ true → has_run n s ≡ true
leads-has_run n [] e = e
leads-has_run n (c ∷ s) e = rw e refl

digit-is_separator : (c : ℕ) → is_digit c ≡ true → is_separator c ≡ false
digit-is_separator c h = ground arith

leads-digit : (n m c : ℕ) (s : List ℕ) → n ≡ suc m → is_digit c ≡ true → leads n (c ∷ s) ≡ leads m s
leads-digit n m c s h e = rw (h, e) refl

leads-other : (n c : ℕ) (s : List ℕ) → 0 < n → is_digit c ≡ false → leads n (c ∷ s) ≡ false
leads-other zero c s h e = absurd (omega arith)
leads-other (suc n) c s h e = rw e refl

bare-other : (c : ℕ) (s : List ℕ) → is_separator c ≡ false → bare (c ∷ s) ≡ c ∷ bare s
bare-other c s h = rw (h, keep) refl

bare-separator : (c : ℕ) (s : List ℕ) → is_separator c ≡ true → bare (c ∷ s) ≡ bare s
bare-separator c s h = rw (h, keep) refl

or-absorb : (a b : Bool) → (a ≡ true → b ≡ true) → (a || b) ≡ b
or-absorb true b h = sym (h refl)
or-absorb false b h = refl

or-drop : (a b c : Bool) → (b ≡ true → a ≡ true) → (a || (b || c)) ≡ (a || c)
or-drop true b c h = refl
or-drop false true c h = cc (h refl)
or-drop false false c h = refl

-- What the loop is to find: the digits that complete the count, or a run of its own.
ahead : ℕ → ℕ → List ℕ → Bool
ahead n d s = leads (suc d) s || has_run n s

ahead-digit :
    (n c d : ℕ) (s : List ℕ) → suc d < n → is_digit c ≡ true → ahead n (suc d) (c ∷ s) ≡ ahead n d s
unfolding ahead
ahead-digit n c d s h e =
    rw (leads-digit n (n - 1) c s (omega arith) e, e)
      (or-drop (leads (suc d) s) (leads (n - 1) s) (has_run n s)
        (leads_fewer (n - 1) (suc d) s (omega arith)))

ahead-last : (n c : ℕ) (s : List ℕ) → is_digit c ≡ true → ahead n 0 (c ∷ s) ≡ true
unfolding ahead
ahead-last n c s e = rw e refl

ahead-nil : (n d : ℕ) → 0 < n → ahead n d [] ≡ false
unfolding ahead
ahead-nil zero d h = absurd (omega arith)
ahead-nil (suc n) d h = refl

ahead_self : (n : ℕ) (s : List ℕ) → ahead (suc n) n s ≡ has_run (suc n) s
unfolding ahead
ahead_self n s = or-absorb (leads (suc n) s) (has_run (suc n) s) (leads-has_run (suc n) s)

ahead-other :
    (n c d : ℕ) (s : List ℕ) → is_digit c ≡ false → 0 < n → ahead n d (c ∷ s) ≡ has_run n s
unfolding ahead
ahead-other n c d s e h = rw (leads-other n c s h e, e) refl

digit_step :
    (n k c : ℕ) (s : List ℕ) (d : ℕ)
    → ((e : ℕ) → suc n ≡ k + 1 + suc e → count_digits (suc n) (k + 1) s ≡ ahead (suc n) e (bare s))
    → suc n ≡ k + suc d
    → is_digit c ≡ true
    → count_digits (suc n) k (c ∷ s) ≡ ahead (suc n) d (bare (c ∷ s))
digit_step n k c s zero rec h digit =
    rw (bare-other c s (digit-is_separator c digit), digit, le→leb (suc n) (k + 1) (omega arith))
      (sym (ahead-last (suc n) c (bare s) digit))
digit_step n k c s (suc d) rec h digit =
    rw (bare-other c s (digit-is_separator c digit), digit, lt→leb (k + 1) (suc n) (omega arith))
      (rec d (omega arith) ∙ sym (ahead-digit (suc n) c d (bare s) (omega arith) digit))

-- From a count below the bound.
count_digits_lem :
    (n k d : ℕ) (s : List ℕ) → n ≡ k + suc d → count_digits n k s ≡ ahead n d (bare s)
count_digits_lem zero k d s h = absurd (omega arith)
count_digits_lem (suc n) k d [] h = sym (ahead-nil (suc n) d (omega arith))
count_digits_lem (suc n) k d (c ∷ s) h = elim (Bool-cases (is_digit c)) [
  | inl digit ↦ digit_step n k c s d (λ d' e. count_digits_lem (suc n) (k + 1) d' s e) h digit
  | inr other ↦ elim (Bool-cases (is_separator c)) [
    | inl passed ↦ rw (bare-separator c s passed, other, passed) (count_digits_lem (suc n) k d s h)
    | inr restarted ↦
        rw (bare-other c s restarted, other, restarted)
          (count_digits_lem (suc n) 0 n s (omega arith)
            ∙ (ahead_self n (bare s) ∙ sym (ahead-other (suc n) c d (bare s) other (omega arith))))
  ]
]

-- The scan finds a run of a length above 0 exactly if the text without its spaces and dashes has
-- that many digits in a row.
pub contains_digit_sequence_lem :
    (s : List ℕ) (n : ℕ) → 0 < n → contains_digit_sequence s n ≡ has_run n (bare s)
unfolding contains_digit_sequence
contains_digit_sequence_lem s zero h = absurd (omega arith)
contains_digit_sequence_lem s (suc n) h =
    count_digits_lem (suc n) 0 n s (omega arith) ∙ ahead_self n (bare s)
