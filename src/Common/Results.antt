-- ===== src/Common/Results.antt =====
-- Rust's `Result` and the `?` operator.
use mathlib.Core.Path.{◌≡◌, refl}
use mathlib.Core.Logic.{◌⊎◌, inl, inr}
use mathlib.Core.Option.{Option, none, some}

pub data Result {ℓ} (E : Type 0) (A : Type ℓ) : Type ℓ where
  ok : A → Result E A
  err : E → Result E A

infixl 5 ◌>>=◌
abbrev pub ◌>>=◌ {ℓ κ} :
    {E : Type 0} {A : Type ℓ} {B : Type κ} → Result E A → (A → Result E B) → Result E B
ok a >>= f = f a
err e >>= f = err e

-- `ok_or`
abbrev pub ok_or {ℓ} : {E : Type 0} {A : Type ℓ} → Option A → E → Result E A
ok_or none e = err e
ok_or (some a) e = ok a

pub Result-cases {ℓ} :
    {E : Type 0} {A : Type ℓ} (r : Result E A) → ((a : A) × (r ≡ ok a)) ⊎ ((e : E) × (r ≡ err e))
Result-cases (ok a) = inl (a, refl)
Result-cases (err e) = inr (e, refl)

-- Where `?` did not return early, its operand was `ok`.
pub bind_parts {ℓ κ} :
    {E : Type 0} {A : Type ℓ} {B : Type κ} (m : Result E A) (next : A → Result E B) {last : B}
    → (m >>= next) ≡ ok last
    → (value : A) × (m ≡ ok value) × (next value ≡ ok last)
bind_parts (err e) next h = cc
bind_parts (ok value) next h = (value, refl, h)

-- What holds of the value of a result that is `ok`.
abbrev pub OnOk {ℓ κ} : {E : Type 0} {A : Type ℓ} → (A → Type κ) → Result E A → Type κ
OnOk P (ok a) = P a
OnOk P (err e) = Unit

pub OnOk-bind {ℓ κ μ} :
    {E : Type 0} {A : Type ℓ} {B : Type κ} (P : A → Type μ) (Q : B → Type μ) (m : Result E A)
    (f : A → Result E B)
    → OnOk P m
    → ((a : A) → m ≡ ok a → P a → OnOk Q (f a))
    → OnOk Q (m >>= f)
OnOk-bind P Q (ok a) f h k = k a refl h
OnOk-bind P Q (err e) f h k = tt

-- Every result satisfies the predicate that asks nothing.
pub OnOk-any {ℓ} : {E : Type 0} {A : Type ℓ} (m : Result E A) → OnOk (λ _. Unit {0}) m
OnOk-any (ok a) = tt
OnOk-any (err e) = tt

pub OnOk-of {ℓ κ} :
    {E : Type 0} {A : Type ℓ} (P : A → Type κ) {m : Result E A} {a : A} → OnOk P m → m ≡ ok a → P a
OnOk-of P h e = rw e at h

pub ok_or-OnOk {ℓ} :
    {E : Type 0} {A : Type ℓ} (o : Option A) (e : E) → OnOk (λ a. o ≡ some a) (ok_or o e)
ok_or-OnOk none e = tt
ok_or-OnOk (some a) e = refl
