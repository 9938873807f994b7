-- ===== src/Router/Selection/Order.antt =====
-- The sorted list of a model's keys, and the healthy keys of it.
use mathlib.Core.List.{Perm}
use mathlib.Core.List.Perm
use red_eye_engine_gateway.Common.{
  Bool, true, false, List, [], ◌∷◌, String, ℤ, leb_ℤ, ◌≤ℤ◌, ◌≡◌, arith, Bool-cases, inl, inr, All,
  tests,
}
use red_eye_engine_gateway.Router.Keys.{KeyConfig, insert_key, sort_keys, healthy}

-- Lower priorities come first.
abbrev pub IsSorted : List KeyConfig → Type 0
IsSorted [] = Unit
IsSorted (k ∷ []) = Unit
IsSorted (k ∷ j ∷ ks) = (k.priority ≤ℤ j.priority) × IsSorted (j ∷ ks)

IsSorted-cons :
    (k : KeyConfig) (ks : List KeyConfig)
    → All (λ j. k.priority ≤ℤ j.priority) ks
    → IsSorted ks
    → IsSorted (k ∷ ks)
IsSorted-cons k [] h s = tt
IsSorted-cons k (j ∷ js) (h, _) s = (h, s)

All-of-IsSorted :
    (k : KeyConfig) (ks : List KeyConfig)
    → IsSorted (k ∷ ks)
    → All (λ j. k.priority ≤ℤ j.priority) ks
All-of-IsSorted k [] s = tt
All-of-IsSorted k (j ∷ js) (h, s) = (h, weaken js (All-of-IsSorted j js s))
  where
    weaken :
        (is : List KeyConfig)
        → All (λ i. j.priority ≤ℤ i.priority) is
        → All (λ i. k.priority ≤ℤ i.priority) is
    weaken [] _ = tt
    weaken (i ∷ is) (p, ps) = (omega arith, weaken is ps)

IsSorted-tail : (k : KeyConfig) (ks : List KeyConfig) → IsSorted (k ∷ ks) → IsSorted ks
IsSorted-tail k [] _ = tt
IsSorted-tail k (j ∷ js) (_, s) = s

All-insert :
    (p : ℤ) (k : KeyConfig) (ks : List KeyConfig)
    → p ≤ℤ k.priority
    → All (λ j. p ≤ℤ j.priority) ks
    → All (λ j. p ≤ℤ j.priority) (insert_key k ks)
All-insert p k [] h _ = (h, tt)
All-insert p k (j ∷ js) h (g, gs) = elim (Bool-cases (leb_ℤ k.priority j.priority)) [
  | inl e ↦ rw e (h, (g, gs))
  | inr e ↦ rw e (g, All-insert p k js h gs)
]

IsSorted-insert : (k : KeyConfig) (ks : List KeyConfig) → IsSorted ks → IsSorted (insert_key k ks)
IsSorted-insert k [] s = tt
IsSorted-insert k (j ∷ js) s = elim (Bool-cases (leb_ℤ k.priority j.priority)) [
  | inl e ↦ rw e (omega tests, s)
  | inr e ↦ rw e (
      IsSorted-cons j (insert_key k js)
        (All-insert j.priority k js (omega tests) (All-of-IsSorted j js s))
        (IsSorted-insert k js (IsSorted-tail j js s)))
]

pub sort_keys-IsSorted : (ks : List KeyConfig) → IsSorted (sort_keys ks)
unfolding sort_keys
sort_keys-IsSorted [] = tt
sort_keys-IsSorted (k ∷ ks) = IsSorted-insert k (sort_keys ks) (sort_keys-IsSorted ks)

module _ (is_open : String → Bool) where
  All-healthy :
      (P : KeyConfig → Type 0) (ks : List KeyConfig) → All P ks → All P (healthy is_open ks)
  unfolding healthy
  All-healthy P [] _ = tt
  All-healthy P (k ∷ ks) (p, ps) = elim (Bool-cases (is_open k.key_alias)) [
    | inl e ↦ rw (e, healthy) (All-healthy P ks ps)
    | inr e ↦ rw (e, healthy) (p, All-healthy P ks ps)
  ]

  pub healthy-IsClosed :
      (ks : List KeyConfig) → All (λ k. is_open k.key_alias ≡ false) (healthy is_open ks)
  unfolding healthy
  healthy-IsClosed [] = tt
  healthy-IsClosed (k ∷ ks) = elim (Bool-cases (is_open k.key_alias)) [
    | inl e ↦ rw (e, healthy) (healthy-IsClosed ks)
    | inr e ↦ rw (e, healthy) (e, healthy-IsClosed ks)
  ]

  pub healthy-IsSorted : (ks : List KeyConfig) → IsSorted ks → IsSorted (healthy is_open ks)
  unfolding healthy
  healthy-IsSorted [] s = tt
  healthy-IsSorted (k ∷ ks) s = elim (Bool-cases (is_open k.key_alias)) [
    | inl e ↦ rw (e, healthy) (healthy-IsSorted ks (IsSorted-tail k ks s))
    | inr e ↦
        rw (e, healthy)
          (IsSorted-cons k (healthy is_open ks)
            (All-healthy (λ j. k.priority ≤ℤ j.priority) ks (All-of-IsSorted k ks s))
            (healthy-IsSorted ks (IsSorted-tail k ks s)))
  ]

  healthy_of_open :
      (k : KeyConfig) (ks : List KeyConfig)
      → is_open k.key_alias ≡ true
      → healthy is_open (k ∷ ks) ≡ healthy is_open ks
  unfolding healthy
  healthy_of_open k ks e = rw (e, healthy)

  healthy_of_closed :
      (k : KeyConfig) (ks : List KeyConfig)
      → is_open k.key_alias ≡ false
      → healthy is_open (k ∷ ks) ≡ k ∷ healthy is_open ks
  unfolding healthy
  healthy_of_closed k ks e = rw (e, healthy)

  healthy_swap :
      (k j : KeyConfig) (js rest : List KeyConfig)
      → Perm (healthy is_open rest) (healthy is_open (k ∷ js))
      → Perm (healthy is_open (j ∷ rest)) (healthy is_open (k ∷ j ∷ js))
  healthy_swap k j js rest p = elim (Bool-cases (is_open j.key_alias)) [
    | inl a ↦ elim (Bool-cases (is_open k.key_alias)) [
      | inl b ↦
          rw (healthy_of_open j rest a, healthy_of_open k (j ∷ js) b, healthy_of_open j js a)
            (rw (healthy_of_open k js b) at p)
      | inr b ↦
          rw (healthy_of_open j rest a, healthy_of_closed k (j ∷ js) b, healthy_of_open j js a)
            (rw (healthy_of_closed k js b) at p)
    ]
    | inr a ↦ elim (Bool-cases (is_open k.key_alias)) [
      | inl b ↦
          rw (healthy_of_closed j rest a, healthy_of_open k (j ∷ js) b, healthy_of_closed j js a)
            (Perm.cons j (rw (healthy_of_open k js b) at p))
      | inr b ↦
          rw (healthy_of_closed j rest a, healthy_of_closed k (j ∷ js) b, healthy_of_closed j js a)
            (Perm.trans (Perm.cons j (rw (healthy_of_closed k js b) at p))
              (Perm.swap k j (healthy is_open js)))
    ]
  ]

  healthy-insert :
      (k : KeyConfig) (ks : List KeyConfig)
      → Perm (healthy is_open (insert_key k ks)) (healthy is_open (k ∷ ks))
  healthy-insert k [] = Perm.refl _
  healthy-insert k (j ∷ js) = elim (Bool-cases (leb_ℤ k.priority j.priority)) [
    | inl e ↦ rw e (Perm.refl _)
    | inr e ↦ rw e (healthy_swap k j js (insert_key k js) (healthy-insert k js))
  ]

  healthy-cons :
      (k : KeyConfig) (js ks : List KeyConfig)
      → Perm (healthy is_open js) (healthy is_open ks)
      → Perm (healthy is_open (k ∷ js)) (healthy is_open (k ∷ ks))
  healthy-cons k js ks p = elim (Bool-cases (is_open k.key_alias)) [
    | inl e ↦ rw (healthy_of_open k js e, healthy_of_open k ks e) p
    | inr e ↦ rw (healthy_of_closed k js e, healthy_of_closed k ks e) (Perm.cons k p)
  ]

  pub healthy-sort_keys :
      (ks : List KeyConfig) → Perm (healthy is_open (sort_keys ks)) (healthy is_open ks)
  unfolding sort_keys
  healthy-sort_keys [] = Perm.refl _
  healthy-sort_keys (k ∷ ks) =
      Perm.trans (healthy-insert k (sort_keys ks))
        (healthy-cons k (sort_keys ks) ks (healthy-sort_keys ks))

-- What a prepared request says about the keys: the model is configured, the request is built for
-- a primary key, and that key and the fallbacks are the model's healthy keys, each once and by
-- ascending priority.
