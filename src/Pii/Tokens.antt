-- ===== src/Pii/Tokens.antt =====
-- The token map that the loop over the entities builds.
use Prim.Native.String
use Prim.Native.String.{count}
use text.Mathlib.Text.{get?}
use text.Mathlib.TextLemmas.{
  append_assoc, append_inj, append_cancel_left, length-append as count-append,
}
use red_eye_engine_gateway.Common.{
  ℕ, suc, ◌+◌, ◌%◌, ◌^◌, ◌≤◌, ◌<◌, ◌≡◌, refl, sym, ap, ◌∙◌, true, false, Option, none, some, List,
  [], ◌∷◌, ◌++◌, String, str_eq, ◌>>=?◌, length, All, eq_iff, Bool-cases, inl, inr, Option-cases,
  arith,
}
use mathlib.Core.List.{append-nil, append_assoc as list_append_assoc}
use red_eye_engine_gateway.Pii.Engine.{
  PresidioEntity, insert_token, in_bounds, token_of, redact_entities,
}

-- Equal texts with ends of one length have the same ends.
same_end : (a b x y : String) → String.◌++◌ a x ≡ String.◌++◌ b y → count x ≡ count y → x ≡ y
same_end a b x y h e =
    let sizes : count a + count x ≡ count b + count y =
      sym (count-append a x) ∙ ap count h ∙ count-append b y in
    (append_inj {s₁ = a} {s₂ = b} {t₁ = x} {t₂ = y} h (omega arith)).1

-- So many of the version-4 identifiers drawn are distinct, and all have one length.
pub record AreDistinct (limit : ℕ) (uuid : ℕ → String) : Type 0 where
  pub distinct : (i j : ℕ) → i < limit → j < limit → uuid i ≡ uuid j → i ≡ j
  pub even : (i j : ℕ) → count (uuid i) ≡ count (uuid j)

module _ (uuid : ℕ → String) where
  -- What is to be mapped: each entity within the text gets the next token, for its part of it.
  abbrev pub entries : String → List PresidioEntity → ℕ → Option (List (String × String))
  entries text [] drawn = some []
  entries text (e ∷ es) drawn = elim (in_bounds text e) [
    | false ↦ entries text es drawn
    | true ↦ get? text e.start e.finish >>=? λ original.
        entries text es (suc drawn) >>=? λ rest. some ((token_of uuid e drawn, original) ∷ rest)
  ]

  module _ (limit : ℕ) (u : AreDistinct limit uuid) where
    open u use {distinct, even}

    token_of_inj :
        (e f : PresidioEntity) (i j : ℕ)
        → i < limit
        → j < limit
        → token_of uuid e i ≡ token_of uuid f j
        → i ≡ j
    token_of_inj e f i j li lj h =
        let mark : String = "_REDACTED>_" in
        let inner = append_cancel_left "<" _ _ h in
        distinct i j li lj (
          same_end (String.◌++◌ e.entity_type mark) (String.◌++◌ f.entity_type mark) (uuid i)
            (uuid j)
            (append_assoc e.entity_type mark (uuid i)
              ∙ inner
              ∙ sym (append_assoc f.entity_type mark (uuid j)))
            (even i j))

    token_of-other :
        (e f : PresidioEntity) (i j : ℕ)
        → i < j
        → j < limit
        → str_eq (token_of uuid e i) (token_of uuid f j) ≡ false
    token_of-other e f i j h l =
        elim (Bool-cases (str_eq (token_of uuid e i) (token_of uuid f j))) [
          | inl same ↦
              let eq : i ≡ j =
                token_of_inj e f i j (omega arith) l
                  ((eq_iff (token_of uuid e i) (token_of uuid f j)).0 same) in
              absurd (omega arith)
          | inr other ↦ other
        ]

    -- None of these keys is a token still to be made.
    abbrev Fresh : ℕ → List (String × String) → Type 0
    Fresh drawn m =
        All
          (λ (k, v).
            (e : PresidioEntity) (j : ℕ)
            → drawn ≤ j
            → j < limit
            → str_eq k (token_of uuid e j) ≡ false)
          m

    Fresh-new :
        (drawn : ℕ) (m : List (String × String)) (e : PresidioEntity) (original : String)
        → Fresh drawn m
        → Fresh (suc drawn) (m ++ (token_of uuid e drawn, original) ∷ [])
    Fresh-new drawn [] e original h = ((λ f j le l. token_of-other e f drawn j (omega arith) l), tt)
    Fresh-new drawn ((k, v) ∷ m) e original (h, hs) =
        ((λ f j le l. h f j (omega arith) l), Fresh-new drawn m e original hs)

    Fresh-insert :
        (drawn : ℕ) (m : List (String × String)) (e : PresidioEntity) (original : String)
        → Fresh drawn m
        → drawn < limit
        → insert_token (token_of uuid e drawn) original m
          ≡ m ++ (token_of uuid e drawn, original) ∷ []
    Fresh-insert drawn [] e original h l = refl
    Fresh-insert drawn ((k, v) ∷ m) e original (h, hs) l =
        rw (h e drawn (omega arith) l) (ap (◌∷◌ (k, v)) (Fresh-insert drawn m e original hs l))

    mod_below : (c : ℕ) → c < 2 ^ 32 → c ≡ (c + 0) % 2 ^ 32
    mod_below c h = omega arith

    -- The three ways of an entity, in the loop and in the specification.
    out-redact :
        (text : String) (e : PresidioEntity) (es : List PresidioEntity) (m : List (String × String))
        (c drawn : ℕ)
        → in_bounds text e ≡ false
        → (redact_entities uuid text (e ∷ es) m c drawn ≡ redact_entities uuid text es m c drawn)
          × (entries text (e ∷ es) drawn ≡ entries text es drawn)
    unfolding redact_entities
    out-redact text e es m c drawn h = (rw (h, redact_entities) refl, rw (h, entries) refl)

    split-redact :
        (text : String) (e : PresidioEntity) (es : List PresidioEntity) (m : List (String × String))
        (c drawn : ℕ)
        → in_bounds text e ≡ true
        → get? text e.start e.finish ≡ none
        → (redact_entities uuid text (e ∷ es) m c drawn ≡ none)
          × (entries text (e ∷ es) drawn ≡ none)
    unfolding redact_entities
    split-redact text e es m c drawn h g =
        (rw (h, g, redact_entities) refl, rw (h, g, entries) refl)

    in-redact :
        (text : String) (e : PresidioEntity) (es : List PresidioEntity) (m : List (String × String))
        (c drawn : ℕ) (original : String)
        → in_bounds text e ≡ true
        → get? text e.start e.finish ≡ some original
        → (redact_entities uuid text (e ∷ es) m c drawn
            ≡ redact_entities uuid text es
                (insert_token (token_of uuid e drawn) original m)
                ((c + 1) % 2 ^ 32)
                (suc drawn))
          × (entries text (e ∷ es) drawn ≡ (
              entries text es (suc drawn) >>=? λ rest.
              some ((token_of uuid e drawn, original) ∷ rest)))
    unfolding redact_entities
    in-redact text e es m c drawn original h g =
        (rw (h, g, redact_entities) refl, rw (h, g, entries) refl)

    -- The map and the counter at the end, from what the rest of the entities adds.
    abbrev finished :
        List (String × String) → ℕ → List (String × String) → Option (List (String × String) × ℕ)
    finished m c rest = some (m ++ rest, (c + length rest) % 2 ^ 32)

    shift-finished :
        (m : List (String × String)) (x : String × String) (c : ℕ)
        (o : Option (List (String × String)))
        → (o >>=? finished (m ++ x ∷ []) ((c + 1) % 2 ^ 32))
          ≡ ((o >>=? λ rest. some (x ∷ rest)) >>=? finished m c)
    shift-finished m x c none = refl
    shift-finished m x c (some rest) =
        let e : ((c + 1) % 2 ^ 32 + length rest) % 2 ^ 32 ≡ (c + suc (length rest)) % 2 ^ 32 =
          omega arith in
        cc (list_append_assoc m (x ∷ []) rest, e)

    from_nothing :
        (o : Option (List (String × String)))
        → (o >>=? finished [] 0) ≡ (o >>=? λ m. some (m, length m % 2 ^ 32))
    from_nothing none = refl
    from_nothing (some m) =
        let e : (0 + length m) % 2 ^ 32 ≡ length m % 2 ^ 32 = omega arith in ap (λ n. some (m, n)) e

    redact_entities_from :
        (text : String) (es : List PresidioEntity) (m : List (String × String)) (c drawn : ℕ)
        → Fresh drawn m
        → c < 2 ^ 32
        → drawn + length es ≤ limit
        → redact_entities uuid text es m c drawn ≡ (entries text es drawn >>=? finished m c)
    unfolding redact_entities
    redact_entities_from text [] m c drawn fresh h few = ap some (cc (append-nil m, mod_below c h))
    redact_entities_from text (e ∷ es) m c drawn fresh h few =
        elim (Bool-cases (in_bounds text e)) [
          | inl within ↦ elim (Option-cases (get? text e.start e.finish)) [
            | inl split ↦
                let (run, spec) = split-redact text e es m c drawn within split in
                run ∙ ap (λ o. o >>=? finished m c) (sym spec)
            | inr (original, found) ↦
                let x : String × String = (token_of uuid e drawn, original) in
                let (run, spec) = in-redact text e es m c drawn original within found in
                run
                ∙ ap (λ m'. redact_entities uuid text es m' ((c + 1) % 2 ^ 32) (suc drawn))
                    (Fresh-insert drawn m e original fresh (omega arith))
                ∙ redact_entities_from text es (m ++ x ∷ []) ((c + 1) % 2 ^ 32) (suc drawn)
                    (Fresh-new drawn m e original fresh) (omega arith) (omega arith)
                ∙ shift-finished m x c (entries text es (suc drawn))
                ∙ ap (λ o. o >>=? finished m c) (sym spec)
          ]
          | inr out ↦
              let (run, spec) = out-redact text e es m c drawn out in
              run
              ∙ redact_entities_from text es m c drawn fresh h (omega arith)
              ∙ ap (λ o. o >>=? finished m c) (sym spec)
        ]

    -- If as many identifiers are distinct as there are entities, the scan maps the token of each
    -- entity within the text to the entity's part of it, in order, and counts them modulo 2^32;
    -- it panics where the part would cut a character.
    pub redact_entities_lem :
        (text : String) (es : List PresidioEntity)
        → length es ≤ limit
        → redact_entities uuid text es [] 0 0
          ≡ (entries text es 0 >>=? λ m. some (m, length m % 2 ^ 32))
    redact_entities_lem text es few =
        redact_entities_from text es [] 0 0 tt (omega arith) (omega arith)
        ∙ from_nothing (entries text es 0)
