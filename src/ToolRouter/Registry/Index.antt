-- ===== src/ToolRouter/Registry/Index.antt =====
-- The index that the registry builds against the list of its tools.
use red_eye_engine_gateway.Common.{
  ℕ, zero, suc, ◌≡◌, refl, sym, ap, ◌∙◌, Option, none, some, List, [], ◌∷◌, ◌++◌, String, str_eq,
  eq_iff, length, if◌then◌else◌, ◌>>=?◌, Bool-cases, inl, inr, arith, Option-cases, length-append,
}
use mathlib.Core.List.{append-nil, append_assoc}
use red_eye_engine_gateway.ToolRouter.Registry.{
  ToolDescriptor, ToolRegistry, get_elem?, get_index, insert_index, index_from, lookup, from_env,
  embed_all,
}

get_index-insert_index :
    (k j : String) (i : ℕ) (m : List (String × ℕ))
    → get_index k (insert_index j i m) ≡ (if str_eq j k then some i else get_index k m)
get_index-insert_index k j i [] = refl
get_index-insert_index k j i ((h, n) ∷ m) =
    ground (arith, eq_iff j k, eq_iff h j, eq_iff h k, get_index-insert_index k j i m)

module _ {Embedding : Type 0} where
  -- The last tool of a list with a name, after the one found before.
  abbrev pub last_named :
      String
      → Option (ToolDescriptor Embedding)
      → List (ToolDescriptor Embedding)
      → Option (ToolDescriptor Embedding)
  last_named k found [] = found
  last_named k found (d ∷ ds) = last_named k (if str_eq d.name k then some d else found) ds

  -- What the index leads to.
  abbrev at_index :
      Option ℕ → List (ToolDescriptor Embedding) → Option (Option (ToolDescriptor Embedding))
  at_index none tools = some none
  at_index (some i) tools = get_elem? i tools >>=? λ d. some (some d)

  get_elem-append :
      (i : ℕ) (xs : List (ToolDescriptor Embedding)) (y x : ToolDescriptor Embedding)
      → get_elem? i xs ≡ some x
      → get_elem? i (xs ++ y ∷ []) ≡ some x
  get_elem-append i [] y x h = cc
  get_elem-append zero (z ∷ xs) y x h = h
  get_elem-append (suc i) (z ∷ xs) y x h = get_elem-append i xs y x h

  get_elem-last :
      (xs : List (ToolDescriptor Embedding)) (y : ToolDescriptor Embedding)
      → get_elem? (length xs) (xs ++ y ∷ []) ≡ some y
  get_elem-last [] y = refl
  get_elem-last (x ∷ xs) y = get_elem-last xs y

  at_index-append :
      (o : Option ℕ) (xs : List (ToolDescriptor Embedding)) (y : ToolDescriptor Embedding)
      (r : Option (ToolDescriptor Embedding))
      → at_index o xs ≡ some r
      → at_index o (xs ++ y ∷ []) ≡ some r
  at_index-append none xs y r h = h
  at_index-append (some i) xs y r h = elim (Option-cases (get_elem? i xs)) [
    | inl out ↦ cc (rw out at h)
    | inr (x, found) ↦ rw (get_elem-append i xs y x found) (rw found at h)
  ]

  last_named-append :
      (k : String) (found : Option (ToolDescriptor Embedding))
      (xs : List (ToolDescriptor Embedding)) (y : ToolDescriptor Embedding)
      → last_named k found (xs ++ y ∷ [])
        ≡ (if str_eq y.name k then some y else last_named k found xs)
  last_named-append k found [] y = refl
  last_named-append k found (x ∷ xs) y =
      last_named-append k (if str_eq x.name k then some x else found) xs y

  -- The index leads to the last tool of every name.
  IsIndex : List (ToolDescriptor Embedding) → List (String × ℕ) → Type 0
  IsIndex tools index =
      (k : String) → at_index (get_index k index) tools ≡ some (last_named k none tools)

  IsIndex-insert_index :
      (tools : List (ToolDescriptor Embedding)) (index : List (String × ℕ))
      (d : ToolDescriptor Embedding)
      → IsIndex tools index
      → IsIndex (tools ++ d ∷ []) (insert_index d.name (length tools) index)
  unfolding IsIndex
  IsIndex-insert_index tools index d h k =
      rw (get_index-insert_index k d.name (length tools) index, last_named-append k none tools d)
        (elim (Bool-cases (str_eq d.name k)) [
          | inl same ↦ rw same (ap (λ o. o >>=? λ x. some (some x)) (get_elem-last tools d))
          | inr other ↦
              rw other (at_index-append (get_index k index) tools d (last_named k none tools) (h k))
        ])

  index_from-IsIndex :
      (before ds : List (ToolDescriptor Embedding)) (index : List (String × ℕ)) (i : ℕ)
      → i ≡ length before
      → IsIndex before index
      → IsIndex (before ++ ds) (index_from i ds index)
  index_from-IsIndex before [] index i e h = rw (append-nil before) h
  index_from-IsIndex before (d ∷ ds) index i e h = rw (sym (append_assoc before (d ∷ []) ds)) (
      index_from-IsIndex (before ++ d ∷ []) ds (insert_index d.name i index) (suc i)
        (omega (arith, length-append before (d ∷ [])))
        (rw e (IsIndex-insert_index before index d h)))

  lookup-at_index :
      (registry : ToolRegistry Embedding) (name : String)
      → lookup registry name ≡ at_index (get_index name registry.index) registry.tools
  unfolding lookup
  lookup-at_index registry name = elim (Option-cases (get_index name registry.index)) [
    | inl missing ↦ rw (missing, lookup) refl
    | inr (i, found) ↦ rw (found, lookup) refl
  ]

  from_env-some :
      (compute : String → Embedding) (parse : String → Option (List (ToolDescriptor Embedding)))
      (raw : String) (ds : List (ToolDescriptor Embedding))
      → parse raw ≡ some ds
      → from_env compute parse (some raw)
        ≡ record { tools = embed_all compute ds; index = index_from 0 (embed_all compute ds) [] }
  unfolding from_env
  from_env-some compute parse raw ds h = rw (h, from_env) refl

  -- A registry read from the environment answers each name with its last tool of that name, if
  -- there is one, and never looks past its tools.
  pub lookup-from_env :
      (compute : String → Embedding) (parse : String → Option (List (ToolDescriptor Embedding)))
      (raw : String) (ds : List (ToolDescriptor Embedding)) (name : String)
      → parse raw ≡ some ds
      → lookup (from_env compute parse (some raw)) name
        ≡ some (last_named name none (embed_all compute ds))
  unfolding IsIndex
  lookup-from_env compute parse raw ds name h = rw (from_env-some compute parse raw ds h) (
      lookup-at_index
        (record { tools = embed_all compute ds; index = index_from 0 (embed_all compute ds) [] })
        name
      ∙ index_from-IsIndex [] (embed_all compute ds) [] 0 refl (λ k. refl) name)
