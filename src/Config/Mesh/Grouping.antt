-- ===== src/Config/Mesh/Grouping.antt =====
-- The routing map against its entries: what each model is looked up as.
use mathlib.Core.List.{append-nil, append_assoc}
use red_eye_engine_gateway.Common.{
  true, false, Option, none, some, List, [], ◌∷◌, ◌++◌, String, str_eq, eq_iff, eq_refl,
  if◌then◌else◌, map, keep, ◌≡◌, ◌≢◌, refl, sym, ap, ◌∙◌, Bool-cases, same_text, inl, inr,
  unwrap_or, Result, ok, err, Result-cases,
}
use red_eye_engine_gateway.Config.Failures.{ConfigError}
use red_eye_engine_gateway.Router.Keys.{KeyConfig, ModelConfig, RoutingMap, sort_keys, lookup}
use red_eye_engine_gateway.Config.Mesh.{
  RoutingEntry, UpsertRoutingMeshRequest, TextOps, Repo, key_of, with_key, no_keys, change_entry,
  add_entries, ensure_key, register, sort_mesh, build_mesh, placeholder, mesh_of,
  upsert_routing_mesh, is_blank, store_model,
}

lookup-change_entry :
    (model : String) (fresh : ModelConfig) (change : ModelConfig → ModelConfig) (mesh : RoutingMap)
    → lookup model (change_entry model fresh change mesh)
      ≡ some (change (unwrap_or (lookup model mesh) fresh))
unfolding lookup change_entry
lookup-change_entry model fresh change [] = rw (eq_refl model) refl
lookup-change_entry model fresh change ((m, c) ∷ rest) = elim (Bool-cases (str_eq m model)) [
  | inl e ↦ rw (e, change_entry, lookup, e) refl
  | inr e ↦ rw (e, change_entry, lookup, e) (lookup-change_entry model fresh change rest)
]

lookup-change_entry_other :
    (j model : String) (fresh : ModelConfig) (change : ModelConfig → ModelConfig)
    (mesh : RoutingMap)
    → str_eq model j ≡ false
    → lookup j (change_entry model fresh change mesh) ≡ lookup j mesh
unfolding lookup change_entry
lookup-change_entry_other j model fresh change [] d = rw (d, lookup) refl
lookup-change_entry_other j model fresh change ((m, c) ∷ rest) d =
    elim (Bool-cases (str_eq m model)) [
      | inl e ↦ rw (e, lookup, same_text m j model d e) refl
      | inr e ↦
          rw (e, lookup)
            (ap (λ o. if str_eq m j then some c else o)
              (lookup-change_entry_other j model fresh change rest d))
    ]

lookup-change_entry_same :
    (j model : String) (fresh : ModelConfig) (change : ModelConfig → ModelConfig)
    (mesh : RoutingMap)
    → str_eq model j ≡ true
    → lookup j (change_entry model fresh change mesh)
      ≡ some (change (unwrap_or (lookup j mesh) fresh))
lookup-change_entry_same j model fresh change mesh h =
    rw ((eq_iff model j).0 h) (lookup-change_entry j fresh change mesh)

abbrev pub sorted : Option ModelConfig → Option ModelConfig
sorted none = none
sorted (some c) = some (record c { keys = sort_keys c.keys })

-- The independent description: a model is looked up as the group of its entries.
abbrev pub config_of : List RoutingEntry → Option ModelConfig
config_of [] = none
config_of (e ∷ es) =
    some (record {
      base_url = e.base_url;
      schema_format = e.schema_format;
      keys = map key_of (e ∷ es);
    })

abbrev pub of_model : String → List RoutingEntry → List RoutingEntry
of_model model entries = keep (λ e. str_eq e.model_name model) entries

-- A slot that more entries are added to.
abbrev extend : Option ModelConfig → List RoutingEntry → Option ModelConfig
extend none es = config_of es
extend (some c) es = some (record c { keys = c.keys ++ map key_of es })

extend_step :
    (o : Option ModelConfig) (e : RoutingEntry) (es : List RoutingEntry)
    → extend (some (with_key (unwrap_or o (no_keys e.base_url e.schema_format)) (key_of e))) es
      ≡ extend o (e ∷ es)
extend_step none e es = refl
extend_step (some c) e es =
    ap (λ ks. some (record c { keys = ks })) (append_assoc c.keys (key_of e ∷ []) (map key_of es))

extend-none : (o : Option ModelConfig) → extend o [] ≡ o
extend-none none = refl
extend-none (some c) = ap (λ ks. some (record c { keys = ks })) (append-nil c.keys)

lookup-add_entries :
    (model : String) (es : List RoutingEntry) (mesh : RoutingMap)
    → lookup model (add_entries es mesh) ≡ extend (lookup model mesh) (of_model model es)
unfolding add_entries
lookup-add_entries model [] mesh = sym (extend-none (lookup model mesh))
lookup-add_entries model (e ∷ es) mesh = elim (Bool-cases (str_eq e.model_name model)) [
  | inl h ↦
      rw (h, of_model, keep)
        (lookup-add_entries model es _
          ∙ ap (λ o. extend o (of_model model es))
              (lookup-change_entry_same model e.model_name _ _ mesh h)
          ∙ extend_step (lookup model mesh) e (of_model model es))
  | inr h ↦
      rw (h, of_model, keep)
        (lookup-add_entries model es _
          ∙ ap (λ o. extend o (of_model model es))
              (lookup-change_entry_other model e.model_name _ _ mesh h))
]

lookup-sort_mesh :
    (j : String) (mesh : RoutingMap) → lookup j (sort_mesh mesh) ≡ sorted (lookup j mesh)
unfolding lookup sort_mesh
lookup-sort_mesh j [] = refl
lookup-sort_mesh j ((m, c) ∷ rest) = elim (Bool-cases (str_eq m j)) [
  | inl e ↦ rw (e, lookup, sort_mesh) refl
  | inr e ↦ rw (e, lookup, sort_mesh) (lookup-sort_mesh j rest)
]

refused :
    {e : ConfigError} {m : RoutingMap} → ◌≢◌ {A = Result ConfigError RoutingMap} (err e) (ok m)
refused h = cc

ok_path : {m n : RoutingMap} → ◌≡◌ {A = Result ConfigError RoutingMap} (ok m) (ok n) → m ≡ n
ok_path {m} h = ap (λ r. elim r [ ok a ↦ a | err _ ↦ m ]) h

-- What a mesh is, for the entries of the database and a registered model and key.
abbrev pub IsGrouped :
    List RoutingEntry → String → String → String → KeyConfig → RoutingMap → Type 0
IsGrouped entries model base_url schema_format key mesh =
    (lookup model mesh
      ≡ some (record {
        base_url = base_url;
        schema_format = schema_format;
        keys = sort_keys (ensure_key key (map key_of (of_model model entries)));
      }))
    × ((j : String)
        → str_eq model j ≡ false
        → lookup j mesh ≡ sorted (config_of (of_model j entries)))

register_group :
    (base_url schema_format : String) (key : KeyConfig) (es : List RoutingEntry)
    → sorted (
        some (
          register base_url schema_format key
            (unwrap_or (config_of es) (no_keys base_url schema_format))))
      ≡ some (record {
        base_url = base_url;
        schema_format = schema_format;
        keys = sort_keys (ensure_key key (map key_of es));
      })
unfolding register
register_group base_url schema_format key [] = refl
register_group base_url schema_format key (e ∷ es) = refl

build_mesh-IsGrouped :
    (entries : List RoutingEntry) (model base_url schema_format : String) (key : KeyConfig)
    → IsGrouped entries model base_url schema_format key
        (build_mesh entries model base_url schema_format key)
unfolding build_mesh lookup
build_mesh-IsGrouped entries model base_url schema_format key =
    let fresh = no_keys base_url schema_format in
    let change = register base_url schema_format key in
    let mesh = add_entries entries [] in
    (
      lookup-sort_mesh model (change_entry model fresh change mesh)
          ∙ ap sorted (
              lookup-change_entry model fresh change mesh
              ∙ ap (λ o. some (change (unwrap_or o fresh))) (lookup-add_entries model entries []))
          ∙ register_group base_url schema_format key (of_model model entries),
      λ j d.
          lookup-sort_mesh j (change_entry model fresh change mesh)
          ∙ ap sorted (
              lookup-change_entry_other j model fresh change mesh d
              ∙ lookup-add_entries j entries []),
    )

-- Whenever a request is accepted, the published mesh is, by the entries that the database then
-- holds: for the request's model, the request's URL and format, blank or not, and the keys of its
-- entries with the request's key added if none has its alias; for every other model, the group of
-- its entries; and every model's keys are sorted by `sort_keys`.
pub upsert_routing_mesh-IsGrouped :
    (text : TextOps) (repo : Repo) (r : UpsertRoutingMeshRequest) (tenant_id : String)
    (db : repo.Db) {mesh : RoutingMap}
    → (upsert_routing_mesh text repo r tenant_id db).0 ≡ ok mesh
    → (entries : List RoutingEntry) × (repo.get_routing_entries
          (upsert_routing_mesh text repo r tenant_id db).1
          tenant_id
        ≡ ok entries)
      × IsGrouped entries
          (text.trim r.model_name)
          (text.trim r.base_url)
          (text.to_lowercase (text.trim r.schema_format))
          (placeholder text repo r)
          mesh
unfolding upsert_routing_mesh mesh_of
upsert_routing_mesh-IsGrouped text repo r tenant_id db {mesh} h =
    elim (Bool-cases (is_blank text repo r.model_name)) [
      | inl e ↦ absurd (refused (rw (e, upsert_routing_mesh) at h))
      | inr e ↦ elim (Bool-cases (is_blank text repo r.key_alias)) [
        | inl f ↦ absurd (refused (rw (e, upsert_routing_mesh, f) at h))
        | inr f ↦ elim (Result-cases (store_model text repo r tenant_id db)) [
          | inr (x, g) ↦ absurd (refused (rw (e, upsert_routing_mesh, f, g) at h))
          | inl (db', g) ↦ elim (Result-cases (repo.get_routing_entries db' tenant_id)) [
            | inr (x, k) ↦ absurd (refused (rw (e, upsert_routing_mesh, f, g, k) at h))
            | inl (entries, k) ↦
                let same : mesh_of text repo r entries ≡ mesh =
                  ok_path (rw (e, upsert_routing_mesh, f, g, k) at h) in
                (
                  entries,
                  rw (e, upsert_routing_mesh, f, g, k) k,
                  rw (sym same) (
                      build_mesh-IsGrouped entries (text.trim r.model_name) (text.trim r.base_url)
                        (text.to_lowercase (text.trim r.schema_format)) (placeholder text repo r)),
                )
          ]
        ]
      ]
    ]
