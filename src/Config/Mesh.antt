-- ===== src/Config/Mesh.antt =====
-- `upsert_routing_mesh` of redeye_config/src/api/handlers.rs: a model's key is registered, and the
-- tenant's routing map is built anew and published. The service's `KeyConfig` and `ModelConfig` are
-- copies of the gateway's, and the gateway's stand for both here.
pub mod Grouping
use red_eye_engine_gateway.Common.{
  ℕ, Bool, true, false, not, Option, none, some, List, [], ◌∷◌, ◌++◌, String, str_eq, if◌then◌else◌,
  any, map, unwrap_or, ℤ, pos, Result, ok, err,
}
use red_eye_engine_gateway.Config.Failures.{ConfigError, validation}
use red_eye_engine_gateway.Router.Keys.{KeyConfig, ModelConfig, RoutingMap, sort_keys}

-- A key of a tenant joined with a model of its provider.
pub record RoutingEntry : Type 0 where
  pub model_name : String
  pub base_url : String
  pub schema_format : String
  pub key_alias : String
  pub api_key : String
  pub priority : ℤ
  pub weight : ℤ

pub record UpsertRoutingMeshRequest : Type 0 where
  pub model_name : String
  pub base_url : String
  pub schema_format : String
  pub key_alias : String
  pub priority : Option ℤ
  pub weight : Option ℤ

-- Rust's `str::trim` and `str::to_lowercase`, over all of Unicode.
pub record TextOps : Type 0 where
  pub trim : String → String
  pub to_lowercase : String → String

-- The repository's two operations, each of which may fail.
pub record Repo : Type 1 where
  pub Db : Type 0
  pub upsert_llm_model : Db → String → String → String → String → Result ConfigError Db
  pub get_routing_entries : Db → String → Result ConfigError (List RoutingEntry)

abbrev pub key_of : RoutingEntry → KeyConfig
key_of e = record {
  key_alias = e.key_alias;
  api_key = e.api_key;
  priority = e.priority;
  weight = e.weight;
}

abbrev pub with_key : ModelConfig → KeyConfig → ModelConfig
with_key c k = record c { keys = c.keys ++ k ∷ [] }

abbrev pub no_keys : String → String → ModelConfig
no_keys base_url schema_format = record {
  base_url = base_url;
  schema_format = schema_format;
  keys = [];
}

-- `entry(model).or_insert_with(fresh)` and a change of what it refers to.
unfoldable pub change_entry :
    String → ModelConfig → (ModelConfig → ModelConfig) → RoutingMap → RoutingMap
change_entry model fresh change [] = (model, change fresh) ∷ []
change_entry model fresh change ((m, c) ∷ rest) =
    let changed = change_entry model fresh change rest in
    if str_eq m model then (m, change c) ∷ rest else (m, c) ∷ changed

unfoldable pub add_entries : List RoutingEntry → RoutingMap → RoutingMap
add_entries [] mesh = mesh
add_entries (e ∷ es) mesh = add_entries es (
    change_entry e.model_name (no_keys e.base_url e.schema_format) (λ c. with_key c (key_of e))
      mesh)

-- The key is added, without its secret, unless its alias is there.
abbrev pub ensure_key : KeyConfig → List KeyConfig → List KeyConfig
ensure_key key keys =
    if any (λ k. str_eq k.key_alias key.key_alias) keys then keys else keys ++ key ∷ []

unfoldable pub register : String → String → KeyConfig → ModelConfig → ModelConfig
register base_url schema_format key c = record {
  base_url = base_url;
  schema_format = schema_format;
  keys = ensure_key key c.keys;
}

unfoldable pub sort_mesh : RoutingMap → RoutingMap
sort_mesh [] = []
sort_mesh ((m, c) ∷ rest) = (m, record c { keys = sort_keys c.keys }) ∷ sort_mesh rest

unfoldable pub build_mesh : List RoutingEntry → String → String → String → KeyConfig → RoutingMap
unfolding add_entries change_entry register sort_mesh
build_mesh entries model base_url schema_format key = sort_mesh (
    change_entry model (no_keys base_url schema_format) (register base_url schema_format key)
      (add_entries entries []))

module _ (text : TextOps) (repo : Repo) where
  open text use {trim, to_lowercase}
  open repo use {Db, upsert_llm_model, get_routing_entries}

  abbrev pub is_blank : String → Bool
  is_blank s = str_eq (trim s) ""

  -- The key that the request registers; the secret is not known here.
  abbrev pub placeholder : UpsertRoutingMeshRequest → KeyConfig
  placeholder r = record {
    key_alias = trim r.key_alias;
    api_key = "";
    priority = unwrap_or r.priority (pos 1);
    weight = unwrap_or r.weight (pos 100);
  }

  abbrev pub store_model : UpsertRoutingMeshRequest → String → Db → Result ConfigError Db
  store_model r tenant_id db =
      if is_blank r.base_url
      then ok db
      else upsert_llm_model db tenant_id (trim r.model_name) (trim r.base_url)
          (to_lowercase (trim r.schema_format))

  unfoldable pub mesh_of : UpsertRoutingMeshRequest → List RoutingEntry → RoutingMap
  unfolding build_mesh
  mesh_of r entries =
      build_mesh entries (trim r.model_name) (trim r.base_url) (to_lowercase (trim r.schema_format))
        (placeholder r)

  -- What is answered or, if the request is accepted, published; and the database. A failure to
  -- publish changes neither.
  unfoldable pub upsert_routing_mesh :
      UpsertRoutingMeshRequest → String → Db → Result ConfigError RoutingMap × Db
  unfolding mesh_of
  upsert_routing_mesh r tenant_id db =
      if is_blank r.model_name
      then (err (validation "`model_name` must not be blank"), db)
      else if is_blank r.key_alias
      then (err (validation "`key_alias` must not be blank"), db)
      else elim (store_model r tenant_id db) [
        | err e ↦ (err e, db)
        | ok db' ↦ elim (get_routing_entries db' tenant_id) [
          | err e ↦ (err e, db')
          | ok entries ↦ (ok (mesh_of r entries), db')
        ]
      ]
